-- ===== src/Statistics.antt =====
-- src/http_statistics_internal.h: the server's atomic counters, which wrap.
pub mod Count
pub mod Weave
pub mod Working
pub mod Advances
pub mod Rising
pub mod Serving
use httpserver_cpp.Base.{ℕ, ◌+◌, ◌-◌, ◌%◌, ◌^◌}

abbrev pub u32_inc : ℕ → ℕ
u32_inc n = (n + 1) % 2 ^ 32

abbrev pub u32_dec : ℕ → ℕ
u32_dec n = (n + (2 ^ 32 - 1)) % 2 ^ 32

abbrev pub u64_inc : ℕ → ℕ
u64_inc n = (n + 1) % 2 ^ 64

abbrev pub u64_dec : ℕ → ℕ
u64_dec n = (n + (2 ^ 64 - 1)) % 2 ^ 64

-- `session_cnt` is a `uint32_t`, the others are `uint64_t`.
pub record HttpStatisticsInternal : Type 0 where
  pub session_cnt : ℕ
  pub read_timeout_cnt : ℕ
  pub read_success_cnt : ℕ
  pub read_fail_cnt : ℕ
  pub write_timeout_cnt : ℕ
  pub write_success_cnt : ℕ
  pub write_fail_cnt : ℕ
  pub handle_request_cnt : ℕ
  pub working_handler_cnt : ℕ

abbrev pub zero_statistics : HttpStatisticsInternal
zero_statistics = record {
  session_cnt = 0;
  read_timeout_cnt = 0;
  read_success_cnt = 0;
  read_fail_cnt = 0;
  write_timeout_cnt = 0;
  write_success_cnt = 0;
  write_fail_cnt = 0;
  handle_request_cnt = 0;
  working_handler_cnt = 0;
}
