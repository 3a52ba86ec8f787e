-- ===== src/Types.antt =====
-- include/httpserver/detail/http_types.h: options, statistics and the enumerations.
use httpserver_cpp.Base.{ℕ, Bool, true, Bytes, codes}
use httpserver_cpp.Base.Int.{ℤ, pos, negsuc}

pub record HttpServerOptions : Type 0 where
  pub addr : Bytes
  pub port : ℕ
  pub thread_num : ℕ
  pub read_time_out : ℕ
  pub write_time_out : ℕ
  pub max_request_size : ℕ
  pub auto_gzip : Bool
  pub auto_decode_url_parameters : Bool

-- The members' initialisers.
abbrev pub default_options : HttpServerOptions
default_options = record {
  addr = codes "0.0.0.0";
  port = 6000;
  thread_num = 1;
  read_time_out = 60;
  write_time_out = 60;
  max_request_size = 2097152;
  auto_gzip = true;
  auto_decode_url_parameters = true;
}

-- `session_cnt` is a `uint32_t`, the others are `uint64_t`.
pub record HttpStatistics : Type 0 where
  pub session_cnt : ℕ
  pub read_timeout_cnt : ℕ
  pub read_success_cnt : ℕ
  pub read_fail_cnt : ℕ
  pub write_timeout_cnt : ℕ
  pub write_success_cnt : ℕ
  pub write_fail_cnt : ℕ
  pub handler_request_cnt : ℕ
  pub working_handler_cnt : ℕ

pub data StatusType : Type 0 where
  ok_status bad_request internal_server_error service_temporary_unavailable : StatusType

unfoldable pub status_value : StatusType → ℕ
status_value ok_status = 200
status_value bad_request = 400
status_value internal_server_error = 500
status_value service_temporary_unavailable = 503

pub data MethodType : Type 0 where
  unknown delete get head post put : MethodType

unfoldable pub method_value : MethodType → ℕ
method_value unknown = 0
method_value delete = 1
method_value get = 2
method_value head = 3
method_value post = 4
method_value put = 5

pub data CompressionLevel : Type 0 where
  no_compression best_speed best_compression default_compression : CompressionLevel

unfoldable pub compression_value : CompressionLevel → ℤ
compression_value no_compression = pos 0
compression_value best_speed = pos 1
compression_value best_compression = pos 9
compression_value default_compression = negsuc 0
