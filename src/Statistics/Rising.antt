-- ===== src/Statistics/Rising.antt =====
-- src/http_statistics_internal.h: the counters that only rise.
use httpserver_cpp.Base.{ℕ, ◌+◌, ◌^◌, ◌<◌, ◌≤◌, List, [], ◌∷◌, ◌++◌, length, length-append, arith}
use httpserver_cpp.Statistics.{HttpStatisticsInternal}
use httpserver_cpp.Statistics.Count.{
  CounterOp, read_timeout_inc, read_success_inc, read_fail_inc, write_timeout_inc,
  write_success_inc, write_fail_inc, handle_request_inc, count, count_all, count_all-append,
}

abbrev Counter : Type 0
Counter = HttpStatisticsInternal → ℕ

-- One operation adds at most one, while the counter has room.
abbrev pub Rises : Counter → Type 0
Rises f =
    (o : CounterOp) (st : HttpStatisticsInternal)
    → f st + 1 < 2 ^ 64
    → (f st ≤ f (count o st)) × (f (count o st) ≤ f st + 1)

pub read_timeout-Rises : Rises (λ st. st.read_timeout_cnt)
unfolding count
read_timeout-Rises read_timeout_inc st h = omega arith
read_timeout-Rises _ st h = omega arith

pub read_success-Rises : Rises (λ st. st.read_success_cnt)
unfolding count
read_success-Rises read_success_inc st h = omega arith
read_success-Rises _ st h = omega arith

pub read_fail-Rises : Rises (λ st. st.read_fail_cnt)
unfolding count
read_fail-Rises read_fail_inc st h = omega arith
read_fail-Rises _ st h = omega arith

pub write_timeout-Rises : Rises (λ st. st.write_timeout_cnt)
unfolding count
write_timeout-Rises write_timeout_inc st h = omega arith
write_timeout-Rises _ st h = omega arith

pub write_success-Rises : Rises (λ st. st.write_success_cnt)
unfolding count
write_success-Rises write_success_inc st h = omega arith
write_success-Rises _ st h = omega arith

pub write_fail-Rises : Rises (λ st. st.write_fail_cnt)
unfolding count
write_fail-Rises write_fail_inc st h = omega arith
write_fail-Rises _ st h = omega arith

pub handle_request-Rises : Rises (λ st. st.handle_request_cnt)
unfolding count
handle_request-Rises handle_request_inc st h = omega arith
handle_request-Rises _ st h = omega arith

module _ (f : Counter) (rises : Rises f) where
  count_all_rises :
      (os : List CounterOp) (st : HttpStatisticsInternal)
      → f st + length os < 2 ^ 64
      → (f st ≤ f (count_all os st)) × (f (count_all os st) ≤ f st + length os)
  unfolding count_all
  count_all_rises [] st h = omega arith
  count_all_rises (o ∷ os) st h =
      let (low, high) = rises o st (omega arith) in
      omega (arith, count_all_rises os (count o st) (omega arith))

  -- What is read at a moment lies between the values before and after.
  pub read_between :
      (before after : List CounterOp) (st : HttpStatisticsInternal)
      → f st + length (before ++ after) < 2 ^ 64
      → (f st ≤ f (count_all before st))
        × (f (count_all before st) ≤ f (count_all (before ++ after) st))
  read_between before after st h =
      let size = length-append before after in
      let early = count_all_rises before st (omega arith) in
      let late = count_all_rises after (count_all before st) (omega arith) in
      (early.0, rw (count_all-append before after st) (late.0))
