-- ===== src/Statistics/Count.antt =====
-- src/http_statistics_internal.h: the atomic operations on the counters, and their interleavings.
use httpserver_cpp.Base.{◌^◌, ◌<◌, ◌≡◌, refl, List, [], ◌∷◌, ◌++◌, arith}
use httpserver_cpp.Statistics.{
  HttpStatisticsInternal, zero_statistics, u32_inc, u32_dec, u64_inc, u64_dec,
}

-- The increments and decrements that the code makes, each one atomic.
pub data CounterOp : Type 0 where
  session_inc session_dec read_timeout_inc read_success_inc read_fail_inc : CounterOp
  write_timeout_inc write_success_inc write_fail_inc handle_request_inc : CounterOp
  working_handler_inc working_handler_dec : CounterOp

unfoldable pub count : CounterOp → HttpStatisticsInternal → HttpStatisticsInternal
count session_inc st = record st { session_cnt = u32_inc st.session_cnt }
count session_dec st = record st { session_cnt = u32_dec st.session_cnt }
count read_timeout_inc st = record st { read_timeout_cnt = u64_inc st.read_timeout_cnt }
count read_success_inc st = record st { read_success_cnt = u64_inc st.read_success_cnt }
count read_fail_inc st = record st { read_fail_cnt = u64_inc st.read_fail_cnt }
count write_timeout_inc st = record st { write_timeout_cnt = u64_inc st.write_timeout_cnt }
count write_success_inc st = record st { write_success_cnt = u64_inc st.write_success_cnt }
count write_fail_inc st = record st { write_fail_cnt = u64_inc st.write_fail_cnt }
count handle_request_inc st = record st { handle_request_cnt = u64_inc st.handle_request_cnt }
count working_handler_inc st = record st { working_handler_cnt = u64_inc st.working_handler_cnt }
count working_handler_dec st = record st { working_handler_cnt = u64_dec st.working_handler_cnt }

unfoldable pub count_all : List CounterOp → HttpStatisticsInternal → HttpStatisticsInternal
count_all [] st = st
count_all (o ∷ os) st = count_all os (count o st)

pub count_all-append :
    (os ps : List CounterOp) (st : HttpStatisticsInternal)
    → count_all (os ++ ps) st ≡ count_all ps (count_all os st)
unfolding count_all
count_all-append [] ps st = refl
count_all-append (o ∷ os) ps st = count_all-append os ps (count o st)

-- The counters within their width.
pub record IsInRange (st : HttpStatisticsInternal) : Type 0 where
  pub session_lt : st.session_cnt < 2 ^ 32
  pub read_timeout_lt : st.read_timeout_cnt < 2 ^ 64
  pub read_success_lt : st.read_success_cnt < 2 ^ 64
  pub read_fail_lt : st.read_fail_cnt < 2 ^ 64
  pub write_timeout_lt : st.write_timeout_cnt < 2 ^ 64
  pub write_success_lt : st.write_success_cnt < 2 ^ 64
  pub write_fail_lt : st.write_fail_cnt < 2 ^ 64
  pub handle_request_lt : st.handle_request_cnt < 2 ^ 64
  pub working_handler_lt : st.working_handler_cnt < 2 ^ 64

pub zero-IsInRange : IsInRange zero_statistics
zero-IsInRange = ground arith

count-IsInRange :
    (o : CounterOp) (st : HttpStatisticsInternal) → IsInRange st → IsInRange (count o st)
unfolding count
count-IsInRange session_inc st i = ground arith
count-IsInRange _ st i = ground arith

pub count_all-IsInRange :
    (os : List CounterOp) (st : HttpStatisticsInternal) → IsInRange st → IsInRange (count_all os st)
unfolding count_all
count_all-IsInRange [] st i = i
count_all-IsInRange (o ∷ os) st i = count_all-IsInRange os (count o st) (count-IsInRange o st i)

-- The order of two operations does not matter, also where a counter wraps.
pub count_comm :
    (o p : CounterOp) (st : HttpStatisticsInternal) → count o (count p st) ≡ count p (count o st)
unfolding count
count_comm session_inc session_inc st = refl
count_comm _ _ st = ground arith
