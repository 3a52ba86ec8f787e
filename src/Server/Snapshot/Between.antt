-- ===== src/Server/Snapshot/Between.antt =====
-- src/http_server_impl.cpp: what `getHttpStatistics` tells of the counters that only rise.
use httpserver_cpp.Base.{ℕ, ◌+◌, ◌^◌, ◌<◌, ◌≤◌, length, length-append, arith}
use httpserver_cpp.Types.{HttpStatistics}
use httpserver_cpp.Statistics.{HttpStatisticsInternal}
use httpserver_cpp.Statistics.Count.{count_all}
use httpserver_cpp.Statistics.Rising.{
  Rises, read_between, read_timeout-Rises, read_success-Rises, read_fail-Rises, write_timeout-Rises,
  write_success-Rises, write_fail-Rises, handle_request-Rises,
}
use httpserver_cpp.Server.Snapshot.{
  Gaps, loads, until_handler_request, until_working_handler, until_read_timeout, until_read_success,
  until_read_fail, until_write_timeout, until_write_success, until_write_fail, until_session,
}

pub sizes :
    (g : Gaps)
    → (length (until_handler_request g) ≤ length (until_working_handler g))
      × (length (until_working_handler g) ≤ length (until_read_timeout g))
      × (length (until_read_timeout g) ≤ length (until_read_success g))
      × (length (until_read_success g) ≤ length (until_read_fail g))
      × (length (until_read_fail g) ≤ length (until_write_timeout g))
      × (length (until_write_timeout g) ≤ length (until_write_success g))
      × (length (until_write_success g) ≤ length (until_write_fail g))
      × (length (until_write_fail g) ≤ length (until_session g))
sizes g = omega (
  arith,
  length-append (until_handler_request g) g.working_handler,
  length-append (until_working_handler g) g.read_timeout,
  length-append (until_read_timeout g) g.read_success,
  length-append (until_read_success g) g.read_fail,
  length-append (until_read_fail g) g.write_timeout,
  length-append (until_write_timeout g) g.write_success,
  length-append (until_write_success g) g.write_fail,
  length-append (until_write_fail g) g.session,
)

module _ (f : HttpStatisticsInternal → ℕ) (rises : Rises f) where
  -- The counter at the start and at the loads, one after the other.
  chain :
      (g : Gaps) (st : HttpStatisticsInternal)
      → f st + length (until_session g) < 2 ^ 64
      → (f st ≤ f (count_all (until_handler_request g) st))
        × (f (count_all (until_handler_request g) st) ≤ f (count_all (until_working_handler g) st))
        × (f (count_all (until_working_handler g) st) ≤ f (count_all (until_read_timeout g) st))
        × (f (count_all (until_read_timeout g) st) ≤ f (count_all (until_read_success g) st))
        × (f (count_all (until_read_success g) st) ≤ f (count_all (until_read_fail g) st))
        × (f (count_all (until_read_fail g) st) ≤ f (count_all (until_write_timeout g) st))
        × (f (count_all (until_write_timeout g) st) ≤ f (count_all (until_write_success g) st))
        × (f (count_all (until_write_success g) st) ≤ f (count_all (until_write_fail g) st))
        × (f (count_all (until_write_fail g) st) ≤ f (count_all (until_session g) st))
  chain g st room = (
    (read_between f rises g.handler_request g.working_handler st (omega (arith, sizes g))).0,
    (read_between f rises (until_handler_request g) g.working_handler st
        (omega (arith, sizes g))).1,
    (read_between f rises (until_working_handler g) g.read_timeout st (omega (arith, sizes g))).1,
    (read_between f rises (until_read_timeout g) g.read_success st (omega (arith, sizes g))).1,
    (read_between f rises (until_read_success g) g.read_fail st (omega (arith, sizes g))).1,
    (read_between f rises (until_read_fail g) g.write_timeout st (omega (arith, sizes g))).1,
    (read_between f rises (until_write_timeout g) g.write_success st (omega (arith, sizes g))).1,
    (read_between f rises (until_write_success g) g.write_fail st (omega (arith, sizes g))).1,
    (read_between f rises (until_write_fail g) g.session st (omega (arith, sizes g))).1,
  )

-- The counters that only rise have room for `n` more.
pub record HasRoom (n : ℕ) (st : HttpStatisticsInternal) : Type 0 where
  pub handler_request : st.handle_request_cnt + n < 2 ^ 64
  pub read_timeout : st.read_timeout_cnt + n < 2 ^ 64
  pub read_success : st.read_success_cnt + n < 2 ^ 64
  pub read_fail : st.read_fail_cnt + n < 2 ^ 64
  pub write_timeout : st.write_timeout_cnt + n < 2 ^ 64
  pub write_success : st.write_success_cnt + n < 2 ^ 64
  pub write_fail : st.write_fail_cnt + n < 2 ^ 64

-- A number that is told lies between the counter's values at the start and at the end of the call.
pub record IsBetween (st : HttpStatisticsInternal) (told : HttpStatistics)
    (after : HttpStatisticsInternal) : Type 0 where
  pub handler_request :
      (st.handle_request_cnt ≤ told.handler_request_cnt)
      × (told.handler_request_cnt ≤ after.handle_request_cnt)
  pub read_timeout :
      (st.read_timeout_cnt ≤ told.read_timeout_cnt)
      × (told.read_timeout_cnt ≤ after.read_timeout_cnt)
  pub read_success :
      (st.read_success_cnt ≤ told.read_success_cnt)
      × (told.read_success_cnt ≤ after.read_success_cnt)
  pub read_fail :
      (st.read_fail_cnt ≤ told.read_fail_cnt) × (told.read_fail_cnt ≤ after.read_fail_cnt)
  pub write_timeout :
      (st.write_timeout_cnt ≤ told.write_timeout_cnt)
      × (told.write_timeout_cnt ≤ after.write_timeout_cnt)
  pub write_success :
      (st.write_success_cnt ≤ told.write_success_cnt)
      × (told.write_success_cnt ≤ after.write_success_cnt)
  pub write_fail :
      (st.write_fail_cnt ≤ told.write_fail_cnt) × (told.write_fail_cnt ≤ after.write_fail_cnt)

pub loads-IsBetween :
    (g : Gaps) (st : HttpStatisticsInternal)
    → HasRoom (length (until_session g)) st
    → IsBetween st (loads g st) (count_all (until_session g) st)
unfolding loads
loads-IsBetween g st room = record {
  handler_request =
      omega
        (arith, chain (λ st. st.handle_request_cnt) handle_request-Rises g st room.handler_request);
  read_timeout =
      omega (arith, chain (λ st. st.read_timeout_cnt) read_timeout-Rises g st room.read_timeout);
  read_success =
      omega (arith, chain (λ st. st.read_success_cnt) read_success-Rises g st room.read_success);
  read_fail = omega (arith, chain (λ st. st.read_fail_cnt) read_fail-Rises g st room.read_fail);
  write_timeout =
      omega (arith, chain (λ st. st.write_timeout_cnt) write_timeout-Rises g st room.write_timeout);
  write_success =
      omega (arith, chain (λ st. st.write_success_cnt) write_success-Rises g st room.write_success);
  write_fail = omega (arith, chain (λ st. st.write_fail_cnt) write_fail-Rises g st room.write_fail);
}
