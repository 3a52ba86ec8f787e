-- ===== src/Server/Snapshot.antt =====
-- src/http_server_impl.cpp: `getHttpStatistics` while other threads count.
pub mod Between
pub mod Credible
use httpserver_cpp.Base.{
  ℕ, ◌+◌, ◌^◌, ◌<◌, ◌≤◌, ◌≡◌, refl, List, [], ◌∷◌, ◌++◌, map, All, length, length-append, arith,
}
use httpserver_cpp.Types.{HttpServerOptions, HttpStatistics}
use httpserver_cpp.Statistics.{HttpStatisticsInternal}
use httpserver_cpp.Statistics.Count.{CounterOp, count_all}
use httpserver_cpp.Statistics.Working.{Progress-working}
use httpserver_cpp.Statistics.Advances.{Advances, Advances-split, Advances-Progress}
use httpserver_cpp.Statistics.Rising.{
  Rises, read_between, read_timeout-Rises, read_success-Rises, read_fail-Rises, write_timeout-Rises,
  write_success-Rises, write_fail-Rises, handle_request-Rises,
}
use httpserver_cpp.Statistics.Serving.{
  IsServing, reads_left, handles_left, read_count-append, handle_count-append, Progress-served,
  handled_counted, read_counted,
}
use httpserver_cpp.Request.{HttpRequest}
use httpserver_cpp.Response.{HttpResponse}
use httpserver_cpp.Router.{Heap}
use httpserver_cpp.Platform.{Platform}
use httpserver_cpp.Session.Jobs.{Job, counts}
use httpserver_cpp.Session.Jobs.Served.{counts-Serves}
use httpserver_cpp.Session.Threads.{jobs-IsNested, jobs_outside, length-jobs}
use httpserver_cpp.Server.{HttpServerImpl, get_http_statistics}

-- What the other threads count before each of the nine loads, in the order of the loads.
pub record Gaps : Type 0 where
  pub handler_request : List CounterOp
  pub working_handler : List CounterOp
  pub read_timeout : List CounterOp
  pub read_success : List CounterOp
  pub read_fail : List CounterOp
  pub write_timeout : List CounterOp
  pub write_success : List CounterOp
  pub write_fail : List CounterOp
  pub session : List CounterOp

-- All that is counted until a load.
abbrev pub until_handler_request : Gaps → List CounterOp
until_handler_request g = g.handler_request

abbrev pub until_working_handler : Gaps → List CounterOp
until_working_handler g = until_handler_request g ++ g.working_handler

abbrev pub until_read_timeout : Gaps → List CounterOp
until_read_timeout g = until_working_handler g ++ g.read_timeout

abbrev pub until_read_success : Gaps → List CounterOp
until_read_success g = until_read_timeout g ++ g.read_success

abbrev pub until_read_fail : Gaps → List CounterOp
until_read_fail g = until_read_success g ++ g.read_fail

abbrev pub until_write_timeout : Gaps → List CounterOp
until_write_timeout g = until_read_fail g ++ g.write_timeout

abbrev pub until_write_success : Gaps → List CounterOp
until_write_success g = until_write_timeout g ++ g.write_success

abbrev pub until_write_fail : Gaps → List CounterOp
until_write_fail g = until_write_success g ++ g.write_fail

abbrev pub until_session : Gaps → List CounterOp
until_session g = until_write_fail g ++ g.session

-- What the call returns.
unfoldable pub loads : Gaps → HttpStatisticsInternal → HttpStatistics
loads g st = record {
  handler_request_cnt = (count_all (until_handler_request g) st).handle_request_cnt;
  working_handler_cnt = (count_all (until_working_handler g) st).working_handler_cnt;
  read_timeout_cnt = (count_all (until_read_timeout g) st).read_timeout_cnt;
  read_success_cnt = (count_all (until_read_success g) st).read_success_cnt;
  read_fail_cnt = (count_all (until_read_fail g) st).read_fail_cnt;
  write_timeout_cnt = (count_all (until_write_timeout g) st).write_timeout_cnt;
  write_success_cnt = (count_all (until_write_success g) st).write_success_cnt;
  write_fail_cnt = (count_all (until_write_fail g) st).write_fail_cnt;
  session_cnt = (count_all (until_session g) st).session_cnt;
}

abbrev no_gaps : Gaps
no_gaps = record {
  handler_request = [];
  working_handler = [];
  read_timeout = [];
  read_success = [];
  read_fail = [];
  write_timeout = [];
  write_success = [];
  write_fail = [];
  session = [];
}

-- With nothing in between, the loads read one state of the counters.
pub loads-no_gaps :
    {Handler : Type 0} (s : HttpServerImpl Handler)
    → loads no_gaps s.http_statistics ≡ get_http_statistics s
unfolding loads get_http_statistics count_all
loads-no_gaps s = refl
