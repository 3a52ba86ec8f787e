-- ===== src/Server/Snapshot/Credible.antt =====
-- src/http_server_impl.cpp: what `getHttpStatistics` tells while requests are handled.
use httpserver_cpp.Base.{ℕ, ◌+◌, ◌^◌, ◌<◌, ◌≤◌, ◌≡◌, refl, List, [], ◌∷◌, map, All, length, arith}
use httpserver_cpp.Types.{HttpServerOptions, HttpStatistics}
use httpserver_cpp.Statistics.{HttpStatisticsInternal}
use httpserver_cpp.Statistics.Count.{CounterOp, count_all}
use httpserver_cpp.Statistics.Working.{Progress-working}
use httpserver_cpp.Statistics.Advances.{Advances, Advances-split, Advances-Progress}
use httpserver_cpp.Statistics.Serving.{
  IsServing, reads_left, handles_left, read_count-append, handle_count-append, Progress-served,
  handled_counted, read_counted,
}
use httpserver_cpp.Request.{HttpRequest}
use httpserver_cpp.Response.{HttpResponse}
use httpserver_cpp.Router.{Heap}
use httpserver_cpp.Platform.{Platform}
use httpserver_cpp.Session.Jobs.{Job, counts}
use httpserver_cpp.Session.Jobs.Served.{counts-Serves}
use httpserver_cpp.Session.Threads.{jobs-IsNested, jobs_outside, length-jobs}
use httpserver_cpp.Server.Snapshot.{
  Gaps, loads, until_handler_request, until_working_handler, until_read_timeout, until_read_success,
  until_read_fail, until_write_timeout, until_write_success, until_write_fail, until_session,
}
use httpserver_cpp.Server.Snapshot.Between.{sizes, HasRoom, IsBetween, loads-IsBetween}

-- The moment of the second load.
at_second :
    {threads left : List (List CounterOp)} (g : Gaps)
    → Advances threads left (until_session g)
    → (mid : List (List CounterOp)) × Advances threads mid (until_working_handler g)
at_second g a =
    let at_write_fail = Advances-split (until_write_fail g) g.session a in
    let at_write_success = Advances-split (until_write_success g) g.write_fail at_write_fail.1 in
    let at_write_timeout =
      Advances-split (until_write_timeout g) g.write_success at_write_success.1 in
    let at_read_fail = Advances-split (until_read_fail g) g.write_timeout at_write_timeout.1 in
    let at_read_success = Advances-split (until_read_success g) g.read_fail at_read_fail.1 in
    let at_read_timeout = Advances-split (until_read_timeout g) g.read_success at_read_success.1 in
    let at_working_handler =
      Advances-split (until_working_handler g) g.read_timeout at_read_timeout.1 in
    (at_working_handler.0, at_working_handler.1)

-- What `getHttpStatistics` tells, where the counters are `after` at its last load.
pub record IsCredible (n : ℕ) (st : HttpStatisticsInternal) (told : HttpStatistics)
    (after : HttpStatisticsInternal) : Type 0 where
  pub requests : told.handler_request_cnt + told.working_handler_cnt ≤ told.read_success_cnt
  pub handlers : told.working_handler_cnt ≤ st.working_handler_cnt + n
  pub between : IsBetween st told after
  pub sessions : told.session_cnt ≡ after.session_cnt

module _ (P : Platform) {Handler : Type 0} (handle : Handler → HttpRequest → List HttpResponse)
    (opts : HttpServerOptions) (router : Heap Handler) where
  open P use {Request, Response}

  abbrev pub Jobs : Type 0
  Jobs = List (Job Request Response)

  abbrev pub threads : Jobs → List (List CounterOp)
  threads jobs = map (counts P handle opts router) jobs

  jobs-IsServing : (jobs : Jobs) → All IsServing (threads jobs)
  jobs-IsServing [] = tt
  jobs-IsServing (j ∷ jobs) = ((counts-Serves P handle opts router j).0, jobs-IsServing jobs)

  jobs_whole : (jobs : Jobs) → handles_left (threads jobs) ≡ reads_left (threads jobs)
  jobs_whole [] = refl
  jobs_whole (j ∷ jobs) = omega (arith, (counts-Serves P handle opts router j).1, jobs_whole jobs)

  -- Let jobs of several sessions start where no more requests are handled or with a handler than
  -- were read, and let the counters have room. Then, whatever the jobs count before and between the
  -- nine loads of `getHttpStatistics`: it tells no more requests handled or with a handler than
  -- read, and at most one handler more at work for each job; each counter that only rises is told
  -- with a value that it has between the start and the last load; and the count of sessions is that
  -- of the last load.
  pub loads-IsCredible :
      (jobs : Jobs) (left : List (List CounterOp)) (g : Gaps) (st : HttpStatisticsInternal)
      → st.handle_request_cnt + st.working_handler_cnt ≤ st.read_success_cnt
      → HasRoom (length (until_session g)) st
      → st.working_handler_cnt + length jobs < 2 ^ 64
      → Advances (threads jobs) left (until_session g)
      → IsCredible (length jobs) st (loads g st) (count_all (until_session g) st)
  unfolding loads
  loads-IsCredible jobs left g st start room few a =
      let (mid, second) = at_second g a in
      let p = Advances-Progress second in
      let (working, busy_few) =
        Progress-working st (omega (arith, length-jobs P handle opts router jobs))
          (jobs-IsNested P handle opts router jobs) (jobs_outside P handle opts router jobs) p in
      record {
        requests = omega (
          arith,
          working,
          sizes g,
          room.handler_request,
          room.read_success,
          Progress-served (jobs-IsServing jobs) (jobs_whole jobs) p,
          handled_counted (until_handler_request g) st
              (omega (arith, sizes g, room.handler_request)),
          read_counted (until_read_success g) st (omega (arith, sizes g, room.read_success)),
          handle_count-append (until_handler_request g) g.working_handler,
          read_count-append (until_working_handler g) g.read_timeout,
          read_count-append (until_read_timeout g) g.read_success,
        );
        handlers = omega (arith, working, length-jobs P handle opts router jobs);
        between = loads-IsBetween g st room;
        sessions = refl;
      }
