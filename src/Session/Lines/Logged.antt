-- ===== src/Session/Lines/Logged.antt =====
-- src/http_session.cpp and src/http_log.cpp: the lines of the sessions that reach the log.
use Prim.Native.String.{String}
use httpserver_cpp.Base.{
  ◌+◌, ◌<◌, ◌≤◌, ◌^◌, ◌≡◌, ◌∙◌, ap, List, [], ◌∷◌, ◌++◌, map, length, Bytes, arith,
}
use httpserver_cpp.Base.Result.{ok}
use httpserver_cpp.Types.{HttpServerOptions}
use httpserver_cpp.Statistics.Count.{CounterOp, count_all}
use httpserver_cpp.Statistics.Working.{enter_count}
use httpserver_cpp.Statistics.Serving.{handle_count, handle_count-append, handled_counted}
use httpserver_cpp.Statistics.Weave.{concat, in_order-concat}
use httpserver_cpp.Statistics.{HttpStatisticsInternal}
use httpserver_cpp.Router.Shape.{IsTree}
use httpserver_cpp.Session.{HttpSession}
use httpserver_cpp.Session.Threads.{perform_all, perform_all-in_order}
use httpserver_cpp.Request.{HttpRequest}
use httpserver_cpp.Response.{HttpResponse}
use httpserver_cpp.Router.{Heap}
use httpserver_cpp.Log.{LogLevel, level_value, Spdlog, Log, set_log_level}
use httpserver_cpp.Log.Level.{LevelLaws}
use httpserver_cpp.Platform.{Platform}
use httpserver_cpp.Session.Lines.{Line, Argument, Reports, job_lines}
use httpserver_cpp.Session.Jobs.{Job, counts}
use httpserver_cpp.Session.Jobs.Errors.{error_count, failure_count, failures_counted, job-Tallies}
use httpserver_cpp.Session.Lines.Passing.{
  passing, rendered, log_all, log_all_written, passing_errors,
}

-- The lines of several threads, one after the other.
abbrev pub all_lines : List (List Line) → List Line
all_lines [] = []
all_lines (l ∷ ls) = l ++ all_lines ls

error_count-append : (ks ls : List Line) → error_count (ks ++ ls) ≡ error_count ks + error_count ls
error_count-append [] ls = omega arith
error_count-append (k ∷ ks) ls = omega (arith, error_count-append ks ls)

enter_count-append :
    (os ps : List CounterOp) → enter_count (os ++ ps) ≡ enter_count os + enter_count ps
enter_count-append [] ps = omega arith
enter_count-append (o ∷ os) ps = omega (arith, enter_count-append os ps)

failure_count-append :
    (os ps : List CounterOp) → failure_count (os ++ ps) ≡ failure_count os + failure_count ps
failure_count-append [] ps = omega arith
failure_count-append (o ∷ os) ps = omega (arith, failure_count-append os ps)

module _ (P : Platform) {Handler : Type 0} (handle : Handler → HttpRequest → List HttpResponse)
    (opts : HttpServerOptions) (router : Heap Handler) (R : Reports) where
  open P use {Request, Response}

  abbrev Jobs : Type 0
  Jobs = List (Job Request Response)

  abbrev pub jobs_lines : Jobs → List Line
  jobs_lines jobs = all_lines (map (job_lines P handle opts router R) jobs)

  abbrev pub jobs_counts : Jobs → List CounterOp
  jobs_counts jobs = concat (map (counts P handle opts router) jobs)

  jobs_tally :
      (jobs : Jobs)
      → IsTree router
      → error_count (jobs_lines jobs) + enter_count (jobs_counts jobs)
        ≡ handle_count (jobs_counts jobs) + failure_count (jobs_counts jobs)
  jobs_tally [] tree = omega arith
  jobs_tally (j ∷ jobs) tree =
      let os = counts P handle opts router j in
      omega (
        arith,
        job-Tallies P handle opts router R tree j,
        jobs_tally jobs tree,
        error_count-append (job_lines P handle opts router R j) (jobs_lines jobs),
        enter_count-append os (jobs_counts jobs),
        handle_count-append os (jobs_counts jobs),
        failure_count-append os (jobs_counts jobs),
      )

  -- What the log holds after the jobs, with `n` lines more, and what they have counted.
  pub record IsLogged (L : Spdlog) (fmt : String → List Argument → Bytes) (set : LogLevel)
      (jobs : Jobs) (st st' : HttpStatisticsInternal) (before after : Log L.Logger) : Type 0 where
    pub written :
        L.output after.logger
        ≡ L.output before.logger ++ map (rendered L fmt) (passing set (jobs_lines jobs))
    pub tallied :
        length (passing set (jobs_lines jobs))
          + enter_count (jobs_counts jobs)
          + (st.handle_request_cnt + st.write_timeout_cnt + st.write_fail_cnt)
        ≡ st'.handle_request_cnt + st'.write_timeout_cnt + st'.write_fail_cnt

  -- Let the router be a tree, the log level be set between `Debug` and `Err`, and the counters have
  -- room. Then jobs of several sessions, one after the other, return, and their macros write to the
  -- log just their lines at that level or above, in order, each once. There are as many of them as
  -- requests were handled without a handler that was called, and as writes timed out or failed.
  pub perform_all-IsLogged :
      (L : Spdlog) (fmt : String → List Argument → Bytes) (laws : LevelLaws L) (set : LogLevel)
      (jobs : Jobs) (st : HttpStatisticsInternal) (log : Log L.Logger)
      → IsTree router
      → 0 < level_value set
      → level_value set ≤ 4
      → st.handle_request_cnt + length (jobs_counts jobs) < 2 ^ 64
      → st.write_timeout_cnt + length (jobs_counts jobs) < 2 ^ 64
      → st.write_fail_cnt + length (jobs_counts jobs) < 2 ^ 64
      → (sessions : List (HttpSession Request Response)) × (st' : HttpStatisticsInternal)
        × (perform_all P handle opts router jobs st ≡ ok (sessions, st'))
        × IsLogged L fmt set jobs st st' log
            (log_all L fmt (jobs_lines jobs) (set_log_level L set log))
  unfolding set_log_level
  perform_all-IsLogged L fmt laws set jobs st log tree above below room more_room most_room =
      let os = jobs_counts jobs in
      let (sessions, runs) = perform_all-in_order P handle opts router jobs tree in
      (
        sessions,
        count_all os st,
        runs st ∙ ap (λ t. ok (sessions, t)) (in_order-concat _ st),
        record {
          written =
              log_all_written L fmt laws set (jobs_lines jobs) (set_log_level L set log)
                (laws.get-set (level_value set) log.logger)
              ∙ ap (λ o. o ++ map (rendered L fmt) (passing set (jobs_lines jobs)))
                  (laws.output-set (level_value set) log.logger);
          tallied = omega (
            arith,
            jobs_tally jobs tree,
            passing_errors set above below (jobs_lines jobs),
            handled_counted os st room,
            failures_counted os st more_room most_room,
          );
        },
      )
