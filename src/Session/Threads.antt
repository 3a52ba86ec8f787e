-- ===== src/Session/Threads.antt =====
-- src/http_session.cpp: the threads of the context at work on the handlers of several sessions.
use httpserver_cpp.Base.{
  ◌+◌, ◌^◌, ◌<◌, ◌≤◌, ◌≡◌, refl, sym, ◌∙◌, ap, List, [], ◌∷◌, map, All, length, arith,
}
use httpserver_cpp.Base.Result.{Result, ok, ◌>>=◌}
use httpserver_cpp.Types.{HttpServerOptions}
use httpserver_cpp.Statistics.{HttpStatisticsInternal}
use httpserver_cpp.Statistics.Count.{CounterOp, count_all}
use httpserver_cpp.Statistics.Weave.{Weaves, in_order, Weaves-in_order}
use httpserver_cpp.Statistics.Working.{
  Progress, IsNested, inside, busy, Progress-working, alone_working,
}
use httpserver_cpp.Request.{HttpRequest}
use httpserver_cpp.Response.{HttpResponse}
use httpserver_cpp.Router.{Heap}
use httpserver_cpp.Router.Shape.{IsTree}
use httpserver_cpp.Platform.{Platform}
use httpserver_cpp.Session.{HttpSession}
use httpserver_cpp.Session.Jobs.Orderly.{counts-IsOrderly}
use httpserver_cpp.Session.Jobs.Counting.{perform-Counting}
use httpserver_cpp.Session.Jobs.{Job, perform, counts}

module _ (P : Platform) {Handler : Type 0} (handle : Handler → HttpRequest → List HttpResponse)
    (opts : HttpServerOptions) (router : Heap Handler) where
  open P use {Request, Response, verb, verb_put, UrlView, parse_origin_form, url_segments}

  abbrev Jobs : Type 0
  Jobs = List (Job Request Response)

  abbrev job_counts : Job Request Response → List CounterOp
  job_counts = counts P handle opts router

  -- The jobs, one after the other, on the counters that they share.
  unfoldable pub perform_all :
      Jobs
      → HttpStatisticsInternal
      → Result (List (HttpSession Request Response) × HttpStatisticsInternal)
  perform_all [] st = ok ([], st)
  perform_all (j ∷ jobs) st = do
    s ← perform P handle opts router j st
    (sessions, st') ← perform_all jobs s.statistics
    ok (s.session ∷ sessions, st')

  pub perform_all-in_order :
      (jobs : Jobs)
      → IsTree router
      → (sessions : List (HttpSession Request Response)) × ((st : HttpStatisticsInternal)
          → perform_all jobs st ≡ ok (sessions, in_order (map job_counts jobs) st))
  unfolding perform_all in_order
  perform_all-in_order [] tree = ([], λ st. refl)
  perform_all-in_order (j ∷ jobs) tree =
      let (s, step) = perform-Counting P handle opts router j tree in
      let (sessions, rest) = perform_all-in_order jobs tree in
      (s ∷ sessions, λ st. rw (step st) (rw (rest (count_all (job_counts j) st)) refl))

  -- Let the router be a tree. Jobs of different sessions that run one after the other leave sessions
  -- that do not depend on the counters, and the statistics that any interleaving of the operations
  -- of the jobs on the counters gives, where each job makes its operations in its order.
  pub perform_all-Weaves :
      (jobs : Jobs) (ops : List CounterOp) (st : HttpStatisticsInternal)
      → IsTree router
      → Weaves (map job_counts jobs) ops
      → (sessions : List (HttpSession Request Response)) × (perform_all jobs st
          ≡ ok (sessions, count_all ops st))
        × ((other : HttpStatisticsInternal)
            → (t : HttpStatisticsInternal) × (perform_all jobs other ≡ ok (sessions, t)))
  perform_all-Weaves jobs ops st tree w =
      let (sessions, runs) = perform_all-in_order jobs tree in
      (
        sessions,
        runs st ∙ ap (λ t. ok (sessions, t)) (sym (Weaves-in_order st w)),
        λ other. (in_order (map job_counts jobs) other, runs other),
      )

  pub jobs-IsNested : (jobs : Jobs) → All IsNested (map job_counts jobs)
  jobs-IsNested [] = tt
  jobs-IsNested (j ∷ jobs) = ((counts-IsOrderly P handle opts router j).0, jobs-IsNested jobs)

  pub jobs_outside : (jobs : Jobs) → All (λ l. inside l ≡ 0) (map job_counts jobs)
  jobs_outside [] = tt
  jobs_outside (j ∷ jobs) = ((counts-IsOrderly P handle opts router j).1, jobs_outside jobs)

  pub length-jobs : (jobs : Jobs) → length (map job_counts jobs) ≡ length jobs
  length-jobs [] = refl
  length-jobs (j ∷ jobs) = omega (arith, length-jobs jobs)

  in_order-working :
      (jobs : Jobs) (st : HttpStatisticsInternal)
      → st.working_handler_cnt + length jobs < 2 ^ 64
      → (in_order (map job_counts jobs) st).working_handler_cnt ≡ st.working_handler_cnt
  unfolding in_order
  in_order-working [] st fits = refl
  in_order-working (j ∷ jobs) st fits =
      let (nested, outside) = counts-IsOrderly P handle opts router j in
      let same = alone_working (job_counts j) st (omega arith) nested outside in
      in_order-working jobs (count_all (job_counts j) st) (omega (arith, same)) ∙ same

  -- Let the router be a tree, and let the jobs be few enough that one handler for each does not make
  -- the count of working handlers wrap. Then the jobs, one after the other, leave this count as it
  -- was; and at every moment of any interleaving of their operations on the counters it is what it
  -- was and the number of jobs that are inside a handler, at most one each.
  pub perform_all-working :
      (jobs : Jobs) (left : List (List CounterOp)) (ops : List CounterOp)
      (st : HttpStatisticsInternal)
      → IsTree router
      → st.working_handler_cnt + length jobs < 2 ^ 64
      → Progress (map job_counts jobs) left ops
      → ((count_all ops st).working_handler_cnt ≡ st.working_handler_cnt + busy left)
        × (busy left ≤ length jobs)
        × (sessions : List (HttpSession Request Response)) × (t : HttpStatisticsInternal)
        × (perform_all jobs st ≡ ok (sessions, t))
        × (t.working_handler_cnt ≡ st.working_handler_cnt)
  perform_all-working jobs left ops st tree fits p =
      let (counted, bound) =
        Progress-working st (omega (arith, length-jobs jobs)) (jobs-IsNested jobs)
          (jobs_outside jobs) p in
      let (sessions, runs) = perform_all-in_order jobs tree in
      (
        counted,
        omega (arith, length-jobs jobs),
        sessions,
        in_order (map job_counts jobs) st,
        runs st,
        in_order-working jobs st fits,
      )
