-- ===== src/Session/ThreadTests.antt =====
-- Two requests that are handled at the same time.
use httpserver_cpp.Base.{◌+◌, ◌≡◌, refl, List, [], ◌∷◌, map, none, codes, Bytes, length, ◌≤◌, arith}
use httpserver_cpp.Base.Result.{ok}
use httpserver_cpp.Types.{default_options}
use httpserver_cpp.Statistics.{HttpStatisticsInternal, zero_statistics}
use httpserver_cpp.Statistics.Count.{
  CounterOp, read_success_inc, handle_request_inc, working_handler_inc, working_handler_dec, count,
  count_all,
}
use httpserver_cpp.Statistics.Weave.{Weaves, rested, moves}
use httpserver_cpp.Statistics.Working.{Progress, unstarted, ticks, busy}
use httpserver_cpp.Platform.Sample.{SampleRequest, SampleResponse, sample}
use httpserver_cpp.Session.{HttpSession}
use httpserver_cpp.Session.Jobs.{Job, was_read, counts}
use httpserver_cpp.Session.Threads.{perform_all, perform_all-Weaves, perform_all-working}
use httpserver_cpp.Session.Tests.{runs, handle, router, tree, ask, moment, new_session}

abbrev pub asked_with : Bytes → HttpSession SampleRequest SampleResponse
unfolding runs
asked_with body = record (new_session.session) {
  request = ask 4 (codes "/echo") body;
  pending = [];
}

abbrev pub two_jobs : List (Job SampleRequest SampleResponse)
unfolding runs
two_jobs =
    was_read moment none (asked_with (codes "hi"))
    ∷ was_read moment none (asked_with (codes "ho"))
    ∷ []

abbrev two_threads : List (List CounterOp)
two_threads = map (counts sample handle default_options router) two_jobs

abbrev pub within : List CounterOp
within = working_handler_dec ∷ handle_request_inc ∷ []

abbrev pub one_left : List CounterOp
one_left = working_handler_inc ∷ working_handler_dec ∷ handle_request_inc ∷ []

abbrev both : List CounterOp
both =
    read_success_inc ∷ read_success_inc ∷ working_handler_inc ∷ working_handler_inc
    ∷ working_handler_dec ∷ working_handler_dec ∷ handle_request_inc ∷ handle_request_inc ∷ []

both-Weaves : Weaves two_threads both
unfolding runs counts
both-Weaves = moves [] ((read_success_inc ∷ one_left) ∷ []) read_success_inc one_left refl (
    moves (one_left ∷ []) [] read_success_inc one_left refl (
      moves [] (one_left ∷ []) working_handler_inc within refl (
        moves (within ∷ []) [] working_handler_inc within refl (
          moves [] (within ∷ []) working_handler_dec (handle_request_inc ∷ []) refl (
            moves ((handle_request_inc ∷ []) ∷ []) [] working_handler_dec (handle_request_inc ∷ [])
              refl
              (moves [] ((handle_request_inc ∷ []) ∷ []) handle_request_inc [] refl
                (moves ([] ∷ []) [] handle_request_inc [] refl (rested (refl, (refl, tt))))))))))

perform_all-Weaves_example :
    (sessions : List (HttpSession SampleRequest SampleResponse)) × (perform_all sample handle
        default_options router two_jobs zero_statistics
      ≡ ok (sessions, count_all both zero_statistics))
    × ((other : HttpStatisticsInternal)
        → (t : HttpStatisticsInternal) × (perform_all sample handle default_options router two_jobs
              other
            ≡ ok (sessions, t)))
perform_all-Weaves_example =
    perform_all-Weaves sample handle default_options router two_jobs both zero_statistics tree
      both-Weaves

both_counted :
    ((count_all both zero_statistics).handle_request_cnt ≡ 2)
    × ((count_all both zero_statistics).read_success_cnt ≡ 2)
    × ((count_all both zero_statistics).working_handler_cnt ≡ 0)
unfolding count_all count
both_counted = (refl, refl, refl)

-- Both threads are inside their handlers.
abbrev both_within : List (List CounterOp)
both_within = within ∷ within ∷ []

abbrev entered : List CounterOp
entered = read_success_inc ∷ read_success_inc ∷ working_handler_inc ∷ working_handler_inc ∷ []

both-Progress : Progress two_threads both_within entered
unfolding runs counts
both-Progress = ticks (within ∷ []) [] working_handler_inc within refl (
    ticks [] (one_left ∷ []) working_handler_inc within refl (
      ticks (one_left ∷ []) [] read_success_inc one_left refl
        (ticks [] ((read_success_inc ∷ one_left) ∷ []) read_success_inc one_left refl unstarted)))

perform_all-working_example :
    ((count_all entered zero_statistics).working_handler_cnt ≡ 0 + busy both_within)
    × (busy both_within ≤ length two_jobs)
    × (sessions : List (HttpSession SampleRequest SampleResponse)) × (t : HttpStatisticsInternal)
    × (perform_all sample handle default_options router two_jobs zero_statistics ≡ ok (sessions, t))
    × (t.working_handler_cnt ≡ 0)
unfolding two_jobs
perform_all-working_example =
    perform_all-working sample handle default_options router two_jobs both_within entered
      zero_statistics tree (omega arith) both-Progress
