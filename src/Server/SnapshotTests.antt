-- ===== src/Server/SnapshotTests.antt =====
-- Statistics that are told while two requests are handled.
use httpserver_cpp.Base.{◌≡◌, refl, List, [], ◌∷◌, arith}
use httpserver_cpp.Types.{default_options}
use httpserver_cpp.Statistics.{zero_statistics}
use httpserver_cpp.Statistics.Count.{
  CounterOp, read_success_inc, handle_request_inc, working_handler_inc, working_handler_dec, count,
  count_all,
}
use httpserver_cpp.Statistics.Advances.{Advances, rests, moves}
use httpserver_cpp.Platform.Sample.{sample}
use httpserver_cpp.Session.Jobs.{counts}
use httpserver_cpp.Session.Tests.{runs, handle, router}
use httpserver_cpp.Session.ThreadTests.{two_jobs, within, one_left}
use httpserver_cpp.Server.Snapshot.{Gaps, loads, until_session}
use httpserver_cpp.Server.Snapshot.Credible.{threads, IsCredible, loads-IsCredible}

-- Both requests are with their handlers at the first load; one handler returns before the second,
-- the other before the third, and one request is handled then.
abbrev gaps : Gaps
gaps = record {
  handler_request =
      read_success_inc ∷ read_success_inc ∷ working_handler_inc ∷ working_handler_inc ∷ [];
  working_handler = working_handler_dec ∷ [];
  read_timeout = working_handler_dec ∷ handle_request_inc ∷ [];
  read_success = [];
  read_fail = [];
  write_timeout = [];
  write_success = [];
  write_fail = [];
  session = [];
}

told :
    ((loads gaps zero_statistics).handler_request_cnt ≡ 0)
    × ((loads gaps zero_statistics).working_handler_cnt ≡ 1)
    × ((loads gaps zero_statistics).read_success_cnt ≡ 2)
unfolding loads count_all count
told = (refl, refl, refl)

abbrev left : List (List CounterOp)
left = (handle_request_inc ∷ []) ∷ [] ∷ []

gaps-Advances :
    Advances (threads sample handle default_options router two_jobs) left (until_session gaps)
unfolding runs counts
gaps-Advances = moves [] ((read_success_inc ∷ one_left) ∷ []) read_success_inc one_left refl (
    moves (one_left ∷ []) [] read_success_inc one_left refl (
      moves [] (one_left ∷ []) working_handler_inc within refl (
        moves (within ∷ []) [] working_handler_inc within refl (
          moves [] (within ∷ []) working_handler_dec (handle_request_inc ∷ []) refl (
            moves ((handle_request_inc ∷ []) ∷ []) [] working_handler_dec (handle_request_inc ∷ [])
              refl
              (moves ((handle_request_inc ∷ []) ∷ []) [] handle_request_inc [] refl
                (rests refl)))))))

loads-IsCredible_example :
    IsCredible 2 zero_statistics
      (loads gaps zero_statistics)
      (count_all (until_session gaps) zero_statistics)
unfolding runs
loads-IsCredible_example =
    loads-IsCredible sample handle default_options router two_jobs left gaps zero_statistics
      (omega arith) (omega arith) (omega arith) gaps-Advances
