-- ===== src/Server/Tests.antt =====
-- A run of the server, and the theorems on it at concrete inputs.
use httpserver_cpp.Base.{
  ℕ, suc, ◌<◌, ◌^◌, ◌≡◌, refl, true, false, List, [], ◌∷◌, none, some, codes, arith, bytes_discrete,
  ℕ_discrete,
}
use httpserver_cpp.Base.Dict.{find, assign}
use httpserver_cpp.Base.Result.{Exception}
use httpserver_cpp.Types.{default_options, ok_status}
use httpserver_cpp.Request.{HttpRequest}
use httpserver_cpp.Response.{HttpResponse, http_response}
use httpserver_cpp.Router.{
  empty, attach, insert_from, set_data, insert_segments, insert, starts_with_slash, has_dots,
}
use httpserver_cpp.Platform.Sample.{
  SampleRequest, SampleResponse, sample, sample_segments, sample-RequestLaws, sample-FreshLaws,
}
use httpserver_cpp.Session.{do_read, do_close, destroy, http_session, run as run_session}
use httpserver_cpp.Server.{
  HttpServerImpl, Network, Live, World, http_server_impl, reset_all_http_statistics,
  get_http_statistics, do_accept, start, listen, run, stop, register_handler, on_accept,
}
use httpserver_cpp.Server.Calls.{Call, run_call, stop_call, register_call, call, all_calls}
use httpserver_cpp.Server.Control.{IsValid, IsClear, RunOutcome, run-Outcome}
use httpserver_cpp.Server.Restart.{IsListening, runs_succeeded, restarts}
use httpserver_cpp.Server.Running.{dropped_count, config, WorldReach, at_start, then, accept_done}
use httpserver_cpp.Server.Drains.{server-drains}
use httpserver_cpp.Server.Numbers.{
  accept_count, other_count, IsNumbered, server-IsNumbered, ids, server_repeats,
}
use httpserver_cpp.Server.Ranges.{IsTyped, server-IsTyped}
use httpserver_cpp.Server.Told.{IsTold, server-IsTold, restart_miscounts}

unfoldable pub serves : Unit {0}
unfolding find assign empty attach insert_from set_data insert_segments insert starts_with_slash
    has_dots sample_segments bytes_discrete ℕ_discrete do_read do_close destroy http_session
    run_session http_server_impl reset_all_http_statistics get_http_statistics do_accept start
    listen run stop register_handler on_accept call all_calls runs_succeeded http_response
serves = tt

abbrev pub handle : ℕ → HttpRequest → List HttpResponse
handle h r = http_response ok_status r.body (codes "text/plain") ∷ []

abbrev pub quiet : Network
quiet = record {
  makes_address = λ _. true;
  open_error = none;
  reuse_error = none;
  linger_error = none;
  bind_error = none;
  listen_error = none;
}

abbrev taken : Network
taken = record quiet { bind_error = some "Address already in use" }

abbrev pub set_up : List (Call ℕ)
set_up = register_call (codes "/a") (some 1) ∷ run_call taken ∷ stop_call ∷ []

abbrev stopped : HttpServerImpl ℕ
unfolding serves
stopped = all_calls sample_segments set_up (http_server_impl default_options 9)

abbrev pub listening : HttpServerImpl ℕ
unfolding serves
listening = (run quiet stopped).0

default-IsValid : IsValid default_options
default-IsValid = record { threads = λ e. omega arith; size = λ e. omega arith; address = λ e. cc }

quiet-IsClear : IsClear quiet default_options
quiet-IsClear = record { makes = refl; opens = refl; quiet = refl }

restarts_example :
    (t : HttpServerImpl ℕ) × (run quiet
        (stop (all_calls sample_segments set_up (http_server_impl default_options 9)))
      ≡ (t, none))
    × IsListening default_options t
    × (t.accepts ≡ suc (runs_succeeded sample_segments set_up (http_server_impl default_options 9)))
    × ((again : Network) → (e : Exception) × ((run again t).1 ≡ some e))
restarts_example =
    restarts sample_segments set_up default_options 9 quiet default-IsValid quiet-IsClear

run-Outcome_example : RunOutcome taken stopped (run taken stopped)
run-Outcome_example = run-Outcome taken stopped

abbrev pub nothing : SampleRequest
nothing = record {
  verb = 0;
  target = [];
  fields = [];
  accept_encoding = [];
  alive = true;
  body = [];
}

abbrev pub one_session : World SampleRequest SampleResponse ℕ
unfolding serves
one_session =
    on_accept sample none nothing
      (record { server = record listening { accepts = 0 }; sessions = [] })

pub accepts_one :
    WorldReach sample handle (record { server = listening; sessions = [] }) one_session
unfolding serves
accepts_one = then at_start (accept_done 0 none nothing refl refl)

pub runs_again :
    run quiet (all_calls sample_segments set_up (http_server_impl default_options 9))
    ≡ (listening, none)
unfolding serves
runs_again = refl

server-IsTold_example : IsTold sample handle (dropped_count sample handle accepts_one) one_session
server-IsTold_example =
    server-IsTold sample handle sample_segments set_up default_options 9 quiet listening
      sample-RequestLaws sample-FreshLaws (λ h r. omega arith) runs_again accepts_one

abbrev left_over : Live SampleRequest SampleResponse
unfolding serves
left_over = record {
  session = (http_session sample 1 nothing (listening.http_statistics)).session;
  owed = false;
}

restart_succeeds :
    run quiet (stop one_session.server) ≡ ((run quiet (stop one_session.server)).0, none)
unfolding serves
restart_succeeds = refl

restart_miscounts_example :
    ((get_http_statistics (run quiet (stop one_session.server)).0).session_cnt ≡ 0)
    × ((destroy sample
          (config sample handle
            (run quiet (stop one_session.server)).0.http_statistics
            left_over).state).statistics.session_cnt
        ≡ 4294967295)
restart_miscounts_example =
    restart_miscounts sample handle one_session.server quiet (run quiet (stop one_session.server)).0
      left_over restart_succeeds

server-IsNumbered_example :
    IsNumbered sample handle (accept_count sample handle accepts_one) one_session
unfolding accept_count other_count accepts_one
server-IsNumbered_example =
    server-IsNumbered sample handle sample-RequestLaws sample-FreshLaws (λ h r. omega arith)
      sample_segments set_up default_options 9 quiet listening runs_again accepts_one (omega arith)
      refl

server-drains_example :
    (w : World SampleRequest SampleResponse ℕ) × WorldReach sample handle one_session w
    × (w.sessions ≡ [])
    × ((get_http_statistics w.server).session_cnt ≡ 0)
unfolding serves
server-drains_example =
    server-drains sample handle sample_segments set_up default_options 9 quiet listening
      sample-RequestLaws sample-FreshLaws (λ h r. omega arith) runs_again accepts_one refl

server-IsTyped_example :
    IsTyped sample handle (get_http_statistics one_session.server)
    × (one_session.server.s_id < 2 ^ 64)
server-IsTyped_example =
    server-IsTyped sample handle sample_segments set_up default_options 9 quiet listening runs_again
      accepts_one

server_repeats_example :
    (w : World SampleRequest SampleResponse ℕ) × WorldReach sample handle
      (record { server = listening; sessions = [] })
      w
    × (ids sample handle w.sessions ≡ 1 ∷ 1 ∷ [])
server_repeats_example =
    server_repeats sample handle
      (all_calls sample_segments set_up (http_server_impl default_options 9)) quiet listening
      nothing runs_again
