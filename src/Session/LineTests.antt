-- ===== src/Session/LineTests.antt =====
-- What the sessions of the tests log.
use Prim.Native.String.{String}
use httpserver_cpp.Base.{
  ◌+◌, ◌≡◌, refl, false, List, [], ◌∷◌, ◌++◌, none, some, Bytes, codes, arith,
}
use httpserver_cpp.Base.Result.{ok}
use httpserver_cpp.Types.{default_options}
use httpserver_cpp.Statistics.{HttpStatisticsInternal, zero_statistics}
use httpserver_cpp.Log.{info, set_log_level}
use httpserver_cpp.Log.Tests.{logs, sample_spdlog, sample-LevelLaws, new_log}
use httpserver_cpp.Platform.Sample.{
  SampleRequest, SampleResponse, sample, sample-RequestLaws, sample-FreshLaws,
}
use httpserver_cpp.Session.{HttpSession, timeout, destroy}
use httpserver_cpp.Session.Lifecycle.{Config, Reach, here, next, read_done, started}
use httpserver_cpp.Session.Jobs.{Job, counts, was_read, was_written}
use httpserver_cpp.Session.Threads.{perform_all}
use httpserver_cpp.Session.Lines.{
  Argument, Reports, read_succeeded, handler_not_found, write_timed_out, job_lines, destroy_lines,
}
use httpserver_cpp.Session.Lines.Passing.{log_all}
use httpserver_cpp.Session.Lines.Logged.{jobs_lines, IsLogged, perform_all-IsLogged}
use httpserver_cpp.Session.Lines.Closed.{ending_count, opened, reach_lines, session-Closes}
use httpserver_cpp.Session.Tests.{
  runs, handle, router, tree, ask, moment, new_session, nothing, once,
}

abbrev reports : Reports
reports = record {
  error_message = λ e. codes "broken";
  parse_message = λ t. codes "bad";
  remote = λ id. some (codes "::1", 80);
}

-- Only the format.
abbrev fmt : String → List Argument → Bytes
fmt format args = codes format

-- A request that no handler is for, and a write that times out.
abbrev jobs : List (Job SampleRequest SampleResponse)
unfolding runs
jobs =
    was_read moment none
      (record (new_session.session) { request = ask 4 (codes "/other") []; pending = [] })
    ∷ was_written false (some timeout)
        (record (new_session.session) { is_open = false; pending = [] })
    ∷ []

logged :
    jobs_lines sample handle default_options router reports jobs
    ≡ read_succeeded 1 1 ∷ handler_not_found 1 1 ∷ write_timed_out 1 1 ∷ []
unfolding runs job_lines
logged = refl

perform_all-IsLogged_example :
    (sessions : List (HttpSession SampleRequest SampleResponse)) × (st' : HttpStatisticsInternal)
    × (perform_all sample handle default_options router jobs zero_statistics ≡ ok (sessions, st'))
    × IsLogged sample handle default_options router reports sample_spdlog fmt info jobs
        zero_statistics st' new_log
        (log_all sample_spdlog fmt
          (jobs_lines sample handle default_options router reports jobs)
          (set_log_level sample_spdlog info new_log))
unfolding runs job_lines logs counts
perform_all-IsLogged_example =
    perform_all-IsLogged sample handle default_options router reports sample_spdlog fmt
      sample-LevelLaws info jobs zero_statistics new_log tree (omega arith) (omega arith)
      (omega arith) (omega arith) (omega arith)

-- The first read times out.
abbrev timed_out : Config SampleRequest SampleResponse
unfolding runs
timed_out = record {
  state = record {
    statistics = record (new_session.statistics) { read_timeout_cnt = 1 };
    session = record (new_session.session) { is_open = false; request = nothing; pending = [] };
  };
  owed = false;
}

times_out :
    Reach sample handle default_options router
      (started sample handle default_options router 1 nothing zero_statistics)
      timed_out
unfolding runs
times_out = next here (read_done moment [] (some timeout) nothing _ refl refl)

session-Closes_example :
    (ending_count (reach_lines sample handle default_options router reports times_out)
        + opened timed_out.state.session.is_open
      ≡ 1)
    × (ending_count (
          reach_lines sample handle default_options router reports times_out
          ++ destroy_lines sample handle default_options router reports timed_out.state.session)
        ≡ 1)
    × ((destroy sample timed_out.state).session.is_open ≡ false)
session-Closes_example =
    session-Closes sample handle default_options router reports tree once sample-RequestLaws
      sample-FreshLaws 1 nothing zero_statistics (omega arith) times_out
