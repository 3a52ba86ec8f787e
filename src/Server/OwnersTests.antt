-- ===== src/Server/OwnersTests.antt =====
-- A server that has run, and whose last `HttpServer` is destroyed.
use httpserver_cpp.Base.{ℕ, refl, some, [], none}
use httpserver_cpp.Types.{default_options}
use httpserver_cpp.Platform.Sample.{SampleRequest, SampleResponse, sample, sample_segments}
use httpserver_cpp.Server.{http_server_impl, HttpServerImpl}
use httpserver_cpp.Server.Calls.{run_call, stop_call, call}
use httpserver_cpp.Server.Owners.{
  Owners, made, release, copied, dropped, called, OwnersReach, here, next, ran,
}
use httpserver_cpp.Server.Owners.Held.{Fate, owners-Fate}
use httpserver_cpp.Server.Tests.{serves, handle, quiet}

abbrev ran_once : HttpServerImpl ℕ
ran_once = call sample_segments (run_call quiet) (http_server_impl default_options 0)

abbrev halted : HttpServerImpl ℕ
halted = call sample_segments stop_call ran_once

-- It is copied, run, stopped, and both copies are destroyed.
abbrev left_alone : Owners SampleRequest SampleResponse ℕ
left_alone = record { handles = 0; object = some halted; sessions = [] }

leaves_it : OwnersReach sample handle sample_segments (made default_options 0) left_alone
unfolding serves release
leaves_it =
    next
      (next
        (next (next (next here (copied 0 refl)) (called 1 (run_call quiet) _ refl refl))
          (called 1 stop_call ran_once refl refl))
        (dropped 1 refl))
      (dropped 0 refl)

-- A copy that was never run is destroyed.
destroys_it :
    OwnersReach sample handle sample_segments
      (made default_options 0)
      (record { handles = 0; object = none; sessions = [] })
unfolding serves release
destroys_it = next here (dropped 0 refl)

owners-Fate_example : Fate (ran sample handle sample_segments leaves_it) left_alone
owners-Fate_example = owners-Fate sample handle sample_segments default_options 0 leaves_it
