-- ===== src/Server/RoutedTests.antt =====
-- A request to the server of the tests.
use httpserver_cpp.Base.{◌≡◌, refl, false, [], ◌∷◌, codes}
use httpserver_cpp.Types.{default_options}
use httpserver_cpp.Platform.Sample.{SampleRequest, SampleResponse, sample, sample-RequestLaws}
use httpserver_cpp.Session.{State, reading, http_session, run}
use httpserver_cpp.Session.Process.{Moment}
use httpserver_cpp.Server.{Live}
use httpserver_cpp.Server.Routed.{was_read, Handles, server-Handles}
use httpserver_cpp.Server.Tests.{
  serves, handle, nothing, quiet, set_up, listening, one_session, accepts_one, runs_again,
}

abbrev the_session : Live SampleRequest SampleResponse
unfolding serves
the_session = record {
  session =
      (run sample listening.opts (http_session sample 1 nothing listening.http_statistics)).session;
  owed = false;
}

only_session : one_session.sessions ≡ the_session ∷ []
unfolding serves
only_session = refl

it_reads : the_session.session.pending ≡ reading ∷ []
unfolding serves
it_reads = refl

awake : one_session.server.stopped ≡ false
unfolding serves
awake = refl

-- A `POST` to the one path that is registered.
abbrev asked : SampleRequest
asked = record nothing { verb = 4; target = codes "/a"; body = codes "hi" }

abbrev moment : Moment
moment = record { garbage = 3; now = 4 }

server-Handles_example :
    (one_session.server.opts ≡ default_options)
    × (s : State SampleRequest SampleResponse) × Handles sample handle set_up sample-RequestLaws
        one_session [] []
        (was_read sample handle one_session the_session asked [])
        moment
        s
server-Handles_example =
    server-Handles sample handle set_up default_options 9 quiet listening sample-RequestLaws
      runs_again accepts_one [] [] the_session [] moment asked only_session it_reads awake
