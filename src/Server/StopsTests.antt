-- ===== src/Server/StopsTests.antt =====
-- Calls of `stop` on a server with a pool of two threads.
use httpserver_cpp.Base.{ℕ, refl, Bool, true, false, List, [], ◌∷◌, some}
use httpserver_cpp.Types.{HttpServerOptions, default_options}
use httpserver_cpp.Platform.Sample.{sample_segments}
use httpserver_cpp.Server.{HttpServerImpl, http_server_impl}
use httpserver_cpp.Server.Calls.{run_call, all_calls}
use httpserver_cpp.Server.Stops.{
  Worker, working, Point, ended, joined, entered, found_running, joining, at_acceptor, found_open,
  returned, thrown, StopCall, act, join, test_joinable, at_pool, waiting, Stops, advances, ends,
  calls_outside, calls_inside, StopsReach, begin, later, uncalled,
}
use httpserver_cpp.Server.Stops.Safe.{shares}
use httpserver_cpp.Server.Stops.Overlap.{outside, Overlaps, stops-Overlaps}
use httpserver_cpp.Server.Tests.{serves, quiet}

abbrev three_threads : HttpServerOptions
three_threads = record default_options { thread_num = 3 }

abbrev started : HttpServerImpl ℕ
started = all_calls sample_segments (run_call quiet ∷ []) (http_server_impl three_threads 0)

abbrev busy : List Worker
busy = working ∷ working ∷ []

-- A second call has passed the test of the context, which is stopped.
abbrev stands : List Worker → Bool → Point → Stops
stands ws o p = record { shared = shares true o ws; calls = outside at_acceptor ∷ outside p ∷ [] }

-- A call finds the context running, and stops it; then a second call is made.
begins : StopsReach (uncalled started) (stands busy true (waiting 0 2))
unfolding serves act test_joinable
begins =
    let stopped =
      later
        (later (later begin calls_outside)
          (advances [] [] (outside entered) found_running (shares false true busy) refl refl))
        (advances [] [] (outside found_running) at_pool (shares true true busy) refl refl) in
    let in_join =
      later
        (later stopped
          (advances [] [] (outside at_pool) (joining 0 2) (shares true true busy) refl refl))
        (advances [] [] (outside (joining 0 2)) (waiting 0 2) (shares true true busy) refl refl) in
    later (later in_join calls_outside) (
      advances [] (outside (waiting 0 2) ∷ []) (outside entered) at_acceptor (shares true true busy)
        refl refl)

abbrev second : List StopCall
second = outside at_acceptor ∷ []

-- Both threads end, the second one first, and are joined.
finish :
    {t : Stops}
    → StopsReach t (stands busy true (waiting 0 2))
    → StopsReach t (stands [] false returned)
unfolding act join test_joinable
finish r =
    let both_end =
      later (later r (ends 1 refl refl ((λ own. cc), ((λ own. cc), tt))))
        (ends 0 refl refl ((λ own. cc), ((λ own. cc), tt))) in
    let first_joined = later both_end (
      advances second [] (outside (waiting 0 2)) (joining 1 2)
        (shares true true (joined ∷ ended ∷ [])) refl refl) in
    let in_second = later first_joined (
      advances second [] (outside (joining 1 2)) (waiting 1 2)
        (shares true true (joined ∷ ended ∷ [])) refl refl) in
    let both_joined = later in_second (
      advances second [] (outside (waiting 1 2)) (joining 2 2)
        (shares true true (joined ∷ joined ∷ [])) refl refl) in
    let cleared =
      later both_joined
        (advances second [] (outside (joining 2 2)) at_acceptor (shares true true []) refl refl) in
    later
      (later cleared
        (advances second [] (outside at_acceptor) found_open (shares true true []) refl refl))
      (advances second [] (outside found_open) returned (shares true false []) refl refl)

abbrev inside : Point → StopCall
inside p = record { point = p; self = some 0 }

-- A handler that a thread of the pool runs calls `stop`: the thread is to join itself, and `stop`
-- throws, with the acceptor open.
stop_in_pool :
    StopsReach
      (uncalled started)
      (record { shared = shares true true busy; calls = inside thrown ∷ [] })
unfolding serves act join test_joinable
stop_in_pool =
    let at_loop =
      later
        (later (later begin (calls_inside 0 refl tt))
          (advances [] [] (inside entered) found_running (shares false true busy) refl refl))
        (advances [] [] (inside found_running) at_pool (shares true true busy) refl refl) in
    later
      (later
        (later at_loop
          (advances [] [] (inside at_pool) (joining 0 2) (shares true true busy) refl refl))
        (advances [] [] (inside (joining 0 2)) (waiting 0 2) (shares true true busy) refl refl))
      (advances [] [] (inside (waiting 0 2)) thrown (shares true true busy) refl refl)

stops-Overlaps_example : Overlaps started
unfolding serves
stops-Overlaps_example = stops-Overlaps started 1 refl refl
