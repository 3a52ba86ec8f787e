-- ===== src/Server/Stops/Ending.antt =====
-- src/http_server_impl.cpp: calls of `stop` from outside of the pool come to their end.
use httpserver_cpp.Base.{ℕ, ◌+◌, ◌≤◌, ◌<◌, ◌≡◌, ◌≢◌, ◌⊎◌, true, false, List, ◌∷◌, ◌++◌, All}
use httpserver_cpp.Server.Stops.{
  returned, StopCall, Stops, StopsStep, StopsReach, tally, has_returned,
}
use httpserver_cpp.Server.Stops.Effort.{effort}
use httpserver_cpp.Server.Stops.Nearer.{Nearer}
use httpserver_cpp.Server.Stops.Bounded.{is_new, step_count, HasReturned}

-- The first call that has not returned.
abbrev Pending : List StopCall → Type 0
Pending cs =
    (before : List StopCall) × (after : List StopCall) × (c : StopCall) × (cs ≡ before ++ c ∷ after)
    × (c.point ≢ returned)

abbrev pub GoesOn : Stops → Type 0
GoesOn u = All HasReturned u.calls ⊎ ((v : Stops) × (st : StopsStep u v) × (is_new st ≡ 0))

-- What follows from a run of calls, with `n` threads in the pool at first.
pub record Ends (n : ℕ) {u v : Stops} (q : StopsReach u v) : Type 0 where
  -- The steps are bounded by the effort, and what is left of it.
  pub bounded : step_count q + effort n v ≤ effort n u
  -- All calls have returned, or there is a step that is not a new call.
  pub on : GoesOn v
  -- Once a call has returned, the context is stopped and the acceptor closed.
  pub over : 0 < tally has_returned v.calls → (v.shared.stopped ≡ true) × (v.shared.is_open ≡ false)
