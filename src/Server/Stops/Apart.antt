-- ===== src/Server/Stops/Apart.antt =====
-- src/http_server_impl.cpp: calls of `stop` of which none tests the context between the test and the
-- `io_context_.stop()` of another one.
use httpserver_cpp.Base.{
  ℕ, ◌+◌, ◌≤◌, ◌≡◌, refl, subst, true, false, List, [], ◌∷◌, ◌++◌, none, some, All, arith, length,
  ◌<◌,
}
use httpserver_cpp.Server.{HttpServerImpl, stop}
use httpserver_cpp.Server.Stops.{
  Shared, joining, is_undefined, StopCall, Stops, advances, ends, calls_outside, calls_inside,
  StopsReach, begin, later, tally, in_loop, has_thrown, has_returned, IsApart, uncalled,
}
use httpserver_cpp.Server.Stops.Pool.{IsJoined}
use httpserver_cpp.Server.Stops.Safe.{
  IsSafe, IsSafe-around, around-IsSafe, entered-IsSafe, ended-IsSafe,
}
use httpserver_cpp.Server.Stops.Steps.{Next, act-Next}

pub StopsReach-IsSafe :
    {t u : Stops} (r : StopsReach t u)
    → IsApart r
    → IsSafe t.shared t.calls
    → IsSafe u.shared u.calls
unfolding IsApart
StopsReach-IsSafe begin apart i = i
StopsReach-IsSafe (later {u} r (advances before after c p s split e)) (apart, first) i =
    let j = StopsReach-IsSafe r apart i in
    let k : IsSafe u.shared (before ++ c ∷ after) = subst (IsSafe u.shared) split j in
    let x = u.shared in
    around-IsSafe s before after (record c { point = p })
      (subst (Next c.self (before ++ after)) e (
        act-Next c.point c.self (before ++ after) x.stopped x.is_open x.pool
          (IsSafe-around x before after c k) first))
StopsReach-IsSafe (later {u} r (ends k st here idle)) apart i =
    ended-IsSafe k u.shared u.calls here (StopsReach-IsSafe r apart i)
StopsReach-IsSafe (later {u} r calls_outside) apart i =
    entered-IsSafe u.shared u.calls none (StopsReach-IsSafe r apart i)
StopsReach-IsSafe (later {u} r (calls_inside k here idle)) apart i =
    entered-IsSafe u.shared u.calls (some k) (StopsReach-IsSafe r apart i)

module _ {Handler : Type 0} where
  -- What the calls share is that of a server.
  pub record IsOf (s : HttpServerImpl Handler) (x : Shared) : Type 0 where
    pub stopped_same : x.stopped ≡ s.stopped
    pub open_same : x.is_open ≡ s.is_open
    pub threads_same : length x.pool ≡ s.io_threads

  pub record Ensures (s : HttpServerImpl Handler) (u : Stops) : Type 0 where
    -- One call at most is at the threads of the pool.
    pub alone : tally in_loop u.calls ≤ 1
    -- No call has come to where C++ promises nothing.
    pub defined : tally is_undefined u.calls ≡ 0
    -- The pool that a call is about to clear has only joined threads.
    pub all_joined :
        (before after : List StopCall) (c : StopCall) (n : ℕ)
        → u.calls ≡ before ++ c ∷ after
        → c.point ≡ joining n n
        → All IsJoined u.shared.pool
    -- A call has returned.
    pub over :
        0 < tally has_returned u.calls → (u.shared.stopped ≡ true) × (u.shared.is_open ≡ false)
    -- And none is at the threads of the pool, or has thrown there.
    pub settled :
        0 < tally has_returned u.calls
        → tally in_loop u.calls + tally has_thrown u.calls ≡ 0
        → IsOf (stop s) u.shared

  pub uncalled-IsSafe :
      (s : HttpServerImpl Handler)
      → (s.stopped ≡ true → s.io_threads ≡ 0)
      → IsSafe (uncalled s).shared []
  unfolding tally
  uncalled-IsSafe s none_left = record {
    one = omega arith;
    fresh = λ e. refl;
    shut = λ e. refl;
    emptied = λ e idle. rw (none_left e) refl;
    closed = λ e. refl;
    defined = refl;
    passed = tt;
  }
