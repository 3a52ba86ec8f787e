-- ===== src/Server/Stops/Bounded.antt =====
-- src/http_server_impl.cpp: the steps of any run of calls of `stop` are bounded.
use httpserver_cpp.Base.{
  ℕ, suc, ◌+◌, ◌≤◌, ◌<◌, ◌≡◌, subst, List, ◌∷◌, ◌++◌, Option, none, some, arith,
}
use httpserver_cpp.Server.Stops.{
  ended, Shared, entered, returned, StopCall, Stops, StopsStep, advances, ends, calls_outside,
  calls_inside, StopsReach, begin, later, tally, in_loop, past_pool, has_returned,
}
use httpserver_cpp.Server.Stops.Pool.{length-set, tally_around, All-around, around-All}
use httpserver_cpp.Server.Stops.Safe.{at}
use httpserver_cpp.Server.Stops.Effort.{cost, effort, Unthrown, HasBound, Fits, work-set_ended}
use httpserver_cpp.Server.Stops.Nearer.{Nearer, act-Nearer}

-- The new calls among the steps, and the others.
abbrev pub is_new : {u v : Stops} → StopsStep u v → ℕ
is_new (advances before after c p s split e) = 0
is_new (ends i st w idle) = 0
is_new calls_outside = 1
is_new (calls_inside i w idle) = 1

unfoldable pub new_calls : {u v : Stops} → StopsReach u v → ℕ
new_calls begin = 0
new_calls (later r st) = is_new st + new_calls r

unfoldable pub step_count : {u v : Stops} → StopsReach u v → ℕ
step_count begin = 0
step_count (later r st) = suc (step_count r)

abbrev pub IsOutside : StopCall → Type 0
IsOutside c = c.self ≡ none

abbrev pub HasReturned : StopCall → Type 0
HasReturned c = c.point ≡ returned

module _ (n : ℕ) where
  pub Fits-around :
      (s : Shared) (before after : List StopCall) (c : StopCall)
      → Fits n s (before ++ c ∷ after)
      → Fits n s (c ∷ before ++ after)
  unfolding tally
  Fits-around s before after c f = record {
    size = f.size;
    halted = λ e. omega (
      arith,
      f.halted e,
      tally_around in_loop before after c,
      tally_around past_pool before after c,
    );
    closed = λ e. omega (arith, f.closed e, tally_around has_returned before after c);
    unthrown = All-around Unthrown before after c f.unthrown;
    bounds = All-around (HasBound n) before after c f.bounds;
  }

  around-Fits :
      (s : Shared) (before after : List StopCall) (c : StopCall)
      → Fits n s (c ∷ before ++ after)
      → Fits n s (before ++ c ∷ after)
  unfolding tally
  around-Fits s before after c f = record {
    size = f.size;
    halted = λ e. omega (
      arith,
      f.halted e,
      tally_around in_loop before after c,
      tally_around past_pool before after c,
    );
    closed = λ e. omega (arith, f.closed e, tally_around has_returned before after c);
    unthrown = let (b, bs) = f.unthrown in around-All Unthrown before after c b bs;
    bounds = let (b, bs) = f.bounds in around-All (HasBound n) before after c b bs;
  }

  entered-Fits :
      (s : Shared) (cs : List StopCall) (self : Option ℕ)
      → Fits n s cs
      → Fits n s (at entered self ∷ cs)
  unfolding tally
  entered-Fits s cs self f = record {
    size = f.size;
    halted = λ e. omega (arith, f.halted e);
    closed = λ e. omega (arith, f.closed e);
    unthrown = (λ e t. cc, f.unthrown);
    bounds = (tt, f.bounds);
  }

  -- A step keeps the bounds, and, but for a new call, lowers the effort.
  step-Fits :
      {u v : Stops} (st : StopsStep u v)
      → Fits n u.shared u.calls
      → Fits n v.shared v.calls × (is_new st ≡ 0 → effort n v < effort n u)
  unfolding effort tally
  step-Fits {u} (advances before after c p s split e) f =
      let x = u.shared in
      let (g, less) = subst (Nearer n c.point c.self (before ++ after) x.pool) e (
        act-Nearer n c.self (before ++ after) x.is_open x.pool c.point x.stopped
          (Fits-around x before after c (subst (Fits n x) split f))) in
      (
        around-Fits s before after (record c { point = p }) g,
        λ old. rw split (
            omega (
              arith,
              less,
              tally_around (cost n) before after c,
              tally_around (cost n) before after (record c { point = p }),
            )),
      )
  step-Fits {u} (ends k st here idle) f = (
    record {
      size = omega (arith, f.size, length-set u.shared.pool k ended);
      halted = f.halted;
      closed = f.closed;
      unthrown = f.unthrown;
      bounds = f.bounds;
    },
    λ old. omega (arith, work-set_ended u.shared.pool k here),
  )
  step-Fits {u} calls_outside f =
      (entered-Fits u.shared u.calls none f, λ old. absurd (omega arith))
  step-Fits {u} (calls_inside k here idle) f =
      (entered-Fits u.shared u.calls (some k) f, λ old. absurd (omega arith))

  pub StopsReach-Fits :
      {u v : Stops} (r : StopsReach u v)
      → Fits n u.shared u.calls
      → Fits n v.shared v.calls × (new_calls r ≡ 0 → step_count r + effort n v ≤ effort n u)
  unfolding new_calls step_count
  StopsReach-Fits begin f = (f, λ old. omega arith)
  StopsReach-Fits (later r st) f =
      let (g, spent) = StopsReach-Fits r f in
      let (h, less) = step-Fits st g in
      (h, λ old. omega (arith, spent (omega arith), less (omega arith)))
