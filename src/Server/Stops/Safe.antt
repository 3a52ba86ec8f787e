-- ===== src/Server/Stops/Safe.antt =====
-- src/http_server_impl.cpp: what holds of calls of `stop` of which none tests the context between the
-- test and the `io_context_.stop()` of another one.
use httpserver_cpp.Base.{
  ℕ, ◌+◌, ◌≤◌, ◌≡◌, refl, sym, Bool, true, false, List, [], ◌∷◌, ◌++◌, Option, some, All, arith,
}
use httpserver_cpp.Server.Stops.{
  Worker, working, ended, Shared, Point, entered, StopCall, get_elem?, set, tally, in_window,
  in_loop, has_thrown, has_returned, is_undefined, past_pool,
}
use httpserver_cpp.Server.Stops.Pool.{
  Passed, Passed-set_ended, tally_around, All-around, around-All, All-map,
}

abbrev pub HasPassed : Shared → StopCall → Type 0
HasPassed s c = Passed s.pool c.point

pub record IsSafe (s : Shared) (cs : List StopCall) : Type 0 where
  pub one : tally in_window cs + tally in_loop cs + tally has_thrown cs ≤ 1
  pub fresh : s.stopped ≡ false → tally in_loop cs + tally has_thrown cs + tally past_pool cs ≡ 0
  pub shut : s.stopped ≡ true → tally in_window cs ≡ 0
  pub emptied : s.stopped ≡ true → tally in_loop cs + tally has_thrown cs ≡ 0 → s.pool ≡ []
  pub closed : s.is_open ≡ true → tally has_returned cs ≡ 0
  pub defined : tally is_undefined cs ≡ 0
  pub passed : All (HasPassed s) cs

-- The tallies and what the calls have passed are all that counts.
same-IsSafe :
    (s : Shared) (cs ds : List StopCall)
    → ((weight : Point → ℕ) → tally weight ds ≡ tally weight cs)
    → IsSafe s cs
    → All (HasPassed s) ds
    → IsSafe s ds
same-IsSafe s cs ds same i passed = record {
  one = omega (arith, i.one, same in_window, same in_loop, same has_thrown);
  fresh = λ e. omega (arith, i.fresh e, same in_loop, same has_thrown, same past_pool);
  shut = λ e. omega (arith, i.shut e, same in_window);
  emptied = λ e idle. i.emptied e (omega (arith, same in_loop, same has_thrown));
  closed = λ e. omega (arith, i.closed e, same has_returned);
  defined = omega (arith, i.defined, same is_undefined);
  passed = passed;
}

module _ (s : Shared) (before after : List StopCall) (c : StopCall) where
  pub IsSafe-around : IsSafe s (before ++ c ∷ after) → IsSafe s (c ∷ before ++ after)
  unfolding tally
  IsSafe-around i =
      same-IsSafe s (before ++ c ∷ after) (c ∷ before ++ after)
        (λ weight. sym (tally_around weight before after c)) i
        (All-around (HasPassed s) before after c i.passed)

  pub around-IsSafe : IsSafe s (c ∷ before ++ after) → IsSafe s (before ++ c ∷ after)
  unfolding tally
  around-IsSafe i =
      same-IsSafe s (c ∷ before ++ after) (before ++ c ∷ after)
        (λ weight. tally_around weight before after c) i
        (let (b, bs) = i.passed in around-All (HasPassed s) before after c b bs)

abbrev pub shares : Bool → Bool → List Worker → Shared
shares stopped is_open pool = record { stopped = stopped; is_open = is_open; pool = pool }

abbrev pub at : Point → Option ℕ → StopCall
at p self = record { point = p; self = self }

pub entered-IsSafe :
    (s : Shared) (cs : List StopCall) (self : Option ℕ)
    → IsSafe s cs
    → IsSafe s (at entered self ∷ cs)
unfolding tally
entered-IsSafe s cs self i = record {
  one = omega (arith, i.one);
  fresh = λ e. omega (arith, i.fresh e);
  shut = λ e. omega (arith, i.shut e);
  emptied = λ e idle. i.emptied e (omega arith);
  closed = λ e. omega (arith, i.closed e);
  defined = omega (arith, i.defined);
  passed = (tt, i.passed);
}

pub ended-IsSafe :
    (k : ℕ) (s : Shared) (cs : List StopCall)
    → get_elem? s.pool k ≡ some working
    → IsSafe s cs
    → IsSafe (record s { pool = set s.pool k ended }) cs
ended-IsSafe k s cs here i = record {
  one = i.one;
  fresh = i.fresh;
  shut = i.shut;
  emptied = λ e idle. rw (i.emptied e idle) refl;
  closed = i.closed;
  defined = i.defined;
  passed =
      All-map (HasPassed s) (HasPassed (record s { pool = set s.pool k ended })) cs
        (λ c. Passed-set_ended k s.pool here c.point) i.passed;
}
