-- ===== src/Server/Stops/Steps.antt =====
-- src/http_server_impl.cpp: what one step of a call of `stop` keeps, where no other call stands between the
-- test of the context and its `io_context_.stop()`.
use httpserver_cpp.Base.{
  ℕ, ◌<◌, ◌≡◌, refl, inl, inr, Bool, true, false, List, [], ◌∷◌, Option, none, some, arith,
  Bool-cases, ◌==◌,
}
use httpserver_cpp.Server.Stops.{
  Worker, working, ended, joined, Shared, Point, entered, found_running, at_pool, joining, waiting,
  at_acceptor, found_open, returned, thrown, StopCall, get_elem?, set, is_self, join, act, tally,
  in_window, undefined, test_joinable,
}
use httpserver_cpp.Server.Stops.Pool.{
  Joined-suc, Joined-suc-set, Passed-others, get_elem?-some, length-set,
}
use httpserver_cpp.Server.Stops.Safe.{IsSafe, shares, at}

-- What a step of a call, the other calls aside, comes to.
abbrev pub Next : Option ℕ → List StopCall → Option (Point × Shared) → Type 0
Next self others none = Unit
Next self others (some (p, s)) = IsSafe s (record { point = p; self = self } ∷ others)

test-Next :
    (w : Worker) (k n : ℕ) (self : Option ℕ) (others : List StopCall) (o : Bool) (ws : List Worker)
    → get_elem? ws k ≡ some w
    → k < n
    → IsSafe (shares true o ws) (at (joining k n) self ∷ others)
    → Next self others (some (test_joinable w k n, shares true o ws))
unfolding test_joinable tally
test-Next joined k n self others o ws here lt i = record {
  one = i.one;
  fresh = λ e. cc;
  shut = i.shut;
  emptied = λ e idle. absurd (omega arith);
  closed = i.closed;
  defined = i.defined;
  passed =
      let ((before, same, le), bs) = i.passed in
      ((Joined-suc k ws here before, same, omega arith), bs);
}
test-Next ended k n self others o ws here lt i = record {
  one = i.one;
  fresh = λ e. cc;
  shut = i.shut;
  emptied = λ e idle. absurd (omega arith);
  closed = i.closed;
  defined = i.defined;
  passed = let ((before, same, le), bs) = i.passed in ((before, same, lt, λ q. cc), bs);
}
test-Next working k n self others o ws here lt i = record {
  one = i.one;
  fresh = λ e. cc;
  shut = i.shut;
  emptied = λ e idle. absurd (omega arith);
  closed = i.closed;
  defined = i.defined;
  passed = let ((before, same, le), bs) = i.passed in ((before, same, lt, λ q. cc), bs);
}

join-Next :
    (w : Worker) (k n : ℕ) (self : Option ℕ) (others : List StopCall) (o : Bool) (ws : List Worker)
    → get_elem? ws k ≡ some w
    → IsSafe (shares true o ws) (at (waiting k n) self ∷ others)
    → Next self others (join w self k n (shares true o ws))
unfolding join tally
join-Next joined k n self others o ws here i =
    let ((before, same, lt, open'), bs) = i.passed in absurd (open' here)
join-Next ended k n self others o ws here i = record {
  one = i.one;
  fresh = λ e. cc;
  shut = i.shut;
  emptied = λ e idle. absurd (omega arith);
  closed = i.closed;
  defined = i.defined;
  passed =
      let ((before, same, lt, open'), bs) = i.passed in
      (
        (Joined-suc-set k ws before, omega (arith, same, length-set ws k joined), omega arith),
        Passed-others (set ws k joined) others (omega (arith, i.one)),
      );
}
join-Next working k n self others o ws here i = elim (Bool-cases (is_self self k)) [
  | inl own ↦ rw own (record {
    one = omega (arith, i.one);
    fresh = λ e. cc;
    shut = i.shut;
    emptied = λ e idle. absurd (omega arith);
    closed = i.closed;
    defined = i.defined;
    passed = let (b, bs) = i.passed in (tt, bs);
  })
  | inr other ↦ rw other tt
]

pub act-Next :
    (q : Point) (self : Option ℕ) (others : List StopCall) (b o : Bool) (ws : List Worker)
    → IsSafe (shares b o ws) (at q self ∷ others)
    → (q ≡ entered → tally in_window others ≡ 0)
    → Next self others (act q self (shares b o ws))
unfolding act tally
act-Next entered self others true o ws i apart = record {
  one = i.one;
  fresh = λ e. cc;
  shut = i.shut;
  emptied = i.emptied;
  closed = i.closed;
  defined = i.defined;
  passed = i.passed;
}
act-Next entered self others false o ws i apart = record {
  one = omega (arith, i.fresh refl, apart refl);
  fresh = i.fresh;
  shut = λ e. absurd (cc);
  emptied = λ e idle. absurd (cc);
  closed = i.closed;
  defined = i.defined;
  passed = i.passed;
}
act-Next found_running self others b o ws i apart = record {
  one = omega (arith, i.one);
  fresh = λ e. cc;
  shut = λ e. omega (arith, i.one);
  emptied = λ e idle. absurd (omega arith);
  closed = i.closed;
  defined = i.defined;
  passed = i.passed;
}
act-Next at_pool self others b o ws i apart = record {
  one = i.one;
  fresh = i.fresh;
  shut = i.shut;
  emptied = λ e idle. absurd (omega arith);
  closed = i.closed;
  defined = i.defined;
  passed = let (u, bs) = i.passed in ((tt, refl, omega arith), bs);
}
act-Next (joining k n) self others false o ws i apart = absurd (omega (arith, i.fresh refl))
act-Next (joining k n) self others true o ws i apart =
    let ((before, same, le), bs) = i.passed in
    elim (Bool-cases (k == n)) [
      | inl over ↦ rw over (record {
        one = omega (arith, i.one);
        fresh = λ e. cc;
        shut = i.shut;
        emptied = λ e idle. refl;
        closed = i.closed;
        defined = i.defined;
        passed = (tt, Passed-others [] others (omega (arith, i.one)));
      })
      | inr more ↦
          let lt : k < n = ground (arith, more, le) in
          let (w, here) = get_elem?-some ws k (omega (arith, lt, same)) in
          rw more (rw here (test-Next w k n self others o ws here lt i))
    ]
act-Next (waiting k n) self others false o ws i apart = absurd (omega (arith, i.fresh refl))
act-Next (waiting k n) self others true o ws i apart =
    let ((before, same, lt, open'), bs) = i.passed in
    let (w, here) = get_elem?-some ws k (omega (arith, lt, same)) in
    rw here (join-Next w k n self others o ws here i)
act-Next at_acceptor self others b true ws i apart = record {
  one = i.one;
  fresh = i.fresh;
  shut = i.shut;
  emptied = i.emptied;
  closed = i.closed;
  defined = i.defined;
  passed = i.passed;
}
act-Next at_acceptor self others b false ws i apart = record {
  one = i.one;
  fresh = i.fresh;
  shut = i.shut;
  emptied = i.emptied;
  closed = λ e. cc;
  defined = i.defined;
  passed = i.passed;
}
act-Next found_open self others b o ws i apart = record {
  one = i.one;
  fresh = i.fresh;
  shut = i.shut;
  emptied = i.emptied;
  closed = λ e. cc;
  defined = i.defined;
  passed = i.passed;
}
act-Next returned self others b o ws i apart = tt
act-Next thrown self others b o ws i apart = tt
act-Next undefined self others b o ws i apart = tt
