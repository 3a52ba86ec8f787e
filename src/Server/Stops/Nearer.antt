-- ===== src/Server/Stops/Nearer.antt =====
-- src/http_server_impl.cpp: each step of a call of `stop`, and of a thread of the pool, brings it nearer
-- to its end.
use httpserver_cpp.Base.{
  ℕ, ◌+◌, ◌==◌, ◌<◌, ◌≡◌, refl, ◌⊎◌, inl, inr, Bool, true, false, List, ◌∷◌, Option, none, some,
  arith, Option-cases, Bool-cases,
}
use httpserver_cpp.Server.Stops.{
  Worker, working, ended, joined, Shared, Point, entered, found_running, at_pool, joining, waiting,
  undefined, test_joinable, at_acceptor, found_open, returned, thrown, StopCall, get_elem?, is_self,
  join, act, tally,
}
use httpserver_cpp.Server.Stops.Pool.{length-set}
use httpserver_cpp.Server.Stops.Safe.{shares, at}
use httpserver_cpp.Server.Stops.Effort.{cost, work, Fits, work-set_joined}

-- The call has ended, or waits for a thread that works.
abbrev pub Halts : List Worker → Point → Type 0
Halts ws q =
    (q ≡ returned)
    ⊎ ((q ≡ thrown)
        ⊎ ((q ≡ undefined)
            ⊎ ((k : ℕ) × (n : ℕ) × (q ≡ waiting k n) × (get_elem? ws k ≡ some working))))

-- What the next step of a call, the other calls aside, comes to.
abbrev pub Nearer :
    ℕ → Point → Option ℕ → List StopCall → List Worker → Option (Point × Shared) → Type 0
Nearer n q self others ws none = Halts ws q
Nearer n q self others ws (some (p, s)) =
    Fits n s (at p self ∷ others) × (cost n p + work s.pool < cost n q + work ws)

module _ (n : ℕ) (self : Option ℕ) (others : List StopCall) (o : Bool) (ws : List Worker) where
  test-Nearer :
      (w : Worker) (k m : ℕ)
      → k < m
      → Fits n (shares true o ws) (at (joining k m) self ∷ others)
      → Nearer n (joining k m) self others ws (some (test_joinable w k m, shares true o ws))
  unfolding test_joinable tally
  test-Nearer joined k m lt f = (
    record {
      size = f.size;
      halted = λ e. cc;
      closed = f.closed;
      unthrown = (λ e t. cc, f.unthrown.1);
      bounds = let ((le, top), bs) = f.bounds in ((omega arith, top), bs);
    },
    omega (arith, lt),
  )
  test-Nearer ended k m lt f = (
    record {
      size = f.size;
      halted = λ e. cc;
      closed = f.closed;
      unthrown = (λ e t. cc, f.unthrown.1);
      bounds = let ((le, top), bs) = f.bounds in ((lt, top), bs);
    },
    omega (arith, lt),
  )
  test-Nearer working k m lt f = (
    record {
      size = f.size;
      halted = λ e. cc;
      closed = f.closed;
      unthrown = (λ e t. cc, f.unthrown.1);
      bounds = let ((le, top), bs) = f.bounds in ((lt, top), bs);
    },
    omega (arith, lt),
  )

  join-Nearer :
      (w : Worker) (k m : ℕ)
      → get_elem? ws k ≡ some w
      → Fits n (shares true o ws) (at (waiting k m) self ∷ others)
      → Nearer n (waiting k m) self others ws (join w self k m (shares true o ws))
  unfolding join tally
  join-Nearer joined k m here f = (
    record {
      size = f.size;
      halted = λ e. cc;
      closed = f.closed;
      unthrown = (λ e t. cc, f.unthrown.1);
      bounds = (tt, f.bounds.1);
    },
    omega arith,
  )
  join-Nearer ended k m here f =
      let ((lt, top), bs) = f.bounds in
      (
        record {
          size = omega (arith, f.size, length-set ws k joined);
          halted = λ e. cc;
          closed = f.closed;
          unthrown = (λ e t. cc, f.unthrown.1);
          bounds = ((omega arith, top), bs);
        },
        omega (arith, lt, work-set_joined ws k here),
      )
  join-Nearer working k m here f = elim (Bool-cases (is_self self k)) [
    | inl own ↦ rw own (
      record {
        size = f.size;
        halted = λ e. cc;
        closed = f.closed;
        unthrown = (λ e t. ground (arith, own), f.unthrown.1);
        bounds = (tt, f.bounds.1);
      },
      omega arith,
    )
    | inr other ↦ rw other (inr (inr (inr (k, m, refl, here))))
  ]

  -- One step of a call, the other calls aside.
  pub act-Nearer :
      (q : Point) (b : Bool)
      → Fits n (shares b o ws) (at q self ∷ others)
      → Nearer n q self others ws (act q self (shares b o ws))
  unfolding act tally work
  act-Nearer entered true f = (
    record {
      size = f.size;
      halted = λ e. cc;
      closed = f.closed;
      unthrown = (λ e t. cc, f.unthrown.1);
      bounds = f.bounds;
    },
    omega arith,
  )
  act-Nearer entered false f = (
    record {
      size = f.size;
      halted = f.halted;
      closed = f.closed;
      unthrown = (λ e t. cc, f.unthrown.1);
      bounds = f.bounds;
    },
    omega arith,
  )
  act-Nearer found_running b f = (
    record {
      size = f.size;
      halted = λ e. cc;
      closed = f.closed;
      unthrown = (λ e t. cc, f.unthrown.1);
      bounds = f.bounds;
    },
    omega arith,
  )
  act-Nearer at_pool b f = (
    record {
      size = f.size;
      halted = f.halted;
      closed = f.closed;
      unthrown = (λ e t. cc, f.unthrown.1);
      bounds = ((omega arith, f.size), f.bounds.1);
    },
    omega (arith, f.size),
  )
  act-Nearer (joining k m) false f = absurd (omega (arith, f.halted refl))
  act-Nearer (joining k m) true f =
      let ((le, top), bs) = f.bounds in
      elim (Bool-cases (k == m)) [
        | inl over ↦ rw over (
          record {
            size = omega arith;
            halted = λ e. cc;
            closed = f.closed;
            unthrown = (λ e t. cc, f.unthrown.1);
            bounds = (tt, bs);
          },
          omega arith,
        )
        | inr more ↦ elim (Option-cases (get_elem? ws k)) [
          | inl gone ↦ rw more (
              rw gone (
                record {
                  size = f.size;
                  halted = λ e. cc;
                  closed = f.closed;
                  unthrown = (λ e t. cc, f.unthrown.1);
                  bounds = (tt, bs);
                },
                omega arith,
              ))
          | inr (w, here) ↦ rw more (rw here (test-Nearer w k m (ground (arith, more, le)) f))
        ]
      ]
  act-Nearer (waiting k m) false f = absurd (omega (arith, f.halted refl))
  act-Nearer (waiting k m) true f = elim (Option-cases (get_elem? ws k)) [
    | inl gone ↦ rw gone (
      record {
        size = f.size;
        halted = λ e. cc;
        closed = f.closed;
        unthrown = (λ e t. cc, f.unthrown.1);
        bounds = (tt, f.bounds.1);
      },
      omega arith,
    )
    | inr (w, here) ↦ rw here (join-Nearer w k m here f)
  ]
  act-Nearer at_acceptor b f = elim (Bool-cases o) [
    | inl open' ↦ rw open' (
      record {
        size = f.size;
        halted = f.halted;
        closed = λ e. f.closed open';
        unthrown = (λ e t. cc, f.unthrown.1);
        bounds = f.bounds;
      },
      omega arith,
    )
    | inr shut ↦ rw shut (
      record {
        size = f.size;
        halted = f.halted;
        closed = λ e. cc;
        unthrown = (λ e t. cc, f.unthrown.1);
        bounds = f.bounds;
      },
      omega arith,
    )
  ]
  act-Nearer found_open b f = (
    record {
      size = f.size;
      halted = f.halted;
      closed = λ e. cc;
      unthrown = (λ e t. cc, f.unthrown.1);
      bounds = f.bounds;
    },
    omega arith,
  )
  act-Nearer returned b f = inl refl
  act-Nearer thrown b f = inr (inl refl)
  act-Nearer undefined b f = inr (inr (inl refl))
