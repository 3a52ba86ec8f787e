-- ===== src/Server/Stops/Overlap.antt =====
-- src/http_server_impl.cpp: calls of `stop` that overlap.
use httpserver_cpp.Base.{
  ◌++◌, length, arith, ℕ, suc, ◌≡◌, refl, subst, Bool, true, false, List, [], ◌∷◌, none, some,
}
use httpserver_cpp.Server.{HttpServerImpl}
use httpserver_cpp.Server.Stops.{
  Worker, working, Point, entered, found_running, joining, waiting, at_pool, test_joinable,
  at_acceptor, found_open, returned, StopCall, get_elem?, act, Stops, advances, calls_outside,
  StopsReach, begin, later, replicate, uncalled,
}
use httpserver_cpp.Server.Stops.Safe.{shares}

-- A call by a thread outside of the pool.
abbrev pub outside : Point → StopCall
outside p = record { point = p; self = none }

abbrev stops : Bool → Bool → List Worker → List StopCall → Stops
stops b o ws cs = record { shared = shares b o ws; calls = cs }

-- Two calls are in `join` of the first thread of the pool at once.
abbrev pub JoinsTwice : Stops → Type 0
JoinsTwice u =
    (n : ℕ) × (u.calls ≡ outside (waiting 0 n) ∷ outside (waiting 0 n) ∷ [])
    × (get_elem? u.shared.pool 0 ≡ some working)

-- A call has returned while another one waits for the first thread of the pool, which works.
abbrev pub ReturnsEarly : Stops → Type 0
ReturnsEarly u =
    (n : ℕ) × (u.calls ≡ outside returned ∷ outside (waiting 0 n) ∷ [])
    × (get_elem? u.shared.pool 0 ≡ some working)

module _ (o : Bool) (ws : List Worker) where
  abbrev pool : List Worker
  pool = working ∷ ws

  abbrev size : ℕ
  size = length pool

  -- A call goes on, and the others, before and after it, do not.
  goes :
      (b b' : Bool) (before after : List StopCall) (p q : Point) {t : Stops}
      → act p none (shares b o pool) ≡ some (q, shares b' o pool)
      → StopsReach t (stops b o pool (before ++ outside p ∷ after))
      → StopsReach t (stops b' o pool (before ++ outside q ∷ after))
  goes b b' before after p q e r =
      later r (advances before after (outside p) q (shares b' o pool) refl e)

  -- From the end of the loop's start to `join` of the first thread.
  comes_to_join :
      (before after : List StopCall) {t : Stops}
      → StopsReach t (stops true o pool (before ++ outside at_pool ∷ after))
      → StopsReach t (stops true o pool (before ++ outside (waiting 0 size) ∷ after))
  unfolding act test_joinable
  comes_to_join before after r =
      goes true true before after (joining 0 size) (waiting 0 size) (ground arith)
        (goes true true before after at_pool (joining 0 size) refl r)

  joins_twice :
      StopsReach
        (stops false o pool [])
        (stops true o pool (outside (waiting 0 size) ∷ outside (waiting 0 size) ∷ []))
  unfolding act
  joins_twice =
      let first = outside found_running ∷ [] in
      let both_found = goes false false first [] entered found_running refl (
        goes false false [] (outside entered ∷ []) entered found_running refl
          (later (later begin calls_outside) calls_outside)) in
      let both_stopped =
        goes true true (outside at_pool ∷ []) [] found_running at_pool refl
          (goes false true [] first found_running at_pool refl both_found) in
      comes_to_join (outside (waiting 0 size) ∷ []) []
        (comes_to_join [] (outside at_pool ∷ []) both_stopped)

  -- The second call finds the context stopped.
  passes :
      StopsReach
        (stops false o pool [])
        (stops true o pool (outside at_acceptor ∷ outside (waiting 0 size) ∷ []))
  unfolding act
  passes =
      let one_stopped =
        goes false true [] [] found_running at_pool refl
          (goes false false [] [] entered found_running refl (later begin calls_outside)) in
      goes true true [] (outside (waiting 0 size) ∷ []) entered at_acceptor refl
        (later (comes_to_join [] [] one_stopped) calls_outside)

returns_early :
    (o : Bool) (ws : List Worker)
    → (u : Stops) × StopsReach (stops false o (pool o ws) []) u × ReturnsEarly u
unfolding act
returns_early true ws =
    let n = length (working ∷ ws) in
    (
      _,
      later
          (later (passes true ws) (
            advances [] (outside (waiting 0 n) ∷ []) (outside at_acceptor) found_open
              (shares true true (working ∷ ws)) refl refl))
          (advances [] (outside (waiting 0 n) ∷ []) (outside found_open) returned
            (shares true false (working ∷ ws)) refl refl),
      (n, refl, refl),
    )
returns_early false ws =
    let n = length (working ∷ ws) in
    (
      _,
      later (passes false ws) (
          advances [] (outside (waiting 0 n) ∷ []) (outside at_acceptor) returned
            (shares true false (working ∷ ws)) refl refl),
      (n, refl, refl),
    )

module _ {Handler : Type 0} where
  abbrev pub Overlaps : HttpServerImpl Handler → Type 0
  Overlaps s =
      ((u : Stops) × StopsReach (uncalled s) u × JoinsTwice u)
      × ((u : Stops) × StopsReach (uncalled s) u × ReturnsEarly u)

  -- For any server that runs with a thread in its pool: two calls of `stop` can be in `join` of the
  -- same `std::thread` at once, and a call of `stop` can return while a thread of the pool still works.
  pub stops-Overlaps :
      (s : HttpServerImpl Handler) (k : ℕ) → s.stopped ≡ false → s.io_threads ≡ suc k → Overlaps s
  stops-Overlaps s k runs threads =
      let same : stops false s.is_open (working ∷ replicate k working) [] ≡ uncalled s =
        rw (runs, threads) refl in
      let twice = stops true s.is_open (working ∷ replicate k working) (
        outside (waiting 0 (suc (length (replicate k working))))
        ∷ outside (waiting 0 (suc (length (replicate k working))))
        ∷ []) in
      let (u, early, e) = returns_early s.is_open (replicate k working) in
      (
        (
          twice,
          subst (λ t. StopsReach t twice) same (joins_twice s.is_open (replicate k working)),
          (_, refl, refl),
        ),
        (u, subst (λ t. StopsReach t u) same early, e),
      )
