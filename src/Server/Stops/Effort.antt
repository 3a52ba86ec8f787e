-- ===== src/Server/Stops/Effort.antt =====
-- src/http_server_impl.cpp: the effort that calls of `stop` have still to make, and the bounds of
-- their loops.
use httpserver_cpp.Base.{
  ℕ, zero, suc, ◌+◌, ◌*◌, ◌-◌, ◌≤◌, ◌<◌, ◌≡◌, ◌≢◌, refl, true, false, List, [], ◌∷◌, none, some,
  All, arith, length,
}
use httpserver_cpp.Server.Stops.{
  Worker, working, ended, joined, Shared, Point, entered, found_running, at_pool, joining, waiting,
  undefined, at_acceptor, found_open, returned, thrown, StopCall, get_elem?, set, Stops, tally,
  in_loop, past_pool, has_returned,
}

-- The steps that a call has still to take, with `n` threads in the pool.
abbrev pub cost : ℕ → Point → ℕ
cost n entered = 2 * n + 7
cost n found_running = 2 * n + 6
cost n at_pool = 2 * n + 5
cost n (joining i m) = 2 * (m - i) + 4
cost n (waiting i m) = 2 * (m - i) + 3
cost n at_acceptor = 3
cost n found_open = 2
cost n returned = 0
cost n thrown = 0
cost n undefined = 0

-- A loop goes on before its end, which is at most `n`.
abbrev pub IsBelow : ℕ → Point → Type 0
IsBelow n (joining i m) = (i ≤ m) × (m ≤ n)
IsBelow n (waiting i m) = (i < m) × (m ≤ n)
IsBelow n _ = Unit

abbrev pub HasBound : ℕ → StopCall → Type 0
HasBound n c = IsBelow n c.point

-- The threads that have still to end.
unfoldable pub work : List Worker → ℕ
work [] = 0
work (working ∷ ws) = suc (work ws)
work (ended ∷ ws) = work ws
work (joined ∷ ws) = work ws

unfoldable pub effort : ℕ → Stops → ℕ
effort n u = tally (cost n) u.calls + work u.shared.pool

abbrev pub Unthrown : StopCall → Type 0
Unthrown c = c.self ≡ none → c.point ≢ thrown

pub record Fits (n : ℕ) (s : Shared) (cs : List StopCall) : Type 0 where
  pub size : length s.pool ≤ n
  pub halted : s.stopped ≡ false → tally in_loop cs + tally past_pool cs ≡ 0
  pub closed : s.is_open ≡ true → tally has_returned cs ≡ 0
  pub unthrown : All Unthrown cs
  pub bounds : All (HasBound n) cs

pub work-set_joined :
    (ws : List Worker) (i : ℕ) → get_elem? ws i ≡ some ended → work (set ws i joined) ≡ work ws
unfolding work
work-set_joined [] i e = refl
work-set_joined (ended ∷ ws) zero e = refl
work-set_joined (working ∷ ws) zero e = absurd (cc)
work-set_joined (joined ∷ ws) zero e = absurd (cc)
work-set_joined (ended ∷ ws) (suc i) e = work-set_joined ws i e
work-set_joined (working ∷ ws) (suc i) e = omega (arith, work-set_joined ws i e)
work-set_joined (joined ∷ ws) (suc i) e = work-set_joined ws i e

pub work-set_ended :
    (ws : List Worker) (i : ℕ)
    → get_elem? ws i ≡ some working
    → suc (work (set ws i ended)) ≡ work ws
unfolding work
work-set_ended [] i e = absurd (cc)
work-set_ended (working ∷ ws) zero e = refl
work-set_ended (ended ∷ ws) zero e = absurd (cc)
work-set_ended (joined ∷ ws) zero e = absurd (cc)
work-set_ended (working ∷ ws) (suc i) e = omega (arith, work-set_ended ws i e)
work-set_ended (ended ∷ ws) (suc i) e = work-set_ended ws i e
work-set_ended (joined ∷ ws) (suc i) e = work-set_ended ws i e
