-- ===== src/Server/Stops.antt =====
-- src/http_server_impl.cpp: `stop`, statement by statement, called by any number of threads while
-- the threads of the pool run, which `run` has all started. Each step is one access to what the
-- calls share, in one order for all threads. Calls that join one `std::thread` at once, or go on in a
-- pool that another call has cleared, come to a point of their own, `undefined`. The start of the
-- loop and `clear()` are one step each.
pub mod Pool
pub mod Safe
pub mod Steps
pub mod Apart
pub mod Effort
pub mod Nearer
pub mod Bounded
pub mod Ending
pub mod Overlap
use httpserver_cpp.Base.{
  ℕ, zero, suc, ◌+◌, ◌≡◌, ◌⊎◌, Bool, true, false, List, [], ◌∷◌, ◌++◌, Option, none, some, ◌==◌,
  if◌then◌else◌, All, length,
}
use httpserver_cpp.Server.{HttpServerImpl}

-- A thread of `io_thread_pool_`: in `io_context_.run()`, at its end, or joined, when it is no longer
-- `joinable()`.
pub data Worker : Type 0 where
  working : Worker
  ended : Worker
  joined : Worker

-- `io_context_.stopped()`, `acceptor_.is_open()` and `io_thread_pool_`.
pub record Shared : Type 0 where
  pub stopped : Bool
  pub is_open : Bool
  pub pool : List Worker

-- Where a call of `stop` stands: at its first test; with that test passed; before the loop over the
-- pool; in the loop at a thread, with the end of the pool as the loop found it; in `join` of that
-- thread; at the test of the acceptor; with that test passed; or at an end. At `undefined` C++
-- promises nothing of the program any more.
pub data Point : Type 0 where
  entered : Point
  found_running : Point
  at_pool : Point
  joining : ℕ → ℕ → Point
  waiting : ℕ → ℕ → Point
  at_acceptor : Point
  found_open : Point
  returned : Point
  thrown : Point
  undefined : Point

-- A call, and the thread of the pool that makes it, if one does.
pub record StopCall : Type 0 where
  pub point : Point
  pub self : Option ℕ

abbrev pub get_elem? : List Worker → ℕ → Option Worker
get_elem? [] i = none
get_elem? (w ∷ ws) zero = some w
get_elem? (w ∷ ws) (suc i) = get_elem? ws i

abbrev pub set : List Worker → ℕ → Worker → List Worker
set [] i v = []
set (w ∷ ws) zero v = v ∷ ws
set (w ∷ ws) (suc i) v = w ∷ set ws i v

abbrev pub is_self : Option ℕ → ℕ → Bool
is_self none i = false
is_self (some k) i = k == i

-- `if (thread.joinable())`
unfoldable pub test_joinable : Worker → ℕ → ℕ → Point
test_joinable joined i n = joining (suc i) n
test_joinable ended i n = waiting i n
test_joinable working i n = waiting i n

-- `thread.join()` of a thread that was joinable: it waits for a thread that works, and throws on the
-- own one. Where the thread is joined meanwhile, two calls were in `join` of it at once, which C++
-- leaves undefined.
unfoldable pub join : Worker → Option ℕ → ℕ → ℕ → Shared → Option (Point × Shared)
join joined self i n s = some (undefined, s)
join ended self i n s = some (joining (suc i) n, record s { pool = set s.pool i joined })
join working self i n s = if is_self self i then some (thrown, s) else none

-- The next statement of a call; `none` where it waits or has ended. A thread that the loop comes to
-- and that is not in the pool any more was destroyed by `clear()`, with the iterators of the loop.
unfoldable pub act : Point → Option ℕ → Shared → Option (Point × Shared)
act entered self s = some (if s.stopped then at_acceptor else found_running, s)
act found_running self s = some (at_pool, record s { stopped = true })
act at_pool self s = some (joining 0 (length s.pool), s)
act (joining i n) self s =
    if i == n then some (at_acceptor, record s { pool = [] }) else elim (get_elem? s.pool i) [
      | none ↦ some (undefined, s)
      | some w ↦ some (test_joinable w i n, s)
    ]
act (waiting i n) self s = elim (get_elem? s.pool i) [
  | none ↦ some (undefined, s)
  | some w ↦ join w self i n s
]
act at_acceptor self s = some (if s.is_open then found_open else returned, s)
act found_open self s = some (returned, record s { is_open = false })
act returned self s = none
act thrown self s = none
act undefined self s = none

pub record Stops : Type 0 where
  pub shared : Shared
  pub calls : List StopCall

-- The thread does not end below a call of its own.
abbrev pub Lets : ℕ → StopCall → Type 0
Lets i c = is_self c.self i ≡ true → (c.point ≡ returned) ⊎ (c.point ≡ thrown)

-- A call takes its next step; a thread of the pool ends, once the context is stopped; or `stop` is
-- called, by a thread outside of the pool or by a handler that a thread of the pool runs.
pub data StopsStep (t : Stops) : Stops → Type 0 where
  advances :
      (before after : List StopCall) (c : StopCall) (p : Point) (s : Shared)
      → t.calls ≡ before ++ c ∷ after
      → act c.point c.self t.shared ≡ some (p, s)
      → StopsStep t (record { shared = s; calls = before ++ record c { point = p } ∷ after })
  ends :
      (i : ℕ)
      → t.shared.stopped ≡ true
      → get_elem? t.shared.pool i ≡ some working
      → All (Lets i) t.calls
      → StopsStep t (record t { shared = record (t.shared) { pool = set t.shared.pool i ended } })
  calls_outside :
      StopsStep t (record t { calls = record { point = entered; self = none } ∷ t.calls })
  calls_inside :
      (i : ℕ)
      → get_elem? t.shared.pool i ≡ some working
      → All (Lets i) t.calls
      → StopsStep t (record t { calls = record { point = entered; self = some i } ∷ t.calls })

pub data StopsReach (t : Stops) : Stops → Type 0 where
  begin : StopsReach t t
  later : {u v : Stops} → StopsReach t u → StopsStep u v → StopsReach t v

-- What the calls weigh together.
unfoldable pub tally : (Point → ℕ) → List StopCall → ℕ
tally weight [] = 0
tally weight (c ∷ cs) = weight c.point + tally weight cs

abbrev pub in_window : Point → ℕ
in_window found_running = 1
in_window _ = 0

abbrev pub in_loop : Point → ℕ
in_loop at_pool = 1
in_loop (joining i n) = 1
in_loop (waiting i n) = 1
in_loop _ = 0

abbrev pub is_undefined : Point → ℕ
is_undefined undefined = 1
is_undefined _ = 0

abbrev pub has_thrown : Point → ℕ
has_thrown thrown = 1
has_thrown _ = 0

abbrev pub has_returned : Point → ℕ
has_returned returned = 1
has_returned _ = 0

-- Past the part that only a call that found the context running goes through.
abbrev pub past_pool : Point → ℕ
past_pool at_acceptor = 1
past_pool found_open = 1
past_pool returned = 1
past_pool _ = 0

-- No call tests the context between the test and the `io_context_.stop()` of another one.
unfoldable pub IsApart : {t u : Stops} → StopsReach t u → Type 0
IsApart begin = Unit
IsApart (later r (advances before after c p s split e)) =
    IsApart r × (c.point ≡ entered → tally in_window (before ++ after) ≡ 0)
IsApart (later r (ends i st w idle)) = IsApart r
IsApart (later r calls_outside) = IsApart r
IsApart (later r (calls_inside i w idle)) = IsApart r

abbrev pub replicate : ℕ → Worker → List Worker
replicate zero w = []
replicate (suc n) w = w ∷ replicate n w

-- The server before any call of `stop`.
abbrev pub uncalled : {Handler : Type 0} → HttpServerImpl Handler → Stops
uncalled s = record {
  shared = record {
    stopped = s.stopped;
    is_open = s.is_open;
    pool = replicate s.io_threads working;
  };
  calls = [];
}
