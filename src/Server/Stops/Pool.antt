-- ===== src/Server/Stops/Pool.antt =====
-- src/http_server_impl.cpp: the loop of `stop` over `io_thread_pool_`, and what one step of a call
-- does to the weights of the calls.
use httpserver_cpp.Base.{
  ℕ, zero, suc, ◌+◌, ◌≤◌, ◌<◌, ◌≢◌, ◌≡◌, refl, List, [], ◌∷◌, ◌++◌, some, All, length, arith,
}
use httpserver_cpp.Server.Stops.{
  Worker, working, ended, joined, Point, entered, found_running, at_pool, joining, waiting,
  at_acceptor, found_open, returned, thrown, undefined, in_loop, StopCall, get_elem?, set, tally,
  has_returned, past_pool,
}

-- The first `i` threads of the pool are joined.
abbrev pub Joined : ℕ → List Worker → Type 0
Joined zero ws = Unit
Joined (suc i) [] = Unit
Joined (suc i) (w ∷ ws) = (w ≡ joined) × Joined i ws

abbrev pub IsJoined : Worker → Type 0
IsJoined w = w ≡ joined

-- A call in the loop has joined the threads before the one that it stands at, and the pool is as the
-- loop found it; where the call is in `join` of a thread, this is not joined.
abbrev pub Passed : List Worker → Point → Type 0
Passed ws (joining i n) = Joined i ws × (n ≡ length ws) × (i ≤ n)
Passed ws (waiting i n) = Joined i ws × (n ≡ length ws) × (i < n) × (get_elem? ws i ≢ some joined)
Passed ws _ = Unit

pub Joined-set_ended :
    (i k : ℕ) (ws : List Worker)
    → get_elem? ws k ≡ some working
    → Joined i ws
    → Joined i (set ws k ended)
Joined-set_ended zero k ws e j = tt
Joined-set_ended (suc i) k [] e j = tt
Joined-set_ended (suc i) zero (w ∷ ws) e (j, js) = absurd (cc)
Joined-set_ended (suc i) (suc k) (w ∷ ws) e (j, js) = (j, Joined-set_ended i k ws e js)

pub Joined-suc :
    (i : ℕ) (ws : List Worker) → get_elem? ws i ≡ some joined → Joined i ws → Joined (suc i) ws
Joined-suc i [] e j = tt
Joined-suc zero (w ∷ ws) e j = (cc, tt)
Joined-suc (suc i) (w ∷ ws) e (j, js) = (j, Joined-suc i ws e js)

pub Joined-suc-set : (i : ℕ) (ws : List Worker) → Joined i ws → Joined (suc i) (set ws i joined)
Joined-suc-set i [] j = tt
Joined-suc-set zero (w ∷ ws) j = (refl, tt)
Joined-suc-set (suc i) (w ∷ ws) (j, js) = (j, Joined-suc-set i ws js)

-- At the end of the pool all threads are joined.
pub Joined-length : (ws : List Worker) → Joined (length ws) ws → All IsJoined ws
Joined-length [] j = tt
Joined-length (w ∷ ws) (j, js) = (j, Joined-length ws js)

pub get_elem?-some :
    (ws : List Worker) (i : ℕ) → i < length ws → (w : Worker) × (get_elem? ws i ≡ some w)
get_elem?-some [] i h = absurd (omega arith)
get_elem?-some (w ∷ ws) zero h = (w, refl)
get_elem?-some (w ∷ ws) (suc i) h = get_elem?-some ws i (omega arith)

get_elem?-set_ended :
    (ws : List Worker) (i k : ℕ)
    → get_elem? (set ws k ended) i ≡ some joined
    → get_elem? ws i ≡ some joined
get_elem?-set_ended [] i k e = e
get_elem?-set_ended (w ∷ ws) zero zero e = absurd (cc)
get_elem?-set_ended (w ∷ ws) zero (suc k) e = e
get_elem?-set_ended (w ∷ ws) (suc i) zero e = e
get_elem?-set_ended (w ∷ ws) (suc i) (suc k) e = get_elem?-set_ended ws i k e

pub length-set : (ws : List Worker) (i : ℕ) (v : Worker) → length (set ws i v) ≡ length ws
length-set [] i v = refl
length-set (w ∷ ws) zero v = refl
length-set (w ∷ ws) (suc i) v = omega (arith, length-set ws i v)

pub Passed-set_ended :
    (k : ℕ) (ws : List Worker)
    → get_elem? ws k ≡ some working
    → (p : Point) → Passed ws p
    → Passed (set ws k ended) p
Passed-set_ended k ws e (joining i n) (j, same, le) =
    (Joined-set_ended i k ws e j, omega (arith, same, length-set ws k ended), le)
Passed-set_ended k ws e (waiting i n) (j, same, lt, open') = (
  Joined-set_ended i k ws e j,
  omega (arith, same, length-set ws k ended),
  lt,
  λ q. open' (get_elem?-set_ended ws i k q),
)
Passed-set_ended k ws e entered j = tt
Passed-set_ended k ws e found_running j = tt
Passed-set_ended k ws e at_pool j = tt
Passed-set_ended k ws e at_acceptor j = tt
Passed-set_ended k ws e found_open j = tt
Passed-set_ended k ws e returned j = tt
Passed-set_ended k ws e thrown j = tt
Passed-set_ended k ws e undefined j = tt

-- A call that is not in the loop does not depend on the pool.
Passed-out : (ws : List Worker) (p : Point) → in_loop p ≡ 0 → Passed ws p
Passed-out ws (joining i n) e = absurd (omega (arith, e))
Passed-out ws (waiting i n) e = absurd (omega (arith, e))
Passed-out ws entered e = tt
Passed-out ws found_running e = tt
Passed-out ws at_pool e = tt
Passed-out ws at_acceptor e = tt
Passed-out ws found_open e = tt
Passed-out ws returned e = tt
Passed-out ws thrown e = tt
Passed-out ws undefined e = tt

pub Passed-others :
    (ws : List Worker) (cs : List StopCall) → tally in_loop cs ≡ 0 → All (λ c. Passed ws c.point) cs
unfolding tally
Passed-others ws [] e = tt
Passed-others ws (c ∷ cs) e =
    (Passed-out ws c.point (omega (arith, e)), Passed-others ws cs (omega (arith, e)))

pub tally_around :
    (weight : Point → ℕ) (before after : List StopCall) (c : StopCall)
    → tally weight (before ++ c ∷ after) ≡ weight c.point + tally weight (before ++ after)
unfolding tally
tally_around weight [] after c = refl
tally_around weight (b ∷ before) after c = omega (arith, tally_around weight before after c)

pub returned-le-past : (cs : List StopCall) → tally has_returned cs ≤ tally past_pool cs
unfolding tally
returned-le-past [] = omega arith
returned-le-past (c ∷ cs) = omega (arith, weighs c.point, returned-le-past cs)
  where
    weighs : (p : Point) → has_returned p ≤ past_pool p
    weighs entered = omega arith
    weighs found_running = omega arith
    weighs at_pool = omega arith
    weighs (joining i n) = omega arith
    weighs (waiting i n) = omega arith
    weighs undefined = omega arith
    weighs at_acceptor = omega arith
    weighs found_open = omega arith
    weighs returned = omega arith
    weighs thrown = omega arith

-- Of all calls, those around one and that one.
pub All-around {κ} :
    (B : StopCall → Type κ) (before after : List StopCall) (c : StopCall)
    → All B (before ++ c ∷ after)
    → B c × All B (before ++ after)
All-around B [] after c (b, bs) = (b, bs)
All-around B (x ∷ before) after c (b, bs) =
    let (d, ds) = All-around B before after c bs in (d, (b, ds))

pub around-All {κ} :
    (B : StopCall → Type κ) (before after : List StopCall) (c : StopCall)
    → B c
    → All B (before ++ after)
    → All B (before ++ c ∷ after)
around-All B [] after c b bs = (b, bs)
around-All B (x ∷ before) after c b (d, ds) = (d, around-All B before after c b ds)

pub All-map {κ} :
    (B D : StopCall → Type κ) (cs : List StopCall)
    → ((c : StopCall) → B c → D c)
    → All B cs
    → All D cs
All-map B D [] f a = tt
All-map B D (c ∷ cs) f (b, bs) = (f c b, All-map B D cs f bs)
