-- ===== src/Statistics/Serving.antt =====
-- src/http_statistics_internal.h: the requests that threads have read and not yet handled.
use httpserver_cpp.Base.{
  ℕ, ◌+◌, ◌^◌, ◌<◌, ◌≤◌, ◌≡◌, subst, List, [], ◌∷◌, ◌++◌, All, All-append, append-All, length,
  arith,
}
use httpserver_cpp.Statistics.{HttpStatisticsInternal}
use httpserver_cpp.Statistics.Count.{
  CounterOp, read_success_inc, handle_request_inc, count, count_all,
}
use httpserver_cpp.Statistics.Working.{Progress, unstarted, ticks, inside, busy}

abbrev Ops : Type 0
Ops = List CounterOp

abbrev reads : CounterOp → ℕ
reads read_success_inc = 1
reads _ = 0

abbrev handles : CounterOp → ℕ
handles handle_request_inc = 1
handles _ = 0

abbrev pub read_count : Ops → ℕ
read_count [] = 0
read_count (o ∷ os) = reads o + read_count os

abbrev pub handle_count : Ops → ℕ
handle_count [] = 0
handle_count (o ∷ os) = handles o + handle_count os

-- A thread handles each request that it has read, after the handler has returned.
abbrev pub IsServing : Ops → Type 0
IsServing [] = Unit
IsServing (o ∷ os) = (inside (o ∷ os) + read_count (o ∷ os) ≤ handle_count (o ∷ os)) × IsServing os

abbrev pub reads_left : List Ops → ℕ
reads_left [] = 0
reads_left (l ∷ ls) = read_count l + reads_left ls

abbrev pub handles_left : List Ops → ℕ
handles_left [] = 0
handles_left (l ∷ ls) = handle_count l + handles_left ls

pub read_count-append : (os ps : Ops) → read_count (os ++ ps) ≡ read_count os + read_count ps
read_count-append [] ps = omega arith
read_count-append (o ∷ os) ps = omega (arith, read_count-append os ps)

pub handle_count-append :
    (os ps : Ops) → handle_count (os ++ ps) ≡ handle_count os + handle_count ps
handle_count-append [] ps = omega arith
handle_count-append (o ∷ os) ps = omega (arith, handle_count-append os ps)

reads_around :
    (before after : List Ops) (l : Ops)
    → reads_left (before ++ l ∷ after) ≡ read_count l + reads_left (before ++ after)
reads_around [] after l = omega arith
reads_around (b ∷ before) after l = omega (arith, reads_around before after l)

handles_around :
    (before after : List Ops) (l : Ops)
    → handles_left (before ++ l ∷ after) ≡ handle_count l + handles_left (before ++ after)
handles_around [] after l = omega arith
handles_around (b ∷ before) after l = omega (arith, handles_around before after l)

IsServing-bound : (l : Ops) → IsServing l → inside l + read_count l ≤ handle_count l
IsServing-bound [] i = omega arith
IsServing-bound (o ∷ os) i = i.0

serving_left : (ls : List Ops) → All IsServing ls → busy ls + reads_left ls ≤ handles_left ls
serving_left [] all = omega arith
serving_left (l ∷ ls) (i, all) = omega (arith, IsServing-bound l i, serving_left ls all)

-- What has been done and what is left make up the whole.
record IsPart (threads left : List Ops) (ops : Ops) : Type 0 where
  serving : All IsServing left
  handled : handle_count ops + handles_left left ≡ handles_left threads
  read : read_count ops + reads_left left ≡ reads_left threads

Progress-IsPart :
    {threads left : List Ops} {ops : Ops}
    → Progress threads left ops
    → All IsServing threads
    → IsPart threads left ops
Progress-IsPart unstarted all = record { serving = all; handled = omega arith; read = omega arith }
Progress-IsPart {threads} (ticks {left} {ops} before after o rest e p) all =
    let i : IsPart threads (before ++ (o ∷ rest) ∷ after) ops =
      subst (λ l. IsPart threads l ops) e (Progress-IsPart p all) in
    let (front, there) = All-append IsServing before ((o ∷ rest) ∷ after) i.serving in
    let (thread, back) = there in
    record {
      serving = append-All IsServing before (rest ∷ after) front (thread.1, back);
      handled = omega (
        arith,
        i.handled,
        handle_count-append ops (o ∷ []),
        handles_around before after rest,
        handles_around before after (o ∷ rest),
      );
      read = omega (
        arith,
        i.read,
        read_count-append ops (o ∷ []),
        reads_around before after rest,
        reads_around before after (o ∷ rest),
      );
    }

-- Threads that handle all that they read: at any moment, the requests that have been handled and
-- those whose handlers are at work are no more than those that have been read.
pub Progress-served :
    {threads left : List Ops} {ops : Ops}
    → All IsServing threads
    → handles_left threads ≡ reads_left threads
    → Progress threads left ops
    → handle_count ops + busy left ≤ read_count ops
Progress-served {left = left} all whole p =
    let i = Progress-IsPart p all in omega (arith, i.handled, i.read, serving_left left i.serving)

pub handled_counted :
    (os : Ops) (st : HttpStatisticsInternal)
    → st.handle_request_cnt + length os < 2 ^ 64
    → (count_all os st).handle_request_cnt ≡ st.handle_request_cnt + handle_count os
unfolding count_all count
handled_counted [] st h = omega arith
handled_counted (handle_request_inc ∷ os) st h =
    omega (arith, handled_counted os (count handle_request_inc st) (omega arith))
handled_counted (o ∷ os) st h = omega (arith, handled_counted os (count o st) (omega arith))

pub read_counted :
    (os : Ops) (st : HttpStatisticsInternal)
    → st.read_success_cnt + length os < 2 ^ 64
    → (count_all os st).read_success_cnt ≡ st.read_success_cnt + read_count os
unfolding count_all count
read_counted [] st h = omega arith
read_counted (read_success_inc ∷ os) st h =
    omega (arith, read_counted os (count read_success_inc st) (omega arith))
read_counted (o ∷ os) st h = omega (arith, read_counted os (count o st) (omega arith))
