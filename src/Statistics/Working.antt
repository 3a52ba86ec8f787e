-- ===== src/Statistics/Working.antt =====
-- src/http_statistics_internal.h: the count of working handlers while threads are at work.
use mathlib.Core.List.{append-nil, append_assoc}
use httpserver_cpp.Base.{
  ℕ, ◌+◌, ◌-◌, ◌^◌, ◌<◌, ◌≤◌, ◌≡◌, refl, sym, ◌∙◌, ap, subst, List, [], ◌∷◌, ◌++◌, All, All-append,
  append-All, length, length-append, arith,
}
use httpserver_cpp.Statistics.{HttpStatisticsInternal}
use httpserver_cpp.Statistics.Count.{
  CounterOp, working_handler_inc, working_handler_dec, count, count_all, count_all-append,
}

abbrev Ops : Type 0
Ops = List CounterOp

-- What the threads have left, and what has been done so far.
pub data Progress (threads : List Ops) : List Ops → Ops → Type 0 where
  unstarted : Progress threads threads []
  ticks :
      {left : List Ops} {ops : Ops} (before after : List Ops) (o : CounterOp) (rest : Ops)
      → left ≡ before ++ (o ∷ rest) ∷ after
      → Progress threads left ops
      → Progress threads (before ++ rest ∷ after) (ops ++ o ∷ [])

abbrev pub enters : CounterOp → ℕ
enters working_handler_inc = 1
enters _ = 0

abbrev leaves : CounterOp → ℕ
leaves working_handler_dec = 1
leaves _ = 0

abbrev pub enter_count : Ops → ℕ
enter_count [] = 0
enter_count (o ∷ os) = enters o + enter_count os

abbrev leave_count : Ops → ℕ
leave_count [] = 0
leave_count (o ∷ os) = leaves o + leave_count os

-- A thread leaves each handler that it enters before it enters another.
abbrev pub IsNested : Ops → Type 0
IsNested [] = Unit
IsNested (o ∷ os) =
    (enter_count (o ∷ os) ≤ leave_count (o ∷ os))
    × (leave_count (o ∷ os) ≤ enter_count (o ∷ os) + 1)
    × IsNested os

-- A thread is inside a handler if it has still to leave one that it does not enter any more.
abbrev pub inside : Ops → ℕ
inside os = leave_count os - enter_count os

-- The threads that are inside a handler.
abbrev pub busy : List Ops → ℕ
busy [] = 0
busy (l ∷ ls) = inside l + busy ls

busy_around :
    (before after : List Ops) (l : Ops)
    → busy (before ++ l ∷ after) ≡ inside l + busy (before ++ after)
busy_around [] after l = refl
busy_around (b ∷ before) after l = omega (arith, busy_around before after l)

pub IsNested-bounds : (l : Ops) → IsNested l → (enter_count l ≤ leave_count l) × (inside l ≤ 1)
IsNested-bounds [] i = omega arith
IsNested-bounds (o ∷ os) i = omega arith

busy-le : (ls : List Ops) → All IsNested ls → busy ls ≤ length ls
busy-le [] all = omega arith
busy-le (l ∷ ls) (i, all) = omega (arith, (IsNested-bounds l i).1, busy-le ls all)

module _ (k : ℕ) where
  -- The handlers that are at work are counted, beside `k` others.
  record IsCounted (n : ℕ) (left : List Ops) (st : HttpStatisticsInternal) : Type 0 where
    nested : All IsNested left
    size : length left ≡ n
    counted : st.working_handler_cnt ≡ k + busy left

  count-counted :
      (o : CounterOp) (rest : Ops) (others : ℕ) (st : HttpStatisticsInternal)
      → IsNested (o ∷ rest)
      → k + (inside rest + others) < 2 ^ 64
      → st.working_handler_cnt ≡ k + (inside (o ∷ rest) + others)
      → (count o st).working_handler_cnt ≡ k + (inside rest + others)
  unfolding count
  count-counted working_handler_inc rest others st i fits e =
      omega (arith, IsNested-bounds rest i.2)
  count-counted working_handler_dec rest others st i fits e =
      omega (arith, IsNested-bounds rest i.2)
  count-counted _ rest others st i fits e = omega arith

  count-IsCounted :
      (n : ℕ) (before after : List Ops) (o : CounterOp) (rest : Ops) (st : HttpStatisticsInternal)
      → k + n < 2 ^ 64
      → IsCounted n (before ++ (o ∷ rest) ∷ after) st
      → IsCounted n (before ++ rest ∷ after) (count o st)
  count-IsCounted n before after o rest st fits i =
      let (front, there) = All-append IsNested before ((o ∷ rest) ∷ after) i.nested in
      let (thread, back) = there in
      let nested = append-All IsNested before (rest ∷ after) front (thread.2, back) in
      let size : length (before ++ rest ∷ after) ≡ n = omega (
        arith,
        i.size,
        length-append before (rest ∷ after),
        length-append before ((o ∷ rest) ∷ after),
      ) in
      record {
        nested = nested;
        size = size;
        counted =
            count-counted o rest (busy (before ++ after)) st thread
              (omega
                (arith, busy-le (before ++ rest ∷ after) nested, busy_around before after rest))
              (i.counted ∙ ap (λ b. k + b) (busy_around before after (o ∷ rest)))
            ∙ ap (λ b. k + b) (sym (busy_around before after rest));
      }

  Progress-IsCounted :
      {threads left : List Ops} {ops : Ops} (st : HttpStatisticsInternal)
      → k + length threads < 2 ^ 64
      → Progress threads left ops
      → IsCounted (length threads) threads st
      → IsCounted (length threads) left (count_all ops st)
  unfolding count_all
  Progress-IsCounted st fits unstarted i = i
  Progress-IsCounted {threads} st fits (ticks {ops} before after o rest e p) i =
      subst (IsCounted (length threads) (before ++ rest ∷ after))
        (sym (count_all-append ops (o ∷ []) st))
        (count-IsCounted (length threads) before after o rest (count_all ops st) fits (
          subst (λ l. IsCounted (length threads) l (count_all ops st)) e
            (Progress-IsCounted st fits p i)))

none_busy : (threads : List Ops) → All (λ l. inside l ≡ 0) threads → busy threads ≡ 0
none_busy [] all = refl
none_busy (l ∷ ls) (e, all) = omega (arith, none_busy ls all)

-- While nested threads are at work, the count of working handlers is what it was at the start and
-- the threads that are inside a handler: it does not wrap.
pub Progress-working :
    {threads left : List Ops} {ops : Ops} (st : HttpStatisticsInternal)
    → st.working_handler_cnt + length threads < 2 ^ 64
    → All IsNested threads
    → All (λ l. inside l ≡ 0) threads
    → Progress threads left ops
    → ((count_all ops st).working_handler_cnt ≡ st.working_handler_cnt + busy left)
      × (busy left ≤ length threads)
Progress-working {threads} {left} st fits nested outside p =
    let i = Progress-IsCounted st.working_handler_cnt st fits p (record {
      nested = nested;
      size = refl;
      counted = omega (arith, none_busy threads outside);
    }) in
    (i.counted, omega (arith, busy-le left i.nested, i.size))

straight :
    {threads : List Ops} (left done : Ops)
    → Progress threads (left ∷ []) done
    → Progress threads ([] ∷ []) (done ++ left)
straight {threads} [] done p = subst (Progress threads ([] ∷ [])) (sym (append-nil done)) p
straight {threads} (o ∷ left) done p =
    subst (Progress threads ([] ∷ [])) (append_assoc done (o ∷ []) left)
      (straight left (done ++ o ∷ []) (ticks [] [] o left refl p))

-- A thread that runs alone leaves the count of working handlers as it was.
pub alone_working :
    (os : Ops) (st : HttpStatisticsInternal)
    → st.working_handler_cnt + 1 < 2 ^ 64
    → IsNested os
    → inside os ≡ 0
    → (count_all os st).working_handler_cnt ≡ st.working_handler_cnt
alone_working os st fits nested outside =
    omega
      (arith, (Progress-working st fits (nested, tt) (outside, tt) (straight os [] unstarted)).0)
