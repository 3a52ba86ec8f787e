-- ===== src/Statistics/Advances.antt =====
-- src/http_statistics_internal.h: threads at work, cut at any moment.
use mathlib.Core.List.{append-nil, append_assoc}
use httpserver_cpp.Base.{◌≡◌, refl, sym, subst, List, [], ◌∷◌, ◌++◌}
use httpserver_cpp.Statistics.Count.{CounterOp}
use httpserver_cpp.Statistics.Working.{Progress, unstarted, ticks}

abbrev Ops : Type 0
Ops = List CounterOp

-- The threads make the operations, in this order, and are left with these.
pub data Advances : List Ops → List Ops → Ops → Type 0 where
  rests : {threads left : List Ops} → threads ≡ left → Advances threads left []
  moves :
      {threads left : List Ops} {ops : Ops} (before after : List Ops) (o : CounterOp) (rest : Ops)
      → threads ≡ before ++ (o ∷ rest) ∷ after
      → Advances (before ++ rest ∷ after) left ops
      → Advances threads left (o ∷ ops)

-- The moment after the first of the operations.
pub Advances-split :
    {threads left : List Ops} (xs ys : Ops)
    → Advances threads left (xs ++ ys)
    → (mid : List Ops) × Advances threads mid xs × Advances mid left ys
Advances-split {threads} [] ys a = (threads, rests refl, a)
Advances-split (x ∷ xs) ys (moves before after o rest e a) =
    let (mid, first, second) = Advances-split xs ys a in
    (mid, moves before after x rest e first, second)

Progress-trans :
    {a b c : List Ops} {xs ys : Ops} → Progress a b xs → Progress b c ys → Progress a c (xs ++ ys)
Progress-trans {a} {b} {xs = xs} p unstarted = subst (Progress a b) (sym (append-nil xs)) p
Progress-trans {a} {xs = xs} p (ticks {ops} before after o rest e q) =
    subst (Progress a (before ++ rest ∷ after)) (append_assoc xs ops (o ∷ []))
      (ticks before after o rest e (Progress-trans p q))

pub Advances-Progress :
    {threads left : List Ops} {ops : Ops} → Advances threads left ops → Progress threads left ops
Advances-Progress {threads} (rests e) = subst (λ l. Progress threads l []) e unstarted
Advances-Progress (moves before after o rest e a) =
    Progress-trans (ticks before after o rest e unstarted) (Advances-Progress a)
