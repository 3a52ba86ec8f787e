-- ===== src/Statistics/Weave.antt =====
-- src/http_statistics_internal.h: threads that count at the same time.
use httpserver_cpp.Base.{◌≡◌, refl, sym, ◌∙◌, ap, List, [], ◌∷◌, ◌++◌, All}
use httpserver_cpp.Statistics.{HttpStatisticsInternal}
use httpserver_cpp.Statistics.Count.{CounterOp, count, count_all, count_all-append, count_comm}

abbrev Ops : Type 0
Ops = List CounterOp

abbrev pub concat : List Ops → Ops
concat [] = []
concat (l ∷ ls) = l ++ concat ls

-- The threads have nothing left to do.
abbrev pub AllDone : List Ops → Type 0
AllDone ls = All (λ l. l ≡ []) ls

-- The last argument is an interleaving of what the threads do.
pub data Weaves : List Ops → Ops → Type 0 where
  rested : {threads : List Ops} → AllDone threads → Weaves threads []
  moves :
      {threads : List Ops} {ops : Ops} (before after : List Ops) (o : CounterOp) (rest : Ops)
      → threads ≡ before ++ (o ∷ rest) ∷ after
      → Weaves (before ++ rest ∷ after) ops
      → Weaves threads (o ∷ ops)

-- One thread after the other.
unfoldable pub in_order : List Ops → HttpStatisticsInternal → HttpStatisticsInternal
in_order [] st = st
in_order (l ∷ ls) st = in_order ls (count_all l st)

count-count_all :
    (os : Ops) (o : CounterOp) (st : HttpStatisticsInternal)
    → count_all os (count o st) ≡ count o (count_all os st)
unfolding count_all
count-count_all [] o st = refl
count-count_all (p ∷ os) o st =
    ap (count_all os) (count_comm p o st) ∙ count-count_all os o (count p st)

in_order_done : (ls : List Ops) (st : HttpStatisticsInternal) → AllDone ls → in_order ls st ≡ st
unfolding in_order count_all
in_order_done [] st all = refl
in_order_done (l ∷ ls) st (e, all) = rw e (in_order_done ls st all)

-- The first operation of any thread may come first.
in_order_first :
    (before after : List Ops) (o : CounterOp) (rest : Ops) (st : HttpStatisticsInternal)
    → in_order (before ++ (o ∷ rest) ∷ after) st ≡ in_order (before ++ rest ∷ after) (count o st)
unfolding in_order count_all
in_order_first [] after o rest st = refl
in_order_first (l ∷ before) after o rest st =
    in_order_first before after o rest (count_all l st)
    ∙ ap (in_order (before ++ rest ∷ after)) (sym (count-count_all l o st))

-- Any interleaving counts as the threads do one after the other.
pub Weaves-in_order :
    {threads : List Ops} {ops : Ops} (st : HttpStatisticsInternal)
    → Weaves threads ops
    → count_all ops st ≡ in_order threads st
unfolding count_all
Weaves-in_order {threads} st (rested all) = sym (in_order_done threads st all)
Weaves-in_order {ops = o ∷ ops} st (moves before after o' rest e w) =
    Weaves-in_order (count o st) w
    ∙ sym (in_order_first before after o rest st)
    ∙ ap (λ ls. in_order ls st) (sym e)

-- The threads one after the other are one thread that does it all.
pub in_order-concat :
    (ls : List Ops) (st : HttpStatisticsInternal) → in_order ls st ≡ count_all (concat ls) st
unfolding in_order count_all
in_order-concat [] st = refl
in_order-concat (l ∷ ls) st =
    in_order-concat ls (count_all l st) ∙ sym (count_all-append l (concat ls) st)
