-- ===== src/Base/Ascending.antt =====
-- The order of the keys of a `std::map`.
use Prim.Native.Nat.{Ordering}
use mathlib.Core.Path.{◌≡◌, refl}
use mathlib.Core.Logic.{◌⊎◌, inl, inr}
use mathlib.Core.List.{[], ◌∷◌}
use native.Mathlib.Omega.{arith}
use httpserver_cpp.Base.Lists.{All}
use httpserver_cpp.Base.Text.{Bytes}
use httpserver_cpp.Base.Dict.{Dict, compare_bytes, put}

-- One text comes before another.
abbrev pub Before : Bytes → Bytes → Type 0
Before a b = compare_bytes a b ≡ Ordering.lt

Before-trans : (a b c : Bytes) → Before a b → Before b c → Before a c
unfolding compare_bytes
Before-trans [] [] c p q = absurd (ground arith)
Before-trans [] (y ∷ b) [] p q = absurd (ground arith)
Before-trans [] (y ∷ b) (z ∷ c) p q = refl
Before-trans (x ∷ a) [] c p q = absurd (ground arith)
Before-trans (x ∷ a) (y ∷ b) [] p q = absurd (ground arith)
Before-trans (x ∷ a) (y ∷ b) (z ∷ c) p q = ground (arith, Before-trans a b c)

swapped-Before : (a b : Bytes) → compare_bytes a b ≡ Ordering.gt → Before b a
unfolding compare_bytes
swapped-Before [] [] e = absurd (ground arith)
swapped-Before [] (y ∷ b) e = absurd (ground arith)
swapped-Before (x ∷ a) [] e = refl
swapped-Before (x ∷ a) (y ∷ b) e = ground (arith, swapped-Before a b)

ordering_cases : (o : Ordering) → (o ≡ Ordering.lt) ⊎ ((o ≡ Ordering.eq) ⊎ (o ≡ Ordering.gt))
ordering_cases Ordering.lt = inl refl
ordering_cases Ordering.eq = inr (inl refl)
ordering_cases Ordering.gt = inr (inr refl)

module _ {ℓ} {V : Type ℓ} where
  -- The keys ascend, so that none occurs twice.
  abbrev pub IsAscending : Dict V → Type ℓ
  IsAscending [] = Unit
  IsAscending ((k, v) ∷ m) = All (λ e. Before k e.0) m × IsAscending m

  all_after :
      (a b : Bytes) (m : Dict V)
      → Before a b
      → All (λ e. Before b e.0) m
      → All (λ e. Before a e.0) m
  all_after a b [] p all = tt
  all_after a b ((k, v) ∷ m) p (q, all) = (Before-trans a b k p q, all_after a b m p all)

  put_after :
      (a k : Bytes) (v : V) (m : Dict V)
      → Before a k
      → All (λ e. Before a e.0) m
      → All (λ e. Before a e.0) (put k v m)
  unfolding put
  put_after a k v [] p all = (p, tt)
  put_after a k v ((j, w) ∷ m) p (q, all) =
      elim (compare_bytes k j)
        as (λ o.
          All (λ e. Before a e.0)
            (elim o [
              | Ordering.lt ↦ (k, v) ∷ (j, w) ∷ m
              | Ordering.eq ↦ (j, v) ∷ m
              | Ordering.gt ↦ (j, w) ∷ put k v m
            ])) [
              | Ordering.lt ↦ (p, (q, all))
              | Ordering.eq ↦ (q, all)
              | Ordering.gt ↦ (q, put_after a k v m p all)
            ]

  pub put-IsAscending : (k : Bytes) (v : V) (m : Dict V) → IsAscending m → IsAscending (put k v m)
  unfolding put
  put-IsAscending k v [] i = (tt, tt)
  put-IsAscending k v ((j, w) ∷ m) (all, i) = elim (ordering_cases (compare_bytes k j)) [
    | inl lt ↦ rw (lt, put) ((lt, all_after k j m lt all), (all, i))
    | inr (inl eq) ↦ rw (eq, put) (all, i)
    | inr (inr gt) ↦
        rw (gt, put) (put_after j k v m (swapped-Before k j gt) all, put-IsAscending k v m i)
  ]
