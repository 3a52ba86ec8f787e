-- ===== src/Base/Lists.antt =====
-- Lists measured by native numbers, and predicates on them.
use Prim.Native.Nat.{ℕ, suc, ◌+◌}
use mathlib.Core.Path.{◌≡◌, refl}
use mathlib.Core.Logic.{◌⊎◌, inl, inr}
use mathlib.Core.Bool.{false}
use mathlib.Core.List.{List, [], ◌∷◌, ◌++◌}
use native.Mathlib.Omega.{arith}
use httpserver_cpp.Base.Tests.{ltb}

module _ {ℓ} {A : Type ℓ} where
  abbrev pub length : List A → ℕ
  length [] = 0
  length (x ∷ xs) = suc (length xs)

  pub length-append : (xs ys : List A) → length (xs ++ ys) ≡ length xs + length ys
  length-append [] ys = omega arith
  length-append (x ∷ xs) ys = omega (arith, length-append xs ys)

pub nil_of_length {ℓ} : {A : Type ℓ} (xs : List A) → ltb 0 (length xs) ≡ false → xs ≡ []
nil_of_length [] e = refl
nil_of_length (x ∷ xs) e = absurd (ground arith)

pub List-cases {ℓ} :
    {A : Type ℓ} (xs : List A) → (xs ≡ []) ⊎ ((x : A) × (rest : List A) × (xs ≡ x ∷ rest))
List-cases [] = inl refl
List-cases (x ∷ xs) = inr (x, xs, refl)

abbrev pub All {ℓ κ} : {A : Type ℓ} → (A → Type κ) → List A → Type κ
All P [] = Unit
All P (x ∷ xs) = P x × All P xs

module _ {ℓ κ} {A : Type ℓ} (B : A → Type κ) where
  pub All-append : (xs ys : List A) → All B (xs ++ ys) → All B xs × All B ys
  All-append [] ys a = (tt, a)
  All-append (x ∷ xs) ys (b, a) = let (c, d) = All-append xs ys a in ((b, c), d)

  pub append-All : (xs ys : List A) → All B xs → All B ys → All B (xs ++ ys)
  append-All [] ys c d = d
  append-All (x ∷ xs) ys (b, c) d = (b, append-All xs ys c d)
