-- ===== src/Base/Distinct.antt =====
-- Lists of numbers that are all different.
use Prim.Native.Nat.{ℕ, suc, ◌<◌, ◌≤◌}
use mathlib.Core.Logic.{◌≢◌}
use mathlib.Core.List.{List, [], ◌∷◌, ◌++◌}
use native.Mathlib.Omega.{arith}
use httpserver_cpp.Base.Lists.{All, All-append, append-All}

abbrev pub Distinct : List ℕ → Type 0
Distinct [] = Unit
Distinct (x ∷ xs) = All (λ y. y ≢ x) xs × Distinct xs

pub All-drop : (B : ℕ → Type 0) (xs ys : List ℕ) (y : ℕ) → All B (xs ++ y ∷ ys) → All B (xs ++ ys)
All-drop B xs ys y a =
    let parts = All-append B xs (y ∷ ys) a in append-All B xs ys parts.0 parts.1.1

pub Distinct-drop : (xs ys : List ℕ) (y : ℕ) → Distinct (xs ++ y ∷ ys) → Distinct (xs ++ ys)
Distinct-drop [] ys y (a, d) = d
Distinct-drop (x ∷ xs) ys y (a, d) = (All-drop (λ z. z ≢ x) xs ys y a, Distinct-drop xs ys y d)

pub above :
    (n : ℕ) (xs : List ℕ)
    → All (λ k. (0 < k) × (k ≤ n)) xs
    → All (λ y. y ≢ suc n) xs × All (λ k. (0 < k) × (k ≤ suc n)) xs
above n [] a = (tt, tt)
above n (x ∷ xs) ((low, high), a) =
    let (b, c) = above n xs a in ((λ e. omega arith, b), ((low, omega arith), c))
