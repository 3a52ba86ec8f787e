-- ===== src/Base/Dict.antt =====
-- `std::unordered_map` and `std::map` with string keys, as association lists.
use Prim.Native.Nat.{compare, Ordering}
use mathlib.Core.Path.{◌≡◌, refl}
use mathlib.Core.Logic.{ite}
use mathlib.Core.Option.{Option, none, some}
use mathlib.Core.List.{List, [], ◌∷◌}
use native.Mathlib.Omega.{arith}
use httpserver_cpp.Base.Text.{Bytes, bytes_discrete}

abbrev pub Dict {ℓ} : Type ℓ → Type ℓ
Dict V = List (Bytes × V)

-- The order of `std::string`: byte by byte, a prefix first.
unfoldable pub compare_bytes : Bytes → Bytes → Ordering
compare_bytes [] [] = Ordering.eq
compare_bytes [] (y ∷ ys) = Ordering.lt
compare_bytes (x ∷ xs) [] = Ordering.gt
compare_bytes (x ∷ xs) (y ∷ ys) =
    let rest = compare_bytes xs ys in
    elim (compare x y) [
      | Ordering.lt ↦ Ordering.lt
      | Ordering.eq ↦ rest
      | Ordering.gt ↦ Ordering.gt
    ]

pub compare_bytes_eq : (a b : Bytes) → compare_bytes a b ≡ Ordering.eq → a ≡ b
unfolding compare_bytes
compare_bytes_eq [] [] e = refl
compare_bytes_eq [] (y ∷ ys) e = ground arith
compare_bytes_eq (x ∷ xs) [] e = ground arith
compare_bytes_eq (x ∷ xs) (y ∷ ys) e = ground (arith, compare_bytes_eq xs ys)

pub compare_bytes_refl : (a : Bytes) → compare_bytes a a ≡ Ordering.eq
unfolding compare_bytes
compare_bytes_refl [] = refl
compare_bytes_refl (x ∷ xs) = ground (arith, compare_bytes_refl xs)

module _ {ℓ} {V : Type ℓ} where
  unfoldable pub find : Bytes → Dict V → Option V
  find k [] = none
  find k ((j, v) ∷ m) = ite (bytes_discrete j k) (some v) (find k m)

  -- `m[k] = v` on an `unordered_map`.
  unfoldable pub assign : Bytes → V → Dict V → Dict V
  assign k v [] = (k, v) ∷ []
  assign k v ((j, w) ∷ m) = ite (bytes_discrete j k) ((j, v) ∷ m) ((j, w) ∷ assign k v m)

  pub find-assign :
      (k j : Bytes) (v : V) (m : Dict V)
      → find j (assign k v m) ≡ ite (bytes_discrete k j) (some v) (find j m)
  unfolding find assign
  find-assign k j v [] = refl
  find-assign k j v ((i, w) ∷ m) = ground (arith, find-assign k j v m)

  -- `m[k] = v` on a `map`, which is kept in the order of its keys.
  unfoldable pub put : Bytes → V → Dict V → Dict V
  put k v [] = (k, v) ∷ []
  put k v ((j, w) ∷ m) =
      let rest = put k v m in
      elim (compare_bytes k j) [
        | Ordering.lt ↦ (k, v) ∷ (j, w) ∷ m
        | Ordering.eq ↦ (j, v) ∷ m
        | Ordering.gt ↦ (j, w) ∷ rest
      ]

  pub find-put :
      (k j : Bytes) (v : V) (m : Dict V)
      → find j (put k v m) ≡ ite (bytes_discrete k j) (some v) (find j m)
  unfolding find put
  find-put k j v [] = refl
  find-put k j v ((i, w) ∷ m) =
      ground (arith, find-put k j v m, compare_bytes_eq k i, compare_bytes_refl i)
