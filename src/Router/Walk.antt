-- ===== src/Router/Walk.antt =====
-- src/http_router.h: the paths of the tree of nodes.
use httpserver_cpp.Base.{
  ℕ, ◌≤◌, ◌<◌, ◌≡◌, refl, ◌∙◌, inl, inr, Option, none, some, Option-cases, List, [], ◌∷◌, arith,
  dec_lt, Bytes, bytes_discrete, ◌++◌,
}
use mathlib.Core.List.{append-nil}
use httpserver_cpp.Base.Dict.{find}
use httpserver_cpp.Router.{empty, Heap, root}
use httpserver_cpp.Router.Shape.{child, datum, IsTree, Grows}

-- The keys that a loop over segments reads: those before the first empty one.
unfoldable pub cut : List Bytes → List Bytes
cut [] = []
cut ([] ∷ ks) = []
cut ((c ∷ cs) ∷ ks) = (c ∷ cs) ∷ cut ks

abbrev pub IsPrefix : List Bytes → List Bytes → Type 0
IsPrefix js ks = (rest : List Bytes) × (ks ≡ js ++ rest)

unfoldable pub path_discrete : Discrete (List Bytes)
path_discrete = hlevel bytes_discrete

rev_onto : List Bytes → List Bytes → List Bytes
rev_onto [] r = r
rev_onto (k ∷ ks) r = rev_onto ks (k ∷ r)

rev_onto_twice : (ks r s : List Bytes) → rev_onto (rev_onto ks r) s ≡ rev_onto r (ks ++ s)
unfolding rev_onto
rev_onto_twice [] r s = refl
rev_onto_twice (k ∷ ks) r s = rev_onto_twice ks (k ∷ r) s

rev_onto_injective : (ks js : List Bytes) → rev_onto ks [] ≡ rev_onto js [] → ks ≡ js
unfolding rev_onto
rev_onto_injective ks js e =
    cc (rev_onto_twice ks [] [], rev_onto_twice js [] [], append-nil ks, append-nil js)

module _ {ℓ} {T : Type ℓ} where
  -- The node that a path leads to from the node at `a`.
  unfoldable pub walk : Heap T → ℕ → List Bytes → Option ℕ
  walk h a [] = some a
  walk h a (k ∷ ks) = elim (child h a k) [ none ↦ none | some b ↦ walk h b ks ]

  pub walk-cons :
      (h : Heap T) (a : ℕ) (k : Bytes) (ks : List Bytes) {b : ℕ}
      → child h a k ≡ some b
      → walk h a (k ∷ ks) ≡ walk h b ks
  unfolding walk
  walk-cons h a k ks e = rw (e, walk)

  -- The data that the tree holds under a path.
  unfoldable pub view : Heap T → List Bytes → Option T
  view h ks = elim (walk h root ks) [ none ↦ none | some b ↦ datum h b ]

  pub walk-le :
      (h : Heap T) (a : ℕ) (ks : List Bytes) (b : ℕ) → IsTree h → walk h a ks ≡ some b → a ≤ b
  unfolding walk
  walk-le h a [] b t e = ground arith
  walk-le h a (k ∷ ks) b t e = elim (Option-cases (child h a k)) [
    | inl miss ↦ absurd (ground arith)
    | inr (c, hit) ↦ ground (arith, t.below a k c, walk-le h c ks b t)
  ]

  pub walk-lt :
      (h : Heap T) (a : ℕ) (ks : List Bytes) (b : ℕ)
      → IsTree h
      → a < h.next
      → walk h a ks ≡ some b
      → b < h.next
  unfolding walk
  walk-lt h a [] b t p e = ground arith
  walk-lt h a (k ∷ ks) b t p e = elim (Option-cases (child h a k)) [
    | inl miss ↦ absurd (ground arith)
    | inr (c, hit) ↦ ground (arith, t.below a k c, walk-lt h c ks b t)
  ]

  module _ (h h' : Heap T) (g : Grows h h') where
    pub walk-keeps :
        (a : ℕ) (ks : List Bytes) (b : ℕ) → walk h a ks ≡ some b → walk h' a ks ≡ some b
    unfolding walk
    walk-keeps a [] b e = e
    walk-keeps a (k ∷ ks) b e = elim (Option-cases (child h a k)) [
      | inl miss ↦ absurd (ground arith)
      | inr (c, hit) ↦ ground (arith, g.keeps a k c, walk-keeps c ks b)
    ]

    pub walk-old :
        (a : ℕ) (ks : List Bytes) (b : ℕ)
        → IsTree h'
        → walk h' a ks ≡ some b
        → b < h.next
        → walk h a ks ≡ some b
    unfolding walk
    walk-old a [] b t e p = e
    walk-old a (k ∷ ks) b t e p = elim (Option-cases (child h' a k)) [
      | inl miss ↦ absurd (ground arith)
      | inr (c, hit) ↦ ground (arith, g.adds a k c hit, walk-le h' c ks b t, walk-old c ks b t)
    ]

    -- Growth does not change what the tree holds.
    pub view-Grows : (ks : List Bytes) → IsTree h → IsTree h' → view h' ks ≡ view h ks
    unfolding view
    view-Grows ks t t' = elim (Option-cases (walk h root ks)) [
      | inr (b, e) ↦
          ground (arith, walk-keeps root ks b e, walk-lt h root ks b t t.rooted e, g.old_data b)
      | inl e ↦ elim (Option-cases (walk h' root ks)) [
        | inl e' ↦ ground arith
        | inr (b, e') ↦ elim (dec_lt b h.next) [
          | yes old ↦ absurd (cc (walk-old root ks b t' e' old))
          | no far ↦ ground (arith, g.new_data b)
        ]
      ]
    ]

  -- The path read upwards.
  walk_up : Heap T → List Bytes → Option ℕ
  walk_up h [] = some root
  walk_up h (k ∷ r) = elim (walk_up h r) [ none ↦ none | some a ↦ child h a k ]

  walk_up-rev_onto :
      (h : Heap T) (a : ℕ) (ks r : List Bytes) (b : ℕ)
      → walk_up h r ≡ some a
      → walk h a ks ≡ some b
      → walk_up h (rev_onto ks r) ≡ some b
  unfolding walk walk_up rev_onto
  walk_up-rev_onto h a [] r b p e = p ∙ e
  walk_up-rev_onto h a (k ∷ ks) r b p e = elim (Option-cases (child h a k)) [
    | inl miss ↦ absurd (ground arith)
    | inr (c, hit) ↦ walk_up-rev_onto h c ks (k ∷ r) b (ground arith) (ground arith)
  ]

  walk_up_injective :
      (h : Heap T) (r s : List Bytes) (b : ℕ)
      → IsTree h
      → walk_up h r ≡ some b
      → walk_up h s ≡ some b
      → r ≡ s
  unfolding walk_up
  walk_up_injective h [] [] b t p q = refl
  walk_up_injective h [] (k ∷ s) b t p q = elim (Option-cases (walk_up h s)) [
    | inl e ↦ absurd (ground arith)
    | inr (a, e) ↦ absurd (ground (arith, t.below a k b))
  ]
  walk_up_injective h (k ∷ r) [] b t p q = elim (Option-cases (walk_up h r)) [
    | inl e ↦ absurd (ground arith)
    | inr (a, e) ↦ absurd (ground (arith, t.below a k b))
  ]
  walk_up_injective h (k ∷ r) (j ∷ s) b t p q = elim (Option-cases (walk_up h r)) [
    | inl e ↦ absurd (ground arith)
    | inr (a, e) ↦ elim (Option-cases (walk_up h s)) [
      | inl e' ↦ absurd (ground arith)
      | inr (a', e') ↦ ground (arith, t.unique a a' k j b, walk_up_injective h r s a t e)
    ]
  ]

  -- In a tree two paths to one node are equal.
  pub walk_injective :
      (h : Heap T) (ks js : List Bytes) (b : ℕ)
      → IsTree h
      → walk h root ks ≡ some b
      → walk h root js ≡ some b
      → ks ≡ js
  unfolding walk_up
  walk_injective h ks js b t p q = rev_onto_injective ks js (
      walk_up_injective h (rev_onto ks []) (rev_onto js []) b t
        (walk_up-rev_onto h root ks [] b refl p) (walk_up-rev_onto h root js [] b refl q))

  pub walk-snoc :
      (h : Heap T) (a : ℕ) (ks : List Bytes) (k : Bytes) (e : ℕ)
      → walk h a ks ≡ some e
      → walk h a (ks ++ k ∷ []) ≡ child h e k
  unfolding walk
  walk-snoc h a [] k e w = elim (Option-cases (child h a k)) [
    | inl miss ↦ ground arith
    | inr (c, hit) ↦ ground arith
  ]
  walk-snoc h a (j ∷ ks) k e w = elim (Option-cases (child h a j)) [
    | inl miss ↦ absurd (ground arith)
    | inr (c, hit) ↦ walk-cons h a j (ks ++ k ∷ []) hit ∙ walk-snoc h c ks k e (ground arith)
  ]

-- A new router.
module _ {ℓ} (T : Type ℓ) where
  child-empty : (a : ℕ) (k : Bytes) → child (empty {T = T}) a k ≡ none
  unfolding child empty find
  child-empty a k = ground arith

  -- A new router has no node but the root.
  pub walk-empty : (ks : List Bytes) (b : ℕ) → walk (empty {T = T}) root ks ≡ some b → ks ≡ []
  unfolding walk
  walk-empty [] b w = refl
  walk-empty (k ∷ ks) b w = absurd (ground (arith, child-empty root k))

  -- Nor has it data.
  pub view-empty : (ks : List Bytes) → view (empty {T = T}) ks ≡ none
  unfolding view walk datum empty
  view-empty [] = ground arith
  view-empty (k ∷ ks) = ground (arith, child-empty root k)
