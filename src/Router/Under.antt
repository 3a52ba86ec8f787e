-- ===== src/Router/Under.antt =====
-- src/http_router.h: the nodes under a node, which are those that its destructor deletes.
use httpserver_cpp.Base.{
  ℕ, suc, zero, ◌≤◌, ◌<◌, ◌≡◌, refl, sym, ◌∙◌, ap, ◌⊎◌, inl, inr, none, some, [], ◌∷◌, arith,
  dec_lt, Bytes, bytes_discrete,
}
use httpserver_cpp.Base.Dict.{Dict, find}
use httpserver_cpp.Router.{HttpPathNode, Heap, root}
use httpserver_cpp.Router.Shape.{child, child_of_cell, IsTree}
use httpserver_cpp.Router.Whole.{IsWhole, Keyed, entries_of_cell}

module _ {ℓ} {T : Type ℓ} where
  -- The node at `c` is that at `a`, or a descendant of it.
  pub data Under (h : Heap T) (a : ℕ) : ℕ → Type 0 where
    self : {c : ℕ} → c ≡ a → Under h a c
    step : {c : ℕ} (p : ℕ) (k : Bytes) → Under h a p → child h p k ≡ some c → Under h a c

  -- It is under a child that is listed.
  abbrev pub UnderAny : Heap T → Dict ℕ → ℕ → Type 0
  UnderAny h [] c = ⊥
  UnderAny h ((k, b) ∷ cs) c = Under h b c ⊎ UnderAny h cs c

  -- The list holds children of the node at `a`, each once.
  abbrev pub Fan : Heap T → ℕ → Dict ℕ → Type 0
  Fan h a [] = Unit
  Fan h a ((k, b) ∷ cs) = (child h a k ≡ some b) × (find k cs ≡ none) × Fan h a cs

  module _ (h : Heap T) (t : IsTree h) where
    pub Under-le : (a : ℕ) {c : ℕ} → Under h a c → a ≤ c
    Under-le a (self e) = omega arith
    Under-le a {c} (step p k u e) = omega (arith, Under-le a u, t.below p k c e)

    pub Under-lt : (a : ℕ) {c : ℕ} → a < h.next → Under h a c → c < h.next
    Under-lt a lo (self e) = omega arith
    Under-lt a {c} lo (step p k u e) = (t.below p k c e).1

    -- What is under a child is not under its parent's other children.
    not-Under_parent :
        (a b : ℕ) (k : Bytes) (p : ℕ) (k' : Bytes)
        → child h a k ≡ some b
        → child h p k' ≡ some b
        → ¬ Under h b p
    not-Under_parent a b k p k' e e' u = absurd (omega (arith, Under-le b u, t.below p k' b e'))

    sibling_above :
        (a b b' : ℕ) (k k' : Bytes) {c : ℕ}
        → child h a k ≡ some b
        → child h a k' ≡ some b'
        → c ≡ b
        → Under h b' c
        → b ≡ b'
    sibling_above a b b' k k' e e' at (self f) = cc
    sibling_above a b b' k k' {c} e e' at (step p j u f) =
        let same = t.unique p a j k b (f ∙ ap some at) e in
        absurd (omega (arith, same.0, Under-le b' u, t.below a k' b' e'))

    pub siblings :
        (a b b' : ℕ) (k k' : Bytes) {c : ℕ}
        → child h a k ≡ some b
        → child h a k' ≡ some b'
        → Under h b c
        → Under h b' c
        → b ≡ b'
    siblings a b b' k k' e e' (self at) u = sibling_above a b b' k k' e e' at u
    siblings a b b' k k' e e' (step p j u f) (self at) =
        sym (sibling_above a b' b k' k e' e at (step p j u f))
    siblings a b b' k k' {c} e e' (step p j u f) (step q i v g) =
        siblings a b b' k k' e e' u (rw ((t.unique p q j i c f g).0) v)

    pub apart :
        (a b : ℕ) (k : Bytes) (cs : Dict ℕ) (c : ℕ)
        → child h a k ≡ some b
        → find k cs ≡ none
        → Fan h a cs
        → Under h b c
        → ¬ UnderAny h cs c
    unfolding find
    apart a b k [] c e out fan u any = any
    apart a b k ((k', b') ∷ cs) c e out fan u (inl v) =
        ground (arith, siblings a b b' k k' e fan.0 u v, t.unique a a k k' b)
    apart a b k ((k', b') ∷ cs) c e out fan u (inr any) =
        apart a b k cs c e (ground arith) fan.2 u any

    below_child : (a b : ℕ) (k : Bytes) {c : ℕ} → child h a k ≡ some b → Under h b c → Under h a c
    below_child a b k e (self at) = step a k (self refl) (e ∙ ap some (sym at))
    below_child a b k e (step p j u f) = step p j (below_child a b k e u) f

    pub beneath : (a : ℕ) (cs : Dict ℕ) (c : ℕ) → Fan h a cs → UnderAny h cs c → Under h a c
    beneath a [] c fan any = absurd any
    beneath a ((k, b) ∷ cs) c fan (inl u) = below_child a b k fan.0 u
    beneath a ((k, b) ∷ cs) c fan (inr any) = beneath a cs c fan.2 any

    any_of_find : (cs : Dict ℕ) (k : Bytes) (c : ℕ) → find k cs ≡ some c → UnderAny h cs c
    unfolding find
    any_of_find [] k c e = absurd (ground arith)
    any_of_find ((j, b) ∷ cs) k c e = elim (bytes_discrete j k) [
      | yes same ↦ inl (self (ground arith))
      | no other ↦ inr (any_of_find cs k c (ground arith))
    ]

    any_step :
        (cs : Dict ℕ) (p : ℕ) (k : Bytes) (c : ℕ)
        → child h p k ≡ some c
        → UnderAny h cs p
        → UnderAny h cs c
    any_step [] p k c e any = any
    any_step ((j, b) ∷ cs) p k c e (inl u) = inl (step p k u e)
    any_step ((j, b) ∷ cs) p k c e (inr any) = inr (any_step cs p k c e any)

    -- A node under `a` is that at `a`, or it is under a child of it.
    pub Under-cases :
        (a : ℕ) (node : HttpPathNode T) {c : ℕ}
        → h.cells a ≡ some node
        → Under h a c
        → (c ≡ a) ⊎ UnderAny h node.children c
    Under-cases a node at (self e) = inl e
    Under-cases a node {c} at (step p k u e) = elim (Under-cases a node at u) [
      | inl same ↦
          inr (any_of_find node.children k c (sym (child_of_cell h a k node at) ∙ (rw (← same) e)))
      | inr any ↦ inr (any_step node.children p k c e any)
    ]

  -- The keys of the list are keys of the node.
  abbrev Listed : Heap T → ℕ → Dict ℕ → Type 0
  Listed h a cs = (k : Bytes) (b : ℕ) → find k cs ≡ some b → child h a k ≡ some b

  Keyed-Fan : (h : Heap T) (a : ℕ) (cs : Dict ℕ) → Keyed cs → Listed h a cs → Fan h a cs
  unfolding find
  Keyed-Fan h a [] d listed = tt
  Keyed-Fan h a ((k, b) ∷ cs) (out, d) listed = (
    listed k b (ground arith),
    out,
    Keyed-Fan h a cs d (λ j c e.
        listed j c (elim (bytes_discrete k j) [
          | yes same ↦ absurd (ground arith)
          | no other ↦ ground arith
        ])),
  )

  -- The children of a node fan out.
  pub children-Fan :
      (h : Heap T) (a : ℕ) (node : HttpPathNode T)
      → IsWhole h
      → h.cells a ≡ some node
      → Fan h a node.children
  children-Fan h a node w at =
      Keyed-Fan h a node.children (rw (← entries_of_cell h a node at) (w.keyed a))
        (λ k b e. child_of_cell h a k node at ∙ e)

  reached : (h : Heap T) (n b : ℕ) → IsWhole h → b < n → b < h.next → Under h root b
  reached h zero b w few lo = absurd (omega arith)
  reached h (suc n) b w few lo = elim (dec_lt root b) [
    | no top ↦ self (omega arith)
    | yes inside ↦
        let (a, k, e) = w.held b inside lo in
        let (order, bound) = w.tree.below a k b e in
        step a k (reached h n a w (omega arith) (omega arith)) e
  ]

  -- Each node is under the root.
  pub root-Under : (h : Heap T) (b : ℕ) → IsWhole h → b < h.next → Under h root b
  root-Under h b w lo = reached h (suc b) b w (omega arith) lo
