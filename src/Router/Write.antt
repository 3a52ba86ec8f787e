-- ===== src/Router/Write.antt =====
-- src/http_router.h: one write of `data_` in the tree.
use httpserver_cpp.Base.{
  ℕ, ◌<◌, ◌≡◌, refl, sym, ◌∙◌, inl, inr, some, ite, Option-cases, List, [], ◌∷◌, arith, ℕ_discrete,
  Bytes,
}
use httpserver_cpp.Base.Result.{ok}
use httpserver_cpp.Router.{update, HttpPathNode, Heap, root, set_data}
use httpserver_cpp.Router.Shape.{child, datum, IsTree}
use httpserver_cpp.Router.Walk.{path_discrete, walk, view, walk_injective}

module _ {ℓ} {T : Type ℓ} where
  -- The heap after a write of data.
  abbrev pub written : Heap T → ℕ → T → HttpPathNode T → Heap T
  written h p d node = record h { cells = update h.cells p (some (record node { data_ = some d })) }

  module _ (h : Heap T) (p : ℕ) (d : T) (node : HttpPathNode T) (at : h.cells p ≡ some node) where
    pub child-written : (a : ℕ) (k : Bytes) → child (written h p d node) a k ≡ child h a k
    unfolding child
    child-written a k = ground arith

    datum-written :
        (a : ℕ) → datum (written h p d node) a ≡ ite (ℕ_discrete p a) (some d) (datum h a)
    unfolding datum
    datum-written a = ground arith

    pub written-IsTree : IsTree h → IsTree (written h p d node)
    written-IsTree t = record {
      rooted = t.rooted;
      live = λ a q. elim (ℕ_discrete p a) [
        | yes e ↦ (record node { data_ = some d }, ground arith)
        | no e ↦ let (other, f) = t.live a q in (other, ground arith)
      ];
      dead = λ a q. ground (arith, t.dead a q);
      below = λ a k b e. t.below a k b (sym (child-written a k) ∙ e);
      unique = λ a a' k k' b e e'.
          t.unique a a' k k' b (sym (child-written a k) ∙ e) (sym (child-written a' k') ∙ e');
    }

    walk-written : (a : ℕ) (ks : List Bytes) → walk (written h p d node) a ks ≡ walk h a ks
    unfolding walk
    walk-written a [] = refl
    walk-written a (k ∷ ks) = elim (Option-cases (child h a k)) [
      | inl miss ↦ ground (arith, child-written a k)
      | inr (b, hit) ↦ ground (arith, child-written a k, walk-written b ks)
    ]

    view-written :
        (ks js : List Bytes)
        → IsTree h
        → walk h root ks ≡ some p
        → view (written h p d node) js ≡ ite (path_discrete ks js) (some d) (view h js)
    unfolding view
    view-written ks js t e = elim (Option-cases (walk h root js)) [
      | inl miss ↦ ground (arith, walk-written root js)
      | inr (b, hit) ↦
          ground (arith, walk-written root js, datum-written b, walk_injective h ks js b t)
    ]

  module _ (h : Heap T) (ks : List Bytes) (p : ℕ) (d : T) (t : IsTree h) (q : p < h.next)
      (w : walk h root ks ≡ some p) where
    pub set_data-written :
        (node : HttpPathNode T) → h.cells p ≡ some node → set_data p d h ≡ ok (written h p d node)
    unfolding set_data
    set_data-written node at = rw (at, set_data)

    -- The nodes are those of `h`, the data under `ks` alone are new.
    pub set_data_lem :
        (h' : Heap T) × (set_data p d h ≡ ok h')
        × IsTree h'
        × ((js : List Bytes) → view h' js ≡ ite (path_discrete ks js) (some d) (view h js))
        × ((js : List Bytes) → walk h' root js ≡ walk h root js)
    set_data_lem =
        let (node, at) = t.live p q in
        (
          written h p d node,
          set_data-written node at,
          written-IsTree h p d node at t,
          λ js. view-written h p d node at ks js t w,
          λ js. walk-written h p d node at root js,
        )
