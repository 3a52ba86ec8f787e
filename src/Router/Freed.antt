-- ===== src/Router/Freed.antt =====
-- src/http_router.h: the destructors delete each node once.
use httpserver_cpp.Base.{
  ℕ, suc, zero, ◌+◌, ◌≤◌, ◌<◌, ◌≡◌, refl, sym, ◌∙◌, inl, inr, Option, none, some, List, [], ◌∷◌,
  arith, dec_lt, ℕ_discrete, Bytes,
}
use httpserver_cpp.Base.Dict.{Dict}
use httpserver_cpp.Base.Result.{Result, ok}
use httpserver_cpp.Router.{HttpPathNode, Heap, root, empty}
use httpserver_cpp.Router.Delete.{free, delete_children, delete_node, delete_router}
use httpserver_cpp.Router.Table.{registers}
use httpserver_cpp.Router.Under.{
  Under, UnderAny, Fan, self, apart, beneath, Under-cases, Under-lt, children-Fan, root-Under,
}
use httpserver_cpp.Router.Whole.{IsWhole, empty-IsWhole, registers-IsWhole}

module _ {ℓ} {T : Type ℓ} where
  -- Of the cells in `P` none is left, and the others are as they were.
  pub record Cleared (P : ℕ → Type 0) (g g' : Heap T) : Type ℓ where
    pub gone : (c : ℕ) → P c → g'.cells c ≡ none
    pub kept : (c : ℕ) → ¬ P c → g'.cells c ≡ g.cells c

  -- The cells in `P` are still those of `h`.
  abbrev Intact : (ℕ → Type 0) → Heap T → Heap T → Type ℓ
  Intact P h g = (c : ℕ) → P c → g.cells c ≡ h.cells c

  abbrev Deletes : (ℕ → Type 0) → Heap T → Result (Heap T) → Type ℓ
  Deletes P g r = (g' : Heap T) × (r ≡ ok g') × Cleared P g g'

  module _ (h : Heap T) (w : IsWhole h) where
    -- What `delete` does at the nodes that `fuel` reaches.
    abbrev Works : (ℕ → Heap T → Result (Heap T)) → ℕ → Type ℓ
    Works delete fuel =
        (b : ℕ) (g : Heap T)
        → h.next ≤ b + fuel
        → b < h.next
        → Intact (Under h b) h g
        → Deletes (Under h b) g (delete b g)

    delete_children_lem :
        (delete : ℕ → Heap T → Result (Heap T)) (fuel a : ℕ)
        → Works delete fuel
        → h.next ≤ suc (a + fuel)
        → (cs : Dict ℕ) (g : Heap T) → Fan h a cs
        → Intact (UnderAny h cs) h g
        → Deletes (UnderAny h cs) g (delete_children delete cs g)
    unfolding delete_children
    delete_children_lem delete fuel a works enough [] g fan intact =
        (g, refl, record { gone = λ c p. absurd p; kept = λ c p. refl })
    delete_children_lem delete fuel a works enough ((k, b) ∷ cs) g fan intact =
        let (order, bound) = w.tree.below a k b fan.0 in
        let (g₁, run, first) = works b g (omega arith) bound (λ c u. intact c (inl u)) in
        let outside = λ (c : ℕ) (u : Under h b c). apart h w.tree a b k cs c fan.0 fan.1 fan.2 u in
        let (g₂, run', rest) =
          delete_children_lem delete fuel a works enough cs g₁ fan.2
            (λ c any. first.kept c (λ u. outside c u any) ∙ intact c (inr any)) in
        (
          g₂,
          rw run run',
          record {
            gone = λ c any. elim any [
              | inl u ↦ rest.kept c (outside c u) ∙ first.gone c u
              | inr v ↦ rest.gone c v
            ];
            kept =
                λ c no_one. rest.kept c (λ v. no_one (inr v)) ∙ first.kept c (λ u. no_one (inl u));
          },
        )

    free-Cleared :
        (a : ℕ) (node : HttpPathNode T) (g g' : Heap T)
        → h.cells a ≡ some node
        → Cleared (UnderAny h node.children) g g'
        → Cleared (Under h a) g (free a g')
    free-Cleared a node g g' at cleared = record {
      gone = λ c u. elim (Under-cases h w.tree a node at u) [
        | inl same ↦ ground arith
        | inr any ↦ ground (arith, cleared.gone c any)
      ];
      kept = λ c out. elim (ℕ_discrete a c) [
        | yes same ↦ absurd (out (self (sym same)))
        | no other ↦ ground (
          arith,
          cleared.kept c
              (λ any. out (beneath h w.tree a node.children c (children-Fan h a node w at) any)),
        )
      ];
    }

    delete_node-Works : (fuel : ℕ) → Works (delete_node fuel) fuel
    unfolding delete_node
    delete_node-Works zero a g enough lo intact = absurd (omega arith)
    delete_node-Works (suc fuel) a g enough lo intact =
        let (node, at) = w.tree.live a lo in
        let fan = children-Fan h a node w at in
        let (g', run, cleared) =
          delete_children_lem (delete_node fuel) fuel a (delete_node-Works fuel) (omega arith)
            node.children g fan (λ c any. intact c (beneath h w.tree a node.children c fan any)) in
        (
          free a g',
          rw (intact a (self refl) ∙ at, delete_node, run) refl,
          free-Cleared a node g g' at cleared,
        )

    -- All nodes are freed.
    delete_router-frees : (g : Heap T) × (delete_router h ≡ ok g) × ((c : ℕ) → g.cells c ≡ none)
    unfolding delete_router
    delete_router-frees =
        let (g, run, cleared) =
          delete_node-Works h.next root h (omega arith) w.tree.rooted (λ c u. refl) in
        (
          g,
          run,
          λ c. elim (dec_lt c h.next) [
            | yes lo ↦ cleared.gone c (root-Under h c w lo)
            | no hi ↦
                cleared.kept c (λ u. absurd (omega (arith, Under-lt h w.tree root w.tree.rooted u)))
                ∙ w.tree.dead c (omega arith)
          ],
        )

-- After any calls of `insert` on a new router, whether they throw or not, the destructor of the
-- router ends: it deletes no node twice and reads none that is deleted, and at the end no node is
-- left allocated.
pub delete-registers {ℓ} :
    {T : Type ℓ} (segments_view : Bytes → Option (List Bytes)) (calls : List (Bytes × Option T))
    → (h : Heap T) × (delete_router (registers segments_view empty calls) ≡ ok h)
      × ((c : ℕ) → h.cells c ≡ none)
delete-registers segments_view calls =
    delete_router-frees (registers segments_view empty calls)
      (registers-IsWhole segments_view calls empty empty-IsWhole)
