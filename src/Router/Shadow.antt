-- ===== src/Router/Shadow.antt =====
-- src/http_router.h: a longer path takes requests from a shorter one.
use mathlib.Core.List.{append-nil, append_assoc}
use httpserver_cpp.Base.{
  ℕ, ◌≡◌, sym, ◌∙◌, ap, inl, inr, ◌≢◌, none, some, Option-cases, List, [], ◌∷◌, ◌++◌, arith, Bytes,
  if_neg,
}
use httpserver_cpp.Base.Result.{ok}
use httpserver_cpp.Router.{Heap, root, insert_segments, search_segments}
use httpserver_cpp.Router.Shape.{child, IsTree}
use httpserver_cpp.Router.Walk.{cut, path_discrete, walk, view, walk-snoc}
use httpserver_cpp.Router.Insert.{HasNode, insert_segments-Inserts}
use httpserver_cpp.Router.Search.{search_segments_stop, walk_of_view}

snoc_ne_nil : (ks : List Bytes) (k : Bytes) → ks ++ k ∷ [] ≢ []
snoc_ne_nil [] k = cc
snoc_ne_nil (j ∷ ks) k = cc

snoc_ne_longer : (ks : List Bytes) (k j : Bytes) → ks ++ k ∷ j ∷ [] ≢ ks ++ k ∷ []
snoc_ne_longer [] k j = λ e. cc
snoc_ne_longer (i ∷ ks) k j = λ e. snoc_ne_longer ks k j (ground arith)

append_ne_self : (ks : List Bytes) (k : Bytes) (rest : List Bytes) → ks ++ k ∷ rest ≢ ks
append_ne_self [] k rest = cc
append_ne_self (i ∷ ks) k rest = λ e. append_ne_self ks k rest (ground arith)

module _ {ℓ} {T : Type ℓ} where
  view_of_no_node : (h : Heap T) (ks : List Bytes) → ¬ HasNode h ks → view h ks ≡ none
  unfolding view
  view_of_no_node h ks missing = elim (Option-cases (walk h root ks)) [
    | inl e ↦ ground arith
    | inr found ↦ absurd (missing found)
  ]

  no_child_of_missing :
      (h : Heap T) (ks : List Bytes) (k : Bytes) (e : ℕ)
      → walk h root ks ≡ some e
      → ¬ HasNode h (ks ++ k ∷ [])
      → child h e k ≡ none
  no_child_of_missing h ks k e w missing = elim (Option-cases (child h e k)) [
    | inl none_there ↦ none_there
    | inr (b, at) ↦ absurd (missing (b, walk-snoc h root ks k e w ∙ at))
  ]

  -- On a tree: let `d₀` be the handler of the path `ks`, and let no node stand under `ks` and one
  -- more key `k`. A request for that longer path finds `d₀`. After an `insert` under `ks`, `k` and
  -- one key more, the handler of `ks` is still `d₀`, but the same request finds nothing.
  pub search_shadowed :
      (s r : Bytes) (segments more ks : List Bytes) (k j : Bytes) (d d₀ : T) (h : Heap T)
      → IsTree h
      → cut (s ∷ segments) ≡ ks ++ k ∷ j ∷ []
      → cut (r ∷ more) ≡ ks ++ k ∷ []
      → ks ≢ []
      → view h ks ≡ some d₀
      → ¬ HasNode h (ks ++ k ∷ [])
      → (search_segments (r ∷ more) h ≡ ok (some d₀))
        × (h' : Heap T) × (insert_segments (s ∷ segments) d h ≡ ok h')
        × (view h' ks ≡ some d₀)
        × (search_segments (r ∷ more) h' ≡ ok none)
  search_shadowed s r segments more ks k j d d₀ h t long short nonempty v missing =
      let (e, w) = walk_of_view h ks d₀ v in
      let stops = no_child_of_missing h ks k e w missing in
      let (h', run, i) = insert_segments-Inserts (s ∷ segments) d h t in
      let path = cut (s ∷ segments) in
      let (b, at) =
        (i.nodes (ks ++ k ∷ [])).1 (inr (j ∷ [], long ∙ sym (append_assoc ks (k ∷ []) (j ∷ [])))) in
      (
        search_segments_stop r more h ks (k ∷ []) e t short w stops
            ∙ ap ok (if_neg (path_discrete ks []) nonempty none (view h ks) ∙ v),
        h',
        run,
        i.sees ks
            ∙ if_neg (path_discrete path ks) (λ p. append_ne_self ks k (j ∷ []) (sym long ∙ p))
                (some d) (view h ks)
            ∙ v,
        search_segments_stop r more h' (ks ++ k ∷ []) [] b i.tree (short ∙ sym (append-nil _)) at tt
            ∙ ap ok (
                if_neg (path_discrete (ks ++ k ∷ []) []) (snoc_ne_nil ks k) none
                  (view h' (ks ++ k ∷ []))
                ∙ i.sees (ks ++ k ∷ [])
                ∙ if_neg (path_discrete path (ks ++ k ∷ []))
                    (λ p. snoc_ne_longer ks k j (sym long ∙ p)) (some d) (view h (ks ++ k ∷ []))
                ∙ view_of_no_node h (ks ++ k ∷ []) missing),
      )
