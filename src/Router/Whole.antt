-- ===== src/Router/Whole.antt =====
-- src/http_router.h: each node hangs on one child entry of its parent.
use httpserver_cpp.Base.{
  ℕ, ◌<◌, ◌≡◌, refl, sym, ◌∙◌, ap, subst, inl, inr, Option, none, some, ite, Option-cases,
  Bool-cases, List, [], ◌∷◌, arith, ℕ_discrete, Bytes, bytes_discrete,
}
use httpserver_cpp.Base.Dict.{Dict, find, assign, find-assign}
use httpserver_cpp.Base.Result.{ok}
use httpserver_cpp.Router.{
  HttpPathNode, Heap, root, new_node, empty, attach, insert_from, set_data, insert_segments, insert,
  starts_with_slash, has_dots,
}
use httpserver_cpp.Router.Insert.{
  insert_from_hit, insert_from_miss, insert_from-Arrives, insert_segments-Inserts,
}
use httpserver_cpp.Router.Table.{after, registers}
use httpserver_cpp.Router.Write.{written, written-IsTree, child-written}
use httpserver_cpp.Router.Shape.{
  child, IsTree, empty-IsTree, attach-IsTree, attach-Grows, attach-child, attach-next,
}

-- No key occurs twice.
abbrev pub Keyed {ℓ} : {V : Type ℓ} → Dict V → Type ℓ
Keyed [] = Unit
Keyed ((k, v) ∷ m) = (find k m ≡ none) × Keyed m

module _ {ℓ} {V : Type ℓ} where
  assign-Keyed : (k : Bytes) (v : V) (m : Dict V) → Keyed m → Keyed (assign k v m)
  unfolding assign find
  assign-Keyed k v [] d = (refl, tt)
  assign-Keyed k v ((j, w) ∷ m) (out, d) =
      elim (bytes_discrete j k) as (λ q. Keyed (ite q ((j, v) ∷ m) ((j, w) ∷ assign k v m))) [
        | yes e ↦ (out, d)
        | no e ↦ (ground (arith, find-assign k j v m), assign-Keyed k v m d)
      ]

module _ {ℓ} {T : Type ℓ} where
  pub children_of : Option (HttpPathNode T) → Dict ℕ
  children_of none = []
  children_of (some node) = node.children

  -- The entries of `children_` of the node at `a`.
  unfoldable pub entries : Heap T → ℕ → Dict ℕ
  unfolding children_of
  entries h a = children_of (h.cells a)

  pub record IsWhole (h : Heap T) : Type ℓ where
    pub tree : IsTree h
    pub keyed : (a : ℕ) → Keyed (entries h a)
    pub held : (b : ℕ) → root < b → b < h.next → (a : ℕ) × (k : Bytes) × (child h a k ≡ some b)

  pub empty-IsWhole : IsWhole (empty {T = T})
  unfolding empty entries
  empty-IsWhole = record {
    tree = empty-IsTree;
    keyed = λ a.
        elim (ℕ_discrete root a)
          as (λ q. Keyed (children_of (ite q (some (new_node {T = T} [] none)) none))) [
            | yes e ↦ tt
            | no e ↦ tt
          ];
    held = λ b lo hi. absurd (omega arith);
  }

  entries-attach :
      (h : Heap T) (key : Bytes) (cur : ℕ) (node : HttpPathNode T) (a : ℕ)
      → h.cells cur ≡ some node
      → entries (attach key cur node h) a
        ≡ ite
            (ℕ_discrete cur a)
            (assign key h.next node.children)
            (ite (ℕ_discrete h.next a) [] (entries h a))
  unfolding entries attach
  entries-attach h key cur node a at = ground arith

  pub entries_of_cell :
      (h : Heap T) (a : ℕ) (node : HttpPathNode T)
      → h.cells a ≡ some node
      → entries h a ≡ node.children
  unfolding entries
  entries_of_cell h a node at = rw at refl

  attach-Keyed :
      (h : Heap T) (key : Bytes) (cur : ℕ) (node : HttpPathNode T) (a : ℕ)
      → h.cells cur ≡ some node
      → IsWhole h
      → Keyed (entries (attach key cur node h) a)
  attach-Keyed h key cur node a at w =
      subst Keyed (sym (entries-attach h key cur node a at))
        (elim (ℕ_discrete cur a)
          as (λ q. Keyed (
            ite q (assign key h.next node.children) (ite (ℕ_discrete h.next a) [] (entries h a)))) [
              | yes e ↦
                  assign-Keyed key h.next node.children
                    (subst Keyed (entries_of_cell h cur node at) (w.keyed cur))
              | no e ↦ elim (ℕ_discrete h.next a) as (λ q. Keyed (ite q [] (entries h a))) [
                | yes f ↦ tt
                | no f ↦ w.keyed a
              ]
            ])

  attach-IsWhole :
      (h : Heap T) (key : Bytes) (cur : ℕ) (node : HttpPathNode T)
      → h.cells cur ≡ some node
      → find key node.children ≡ none
      → IsWhole h
      → IsWhole (attach key cur node h)
  attach-IsWhole h key cur node at missing w = record {
    tree = attach-IsTree h key cur node w.tree at missing;
    keyed = λ a. attach-Keyed h key cur node a at w;
    held = λ b lo hi. elim (ℕ_discrete h.next b) [
      | yes e ↦ (cur, key, attach-child h key cur node w.tree at missing ∙ ap some e)
      | no e ↦
          let (a, k, c) = w.held b lo (omega (arith, attach-next key cur node h)) in
          (a, k, (attach-Grows h key cur node w.tree at missing).keeps a k b c)
    ];
  }

  insert_from-IsWhole :
      (ks : List Bytes) (cur : ℕ) (h : Heap T) (e : ℕ) (h' : Heap T)
      → insert_from ks cur h ≡ ok (e, h')
      → IsWhole h
      → IsWhole h'
  unfolding insert_from
  insert_from-IsWhole [] cur h e h' run w = subst IsWhole (cc run) w
  insert_from-IsWhole ([] ∷ ks) cur h e h' run w = subst IsWhole (cc run) w
  insert_from-IsWhole ((c ∷ cs) ∷ ks) cur h e h' run w = elim (Option-cases (h.cells cur)) [
    | inl gone ↦ absurd (ground (arith, run, gone))
    | inr (node, at) ↦ elim (Option-cases (find (c ∷ cs) node.children)) [
      | inr (b, hit) ↦
          insert_from-IsWhole ks b h e h' (sym (insert_from_hit h c cs ks cur node at b hit) ∙ run)
            w
      | inl miss ↦
          insert_from-IsWhole ks h.next (attach (c ∷ cs) cur node h) e h'
            (sym (insert_from_miss h c cs ks cur node at miss) ∙ run)
            (attach-IsWhole h (c ∷ cs) cur node at miss w)
    ]
  ]

  entries-written :
      (h : Heap T) (p : ℕ) (d : T) (node : HttpPathNode T) (a : ℕ)
      → h.cells p ≡ some node
      → entries (written h p d node) a ≡ entries h a
  unfolding entries
  entries-written h p d node a at = ground arith

  written-IsWhole :
      (h : Heap T) (p : ℕ) (d : T) (node : HttpPathNode T)
      → h.cells p ≡ some node
      → IsWhole h
      → IsWhole (written h p d node)
  written-IsWhole h p d node at w = record {
    tree = written-IsTree h p d node at w.tree;
    keyed = λ a. subst Keyed (sym (entries-written h p d node a at)) (w.keyed a);
    held = λ b lo hi. let (a, k, c) = w.held b lo hi in (a, k, child-written h p d node at a k ∙ c);
  }

  set_data_at :
      (p : ℕ) (d : T) (h : Heap T) (node : HttpPathNode T)
      → h.cells p ≡ some node
      → set_data p d h ≡ ok (written h p d node)
  unfolding set_data
  set_data_at p d h node at = rw (at, set_data) refl

  set_data-IsWhole :
      (p : ℕ) (d : T) (h h' : Heap T) → set_data p d h ≡ ok h' → IsWhole h → IsWhole h'
  unfolding set_data
  set_data-IsWhole p d h h' run w = elim (Option-cases (h.cells p)) [
    | inl gone ↦ absurd (ground (arith, run, gone))
    | inr (node, at) ↦
        subst IsWhole (cc (sym (set_data_at p d h node at) ∙ run)) (written-IsWhole h p d node at w)
  ]

  insert_segments-IsWhole :
      (segments : List Bytes) (d : T) (h h' : Heap T)
      → insert_segments segments d h ≡ ok h'
      → IsWhole h
      → IsWhole h'
  unfolding insert_segments
  insert_segments-IsWhole [] d h h' run w = set_data-IsWhole root d h h' run w
  insert_segments-IsWhole (s ∷ segments) d h h' run w =
      let (e, g, went, grows, t, there, path) =
        insert_from-Arrives (s ∷ segments) root h w.tree w.tree.rooted in
      set_data-IsWhole e d g h' (sym (rw went refl) ∙ run)
        (insert_from-IsWhole (s ∷ segments) root h e g went w)

module _ {ℓ} {T : Type ℓ} (segments_view : Bytes → Option (List Bytes)) where
  insert-IsWhole :
      (path : Bytes) (d? : Option T) (h : Heap T)
      → IsWhole h
      → IsWhole (after h (insert segments_view path d? h))
  unfolding insert
  insert-IsWhole path none h w = w
  insert-IsWhole path (some d) h w = elim (Bool-cases (starts_with_slash path)) [
    | inr other ↦ rw other w
    | inl slash ↦ elim (Bool-cases (has_dots path)) [
      | inl dots ↦ rw (slash, dots) w
      | inr plain ↦ elim (Option-cases (segments_view path)) [
        | inl bad ↦ rw (slash, plain, bad) w
        | inr (segments, good) ↦
            let (h', run, i) = insert_segments-Inserts segments d h w.tree in
            rw (slash, plain, good, run) (insert_segments-IsWhole segments d h h' run w)
      ]
    ]
  ]

  -- The router after any calls.
  pub registers-IsWhole :
      (calls : List (Bytes × Option T)) (h : Heap T)
      → IsWhole h
      → IsWhole (registers segments_view h calls)
  unfolding registers
  registers-IsWhole [] h w = w
  registers-IsWhole ((path, d?) ∷ calls) h w =
      registers-IsWhole calls (after h (insert segments_view path d? h))
        (insert-IsWhole path d? h w)
