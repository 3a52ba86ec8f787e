-- ===== src/Router/Insert.antt =====
-- src/http_router.h: what `insert` does to the tree, and that it follows no dangling pointer.
use httpserver_cpp.Base.{
  ℕ, ◌↔◌, ◌++◌, suc, ◌≤◌, ◌<◌, ◌≡◌, refl, sym, ◌∙◌, ap, ◌⊎◌, inl, inr, none, some, ite,
  Option-cases, List, [], ◌∷◌, arith, dec_lt, ℕ_discrete, Bytes,
}
use httpserver_cpp.Base.Dict.{find}
use httpserver_cpp.Base.Result.{Result, ok}
use httpserver_cpp.Router.{HttpPathNode, Heap, root, attach, insert_from, insert_segments}
use httpserver_cpp.Router.Shape.{
  attach-next, child_of_cell, child, IsTree, Grows, Grows-refl, Grows-trans, attach-child,
  attach-Grows, attach-IsTree,
}
use httpserver_cpp.Router.Write.{set_data_lem}
use httpserver_cpp.Router.Walk.{
  IsPrefix, walk-old, walk-cons, cut, path_discrete, walk, view, walk-lt, walk-keeps, view-Grows,
  walk_injective,
}

module _ {ℓ} {T : Type ℓ} where
  module _ (h : Heap T) (c : ℕ) (cs : List ℕ) (ks : List Bytes) (cur : ℕ) (node : HttpPathNode T)
      (at : h.cells cur ≡ some node) where
    pub insert_from_hit :
        (b : ℕ)
        → find (c ∷ cs) node.children ≡ some b
        → insert_from ((c ∷ cs) ∷ ks) cur h ≡ insert_from ks b h
    unfolding insert_from
    insert_from_hit b hit = rw (at, hit, insert_from)

    pub insert_from_miss :
        find (c ∷ cs) node.children ≡ none
        → insert_from ((c ∷ cs) ∷ ks) cur h ≡ insert_from ks h.next (attach (c ∷ cs) cur node h)
    unfolding insert_from
    insert_from_miss miss = rw (at, miss, insert_from)

  -- The nodes of `h'` that `h` has not stand on the path `ks` from `cur`.
  abbrev pub OnPath : List Bytes → ℕ → Heap T → Heap T → Type 0
  OnPath ks cur h h' =
      (b : ℕ)
      → h.next ≤ b
      → b < h'.next
      → (js : List Bytes) × (rest : List Bytes) × (ks ≡ js ++ rest) × (walk h' cur js ≡ some b)

  -- The outcome of the loop: it ends at the node of the path, in a tree that has grown along it.
  abbrev pub Arrives : List Bytes → ℕ → Heap T → Type ℓ
  Arrives ks cur h =
      (e : ℕ) × (h' : Heap T) × (insert_from ks cur h ≡ ok (e, h'))
      × Grows h h'
      × IsTree h'
      × (walk h' cur (cut ks) ≡ some e)
      × OnPath (cut ks) cur h h'

  OnPath-hit :
      (k : Bytes) (ks : List Bytes) (cur c : ℕ) (h h' : Heap T)
      → child h' cur k ≡ some c
      → OnPath ks c h h'
      → OnPath (k ∷ ks) cur h h'
  OnPath-hit k ks cur c h h' edge path b lo hi =
      let (js, rest, same, w) = path b lo hi in
      (k ∷ js, rest, ap (◌∷◌ k) same, walk-cons h' cur k js edge ∙ w)

  OnPath-miss :
      (k : Bytes) (ks : List Bytes) (cur : ℕ) (h h₁ h' : Heap T)
      → h₁.next ≡ suc h.next
      → child h' cur k ≡ some h.next
      → OnPath ks h.next h₁ h'
      → OnPath (k ∷ ks) cur h h'
  unfolding walk
  OnPath-miss k ks cur h h₁ h' size edge path b lo hi = elim (ℕ_discrete h.next b) [
    | yes e ↦ (k ∷ [], ks, refl, walk-cons h' cur k [] edge ∙ ap some e)
    | no e ↦ OnPath-hit k ks cur h.next h₁ h' edge path b (omega arith) hi
  ]

  pub insert_from-Arrives :
      (ks : List Bytes) (cur : ℕ) (h : Heap T) → IsTree h → cur < h.next → Arrives ks cur h
  unfolding insert_from cut walk
  insert_from-Arrives [] cur h t p =
      (cur, h, refl, Grows-refl h t, t, refl, λ b lo hi. absurd (omega arith))
  insert_from-Arrives ([] ∷ ks) cur h t p =
      (cur, h, refl, Grows-refl h t, t, refl, λ b lo hi. absurd (omega arith))
  insert_from-Arrives ((c ∷ cs) ∷ ks) cur h t p =
      let (node, at) = t.live cur p in
      elim (Option-cases (find (c ∷ cs) node.children)) [
        | inr (b, hit) ↦
            let edge = child_of_cell h cur (c ∷ cs) node at ∙ hit in
            let (e, h', run, g, t', w, path) =
              insert_from-Arrives ks b h t (t.below cur (c ∷ cs) b edge).1 in
            (
              e,
              h',
              insert_from_hit h c cs ks cur node at b hit ∙ run,
              g,
              t',
              walk-cons h' cur (c ∷ cs) (cut ks) (g.keeps cur (c ∷ cs) b edge) ∙ w,
              OnPath-hit (c ∷ cs) (cut ks) cur b h h' (g.keeps cur (c ∷ cs) b edge) path,
            )
        | inl miss ↦
            let h₁ = attach (c ∷ cs) cur node h in
            let t₁ = attach-IsTree h (c ∷ cs) cur node t at miss in
            let edge = attach-child h (c ∷ cs) cur node t at miss in
            let (e, h', run, g, t', w, path) =
              insert_from-Arrives ks h.next h₁ t₁ (t₁.below cur (c ∷ cs) h.next edge).1 in
            (
              e,
              h',
              insert_from_miss h c cs ks cur node at miss ∙ run,
              Grows-trans h h₁ h' (attach-Grows h (c ∷ cs) cur node t at miss) g,
              t',
              walk-cons h' cur (c ∷ cs) (cut ks) (g.keeps cur (c ∷ cs) h.next edge) ∙ w,
              OnPath-miss (c ∷ cs) (cut ks) cur h h₁ h' (attach-next (c ∷ cs) cur node h)
                  (g.keeps cur (c ∷ cs) h.next edge) path,
            )
      ]

  -- A path leads to a node.
  abbrev pub HasNode : Heap T → List Bytes → Type 0
  HasNode h js = (b : ℕ) × (walk h root js ≡ some b)

  -- The outcome of `insert`: the data stand under the path, the data of other paths are as they
  -- were, and the nodes are the old ones and those of the path.
  pub record Inserted (ks : List Bytes) (d : T) (h h' : Heap T) : Type ℓ where
    pub tree : IsTree h'
    pub sees : (js : List Bytes) → view h' js ≡ ite (path_discrete ks js) (some d) (view h js)
    pub nodes : (js : List Bytes) → HasNode h' js ↔ (HasNode h js ⊎ IsPrefix js ks)

  abbrev pub Inserts : List Bytes → T → Heap T → Result (Heap T) → Type ℓ
  Inserts ks d h r = (h' : Heap T) × (r ≡ ok h') × Inserted ks d h h'

  walk-prefix :
      (h : Heap T) (a : ℕ) (js rest : List Bytes) (e : ℕ)
      → walk h a (js ++ rest) ≡ some e
      → (b : ℕ) × (walk h a js ≡ some b)
  unfolding walk
  walk-prefix h a [] rest e w = (a, refl)
  walk-prefix h a (k ∷ js) rest e w = elim (Option-cases (child h a k)) [
    | inl miss ↦ absurd (ground arith)
    | inr (c, hit) ↦
        let (b, w') = walk-prefix h c js rest e (ground arith) in (b, walk-cons h a k js hit ∙ w')
  ]

  grown_nodes :
      (h h' : Heap T) (ks : List Bytes) (e : ℕ)
      → IsTree h'
      → Grows h h'
      → walk h' root ks ≡ some e
      → OnPath ks root h h'
      → (js : List Bytes) → HasNode h' js ↔ (HasNode h js ⊎ IsPrefix js ks)
  grown_nodes h h' ks e t g w path js = (
    λ found.
        let (b, at) = found in
        elim (dec_lt b h.next) [
          | yes old ↦ inl (b, walk-old h h' g root js b t at old)
          | no new ↦
              let (js', rest, same, at') =
                path b (omega arith) (walk-lt h' root js b t t.rooted at) in
              inr (rest, same ∙ ap (λ l. l ++ rest) (walk_injective h' js' js b t at' at))
        ],
    λ side. elim side [
      | inl (b, at) ↦ (b, walk-keeps h h' g root js b at)
      | inr (rest, same) ↦ walk-prefix h' root js rest e (rw (← same) w)
    ],
  )

  -- On a tree `insert` follows no dangling pointer, and does what it should.
  pub insert_segments-Inserts :
      (segments : List Bytes) (d : T) (h : Heap T)
      → IsTree h
      → Inserts (cut segments) d h (insert_segments segments d h)
  unfolding insert_segments cut walk
  insert_segments-Inserts [] d h t =
      let (h', set, t', sees, same) = set_data_lem h [] root d t t.rooted refl in
      (
        h',
        set,
        record {
          tree = t';
          sees = sees;
          nodes = λ js. (
            λ found. inl (found.0, sym (same js) ∙ found.1),
            λ side. elim side [
              | inl (b, at) ↦ (b, same js ∙ at)
              | inr (rest, e) ↦ walk-prefix h' root js rest root (rw (← e) (same []))
            ],
          );
        },
      )
  insert_segments-Inserts (s ∷ segments) d h t =
      let (e, h₁, run, g, t₁, w, path) = insert_from-Arrives (s ∷ segments) root h t t.rooted in
      let ks = cut (s ∷ segments) in
      let (h', set, t', sees, same) =
        set_data_lem h₁ ks e d t₁ (walk-lt h₁ root ks e t₁ t₁.rooted w) w in
      let nodes = grown_nodes h h₁ ks e t₁ g w path in
      (
        h',
        rw run set,
        record {
          tree = t';
          sees =
              λ js. sees js ∙ ap (ite (path_discrete ks js) (some d)) (view-Grows h h₁ g js t t₁);
          nodes = λ js. (
            λ found. (nodes js).0 (found.0, sym (same js) ∙ found.1),
            λ side. let (b, at) = (nodes js).1 side in (b, same js ∙ at),
          );
        },
      )
