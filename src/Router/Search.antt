-- ===== src/Router/Search.antt =====
-- src/http_router.h: what `search` finds, and how it meets `insert`.
use mathlib.Core.List.{append-nil}
use httpserver_cpp.Base.{
  ℕ, ◌<◌, ◌≡◌, refl, sym, ◌∙◌, ap, inl, inr, ◌≢◌, Option, none, some, ite, Option-cases, List, [],
  ◌∷◌, ◌++◌, arith, ℕ_discrete, Bytes, if_neg,
}
use httpserver_cpp.Base.Dict.{find}
use httpserver_cpp.Base.Result.{ok}
use httpserver_cpp.Router.{HttpPathNode, Heap, root, search_from, search_segments, get_data}
use httpserver_cpp.Router.Shape.{child, child_of_cell, datum, IsTree}
use httpserver_cpp.Router.Walk.{walk-cons, cut, path_discrete, walk, view, walk-lt, walk_injective}

module _ {ℓ} {T : Type ℓ} where
  -- No child continues the path: the next key, if any, has no node.
  abbrev pub Stops : Heap T → ℕ → List Bytes → Type 0
  Stops h e [] = Unit
  Stops h e (k ∷ rest) = child h e k ≡ none

  abbrev Descends : List Bytes → ℕ → Heap T → Type 0
  Descends segments cur h =
      (ks : List Bytes) × (rest : List Bytes) × (e : ℕ) × (cut segments ≡ ks ++ rest)
      × (walk h cur ks ≡ some e)
      × Stops h e rest
      × (search_from segments cur h ≡ ok e)

  module _ (h : Heap T) (c : ℕ) (cs : List ℕ) (ks : List Bytes) (cur : ℕ) (node : HttpPathNode T)
      (at : h.cells cur ≡ some node) where
    search_from_hit :
        (b : ℕ)
        → find (c ∷ cs) node.children ≡ some b
        → search_from ((c ∷ cs) ∷ ks) cur h ≡ search_from ks b h
    unfolding search_from
    search_from_hit b hit = rw (at, hit, search_from)

    search_from_miss :
        find (c ∷ cs) node.children ≡ none → search_from ((c ∷ cs) ∷ ks) cur h ≡ ok cur
    unfolding search_from
    search_from_miss miss = rw (at, miss, search_from)

  search_from-Descends :
      (segments : List Bytes) (cur : ℕ) (h : Heap T)
      → IsTree h
      → cur < h.next
      → Descends segments cur h
  unfolding search_from cut walk
  search_from-Descends [] cur h t p = ([], [], cur, refl, refl, tt, refl)
  search_from-Descends ([] ∷ ks) cur h t p = ([], [], cur, refl, refl, tt, refl)
  search_from-Descends ((c ∷ cs) ∷ ks) cur h t p =
      let (node, at) = t.live cur p in
      elim (Option-cases (find (c ∷ cs) node.children)) [
        | inr (b, hit) ↦
            let edge = child_of_cell h cur (c ∷ cs) node at ∙ hit in
            let (js, rest, e, same, w, stops, run) =
              search_from-Descends ks b h t (t.below cur (c ∷ cs) b edge).1 in
            (
              (c ∷ cs) ∷ js,
              rest,
              e,
              ap (◌∷◌ (c ∷ cs)) same,
              walk-cons h cur (c ∷ cs) js edge ∙ w,
              stops,
              search_from_hit h c cs ks cur node at b hit ∙ run,
            )
        | inl miss ↦ (
          [],
          (c ∷ cs) ∷ cut ks,
          cur,
          refl,
          refl,
          child_of_cell h cur (c ∷ cs) node at ∙ miss,
          search_from_miss h c cs ks cur node at miss,
        )
      ]

  pub get_data_lem : (p : ℕ) (h : Heap T) → IsTree h → p < h.next → get_data p h ≡ ok (datum h p)
  unfolding get_data datum
  get_data_lem p h t q = let (node, at) = t.live p q in rw (at, get_data)

  pub view_of_walk :
      (h : Heap T) (ks : List Bytes) (b : ℕ) → walk h root ks ≡ some b → view h ks ≡ datum h b
  unfolding view
  view_of_walk h ks b e = rw (e, view)

  root_of_walk :
      (h : Heap T) (ks : List Bytes) (e : ℕ)
      → IsTree h
      → walk h root ks ≡ some e
      → (e ≡ root → ks ≡ []) × (ks ≡ [] → e ≡ root)
  unfolding walk
  root_of_walk h ks e t w =
      (λ p. walk_injective h ks [] root t (w ∙ ap some p) refl, λ p. ground arith)

  -- The last test of `search`.
  get_found :
      (ks : List Bytes) (e : ℕ) (h : Heap T)
      → IsTree h
      → walk h root ks ≡ some e
      → ite (ℕ_discrete e root) (ok none) (get_data e h)
        ≡ ok (ite (path_discrete ks []) none (view h ks))
  get_found ks e h t w = ground (
    arith,
    root_of_walk h ks e t w,
    get_data_lem e h t (walk-lt h root ks e t t.rooted w),
    view_of_walk h ks e w,
  )

  -- The path of the deepest node on the way, and the result of `search`.
  abbrev pub Finds : List Bytes → Heap T → Type ℓ
  Finds segments h =
      (ks : List Bytes) × (rest : List Bytes) × (e : ℕ) × (cut segments ≡ ks ++ rest)
      × (walk h root ks ≡ some e)
      × Stops h e rest
      × (search_segments segments h ≡ ok (ite (path_discrete ks []) none (view h ks)))

  -- With at least one segment `search` gives the data of the deepest node on the way, and null if that is the root.
  pub search_segments-Finds :
      (s : Bytes) (segments : List Bytes) (h : Heap T) → IsTree h → Finds (s ∷ segments) h
  unfolding search_segments
  search_segments-Finds s segments h t =
      let (ks, rest, e, same, w, stops, run) =
        search_from-Descends (s ∷ segments) root h t t.rooted in
      (ks, rest, e, same, w, stops, rw run (get_found ks e h t w))

  search_from_stop :
      (segments : List Bytes) (cur : ℕ) (h : Heap T) (ks rest : List Bytes) (e : ℕ)
      → IsTree h
      → cur < h.next
      → cut segments ≡ ks ++ rest
      → walk h cur ks ≡ some e
      → Stops h e rest
      → search_from segments cur h ≡ ok e
  unfolding search_from cut walk
  search_from_stop [] cur h [] rest e t p same w stops = ground arith
  search_from_stop [] cur h (k ∷ ks) rest e t p same w stops = absurd (ground arith)
  search_from_stop ([] ∷ segments) cur h [] rest e t p same w stops = ground arith
  search_from_stop ([] ∷ segments) cur h (k ∷ ks) rest e t p same w stops = absurd (ground arith)
  search_from_stop ((c ∷ cs) ∷ segments) cur h [] [] e t p same w stops = absurd (ground arith)
  search_from_stop ((c ∷ cs) ∷ segments) cur h [] (k ∷ rest) e t p same w stops =
      let (node, at) = t.live cur p in
      let miss : find (c ∷ cs) node.children ≡ none =
        ground (arith, child_of_cell h cur (c ∷ cs) node at) in
      ground (arith, search_from_miss h c cs segments cur node at miss)
  search_from_stop ((c ∷ cs) ∷ segments) cur h (k ∷ ks) rest e t p same w stops =
      let (node, at) = t.live cur p in
      elim (Option-cases (child h cur k)) [
        | inl miss ↦ absurd (ground arith)
        | inr (b, hit) ↦
            let hit' : find (c ∷ cs) node.children ≡ some b =
              ground (arith, child_of_cell h cur (c ∷ cs) node at) in
            search_from_hit h c cs segments cur node at b hit'
            ∙ search_from_stop segments b h ks rest e t (t.below cur k b hit).1 (ground arith)
                (ground arith) stops
      ]

  -- Any decomposition of the path at a node without the next child gives the result.
  pub search_segments_stop :
      (s : Bytes) (segments : List Bytes) (h : Heap T) (ks rest : List Bytes) (e : ℕ)
      → IsTree h
      → cut (s ∷ segments) ≡ ks ++ rest
      → walk h root ks ≡ some e
      → Stops h e rest
      → search_segments (s ∷ segments) h ≡ ok (ite (path_discrete ks []) none (view h ks))
  unfolding search_segments
  search_segments_stop s segments h ks rest e t same w stops =
      rw (search_from_stop (s ∷ segments) root h ks rest e t t.rooted same w stops)
        (get_found ks e h t w)

  pub walk_of_view :
      (h : Heap T) (ks : List Bytes) (d : T)
      → view h ks ≡ some d
      → (e : ℕ) × (walk h root ks ≡ some e)
  unfolding view
  walk_of_view h ks d v = elim (Option-cases (walk h root ks)) [
    | inl miss ↦ absurd (ground arith)
    | inr found ↦ found
  ]

  -- A request whose segments are those of a path with a handler gets that handler.
  pub search_exact :
      (s : Bytes) (segments : List Bytes) (h : Heap T) (d : T)
      → IsTree h
      → cut (s ∷ segments) ≢ []
      → view h (cut (s ∷ segments)) ≡ some d
      → search_segments (s ∷ segments) h ≡ ok (some d)
  search_exact s segments h d t nonempty v =
      let (e, w) = walk_of_view h (cut (s ∷ segments)) d v in
      search_segments_stop s segments h (cut (s ∷ segments)) [] e t (sym (append-nil _)) w tt
      ∙ ap ok (if_neg (path_discrete (cut (s ∷ segments)) []) nonempty none _ ∙ v)

  -- On a tree `search` follows no dangling pointer and throws nothing.
  pub search_segments_total :
      (segments : List Bytes) (h : Heap T)
      → IsTree h
      → (d? : Option T) × (search_segments segments h ≡ ok d?)
  unfolding search_segments
  search_segments_total [] h t = (datum h root, get_data_lem root h t t.rooted)
  search_segments_total (s ∷ segments) h t =
      let (ks, rest, e, same, w, stops, run) = search_segments-Finds s segments h t in
      (ite (path_discrete ks []) none (view h ks), run)
