-- ===== src/Router/Order.antt =====
-- src/http_router.h: the order in which handlers are registered.
use httpserver_cpp.Base.{
  ℕ, ◌≡◌, refl, sym, ◌∙◌, ap, inl, inr, ◌≢◌, Option-cases, Option, none, some, ite, List, [], ◌∷◌,
  ◌++◌, Bytes, arith,
}
use httpserver_cpp.Base.Result.{ok}
use httpserver_cpp.Router.{Heap, root, empty, insert, search_segments}
use httpserver_cpp.Router.Shape.{child, IsTree, empty-IsTree}
use httpserver_cpp.Router.Walk.{path_discrete, walk, view, walk-snoc}
use httpserver_cpp.Router.Insert.{HasNode}
use httpserver_cpp.Router.Search.{Stops, search_segments-Finds, search_segments_stop, get_data_lem}
use httpserver_cpp.Router.Table.{
  route, insert-Obeys, override, after, registers, Stores, Obeys-Stores,
}

module _ {ℓ} {T : Type ℓ} where
  -- Two heaps hold the same table.
  pub record SameTable (h g : Heap T) : Type ℓ where
    pub tree_left : IsTree h
    pub tree_right : IsTree g
    pub sees : (ks : List Bytes) → view h ks ≡ view g ks
    pub to_right : (ks : List Bytes) → HasNode h ks → HasNode g ks
    pub to_left : (ks : List Bytes) → HasNode g ks → HasNode h ks

  SameTable-refl : (h : Heap T) → IsTree h → SameTable h h
  SameTable-refl h t = record {
    tree_left = t;
    tree_right = t;
    sees = λ ks. refl;
    to_right = λ ks n. n;
    to_left = λ ks n. n;
  }

  Stops-SameTable :
      (h g : Heap T) (ks rest : List Bytes) (e e' : ℕ)
      → SameTable h g
      → walk h root ks ≡ some e
      → walk g root ks ≡ some e'
      → Stops h e rest
      → Stops g e' rest
  Stops-SameTable h g ks [] e e' same w w' stops = stops
  Stops-SameTable h g ks (k ∷ rest) e e' same w w' stops = elim (Option-cases (child g e' k)) [
    | inl miss ↦ miss
    | inr (b, hit) ↦
        let (b', at) = same.to_left (ks ++ k ∷ []) (b, walk-snoc g root ks k e' w' ∙ hit) in
        absurd (cc (sym (walk-snoc h root ks k e w) ∙ at, stops))
  ]

  -- `search` sees the table only.
  pub search-SameTable :
      (segments : List Bytes) (h g : Heap T)
      → SameTable h g
      → search_segments segments h ≡ search_segments segments g
  unfolding search_segments view walk
  search-SameTable [] h g same =
      get_data_lem root h same.tree_left same.tree_left.rooted
      ∙ ap ok (same.sees [])
      ∙ sym (get_data_lem root g same.tree_right same.tree_right.rooted)
  search-SameTable (s ∷ segments) h g same =
      let (ks, rest, e, split, w, stops, found) =
        search_segments-Finds s segments h same.tree_left in
      let (e', w') = same.to_right ks (e, w) in
      found
      ∙ ap (λ v. ok (ite (path_discrete ks []) none v)) (same.sees ks)
      ∙ sym (
          search_segments_stop s segments g ks rest e' same.tree_right split w'
            (Stops-SameTable h g ks rest e e' same w w' stops))

  -- The calls concern different paths.
  abbrev pub IsApart : Option (List Bytes × T) → Option (List Bytes × T) → Type 0
  IsApart none r = Unit
  IsApart (some r) none = Unit
  IsApart (some (ks, d)) (some (js, e)) = ks ≢ js

  override_comm :
      (r q : Option (List Bytes × T)) (ks : List Bytes) (old : Option T)
      → IsApart r q
      → override q ks (override r ks old) ≡ override r ks (override q ks old)
  override_comm none q ks old apart = refl
  override_comm (some (js, d)) none ks old apart = refl
  override_comm (some (js, d)) (some (is, e)) ks old apart = ground arith

module _ {ℓ} {T : Type ℓ} (segments_view : Bytes → Option (List Bytes)) where
  -- The route of a call.
  abbrev pub goes : Bytes × Option T → Option (List Bytes × T)
  goes (path, d?) = route segments_view path d?

  unfoldable pub registered : Bytes × Option T → Heap T → Heap T
  registered (path, d?) h = after h (insert segments_view path d? h)

  pub registered-Stores :
      (c : Bytes × Option T) (h : Heap T)
      → IsTree h
      → Stores segments_view (goes c) h (registered c h)
  unfolding registered
  registered-Stores (path, d?) h t =
      Obeys-Stores segments_view (route segments_view path d?) h (insert segments_view path d? h) t
        (insert-Obeys segments_view path d? h t)

  pub registered-SameTable :
      (c : Bytes × Option T) (h g : Heap T)
      → SameTable h g
      → SameTable (registered c h) (registered c g)
  registered-SameTable c h g same =
      let s = registered-Stores c h same.tree_left in
      let u = registered-Stores c g same.tree_right in
      record {
        tree_left = s.tree;
        tree_right = u.tree;
        sees = λ ks. s.sees ks ∙ ap (override (goes c) ks) (same.sees ks) ∙ sym (u.sees ks);
        to_right = λ ks n.
            (u.nodes ks).1 (elim ((s.nodes ks).0 n) [
              | inl old ↦ inl (same.to_right ks old)
              | inr new ↦ inr new
            ]);
        to_left = λ ks n.
            (s.nodes ks).1
              (elim ((u.nodes ks).0 n) [ inl old ↦ inl (same.to_left ks old) | inr new ↦ inr new ]);
      }

  pub swapped-SameTable :
      (a b : Bytes × Option T) (h : Heap T)
      → IsTree h
      → IsApart (goes a) (goes b)
      → SameTable (registered b (registered a h)) (registered a (registered b h))
  swapped-SameTable a b h t apart =
      let ha = registered-Stores a h t in
      let hab = registered-Stores b (registered a h) ha.tree in
      let hb = registered-Stores b h t in
      let hba = registered-Stores a (registered b h) hb.tree in
      record {
        tree_left = hab.tree;
        tree_right = hba.tree;
        sees = λ ks.
            hab.sees ks
            ∙ ap (override (goes b) ks) (ha.sees ks)
            ∙ override_comm (goes a) (goes b) ks (view h ks) apart
            ∙ sym (hba.sees ks ∙ ap (override (goes a) ks) (hb.sees ks));
        to_right = λ ks n. (hba.nodes ks).1 (elim ((hab.nodes ks).0 n) [
          | inr new ↦ inl ((hb.nodes ks).1 (inr new))
          | inl n' ↦ elim ((ha.nodes ks).0 n') [
            | inl old ↦ inl ((hb.nodes ks).1 (inl old))
            | inr new ↦ inr new
          ]
        ]);
        to_left = λ ks n. (hab.nodes ks).1 (elim ((hba.nodes ks).0 n) [
          | inr new ↦ inl ((ha.nodes ks).1 (inr new))
          | inl n' ↦ elim ((hb.nodes ks).0 n') [
            | inl old ↦ inl ((ha.nodes ks).1 (inl old))
            | inr new ↦ inr new
          ]
        ]);
      }

  registers-SameTable :
      (calls : List (Bytes × Option T)) (h g : Heap T)
      → SameTable h g
      → SameTable (registers segments_view h calls) (registers segments_view g calls)
  unfolding registers registered
  registers-SameTable [] h g same = same
  registers-SameTable ((path, d?) ∷ calls) h g same =
      registers-SameTable calls _ _ (registered-SameTable (path, d?) h g same)

  registers-swap :
      (before after : List (Bytes × Option T)) (a b : Bytes × Option T) (h : Heap T)
      → IsTree h
      → IsApart (goes a) (goes b)
      → SameTable
          (registers segments_view h (before ++ a ∷ b ∷ after))
          (registers segments_view h (before ++ b ∷ a ∷ after))
  unfolding registers registered
  registers-swap [] after (p, d?) (q, e?) h t apart =
      registers-SameTable after _ _ (swapped-SameTable (p, d?) (q, e?) h t apart)
  registers-swap (c ∷ before) after a b h t apart =
      registers-swap before after a b (registered c h) (registered-Stores c h t).tree apart

  -- Two calls next to one another that register different paths, or of which one throws, may change
  -- places among any calls on a new router: every `search` gives the same.
  pub search-registers-swap :
      (before after : List (Bytes × Option T)) (a b : Bytes × Option T) (segments : List Bytes)
      → IsApart (goes a) (goes b)
      → search_segments segments (registers segments_view empty (before ++ a ∷ b ∷ after))
        ≡ search_segments segments (registers segments_view empty (before ++ b ∷ a ∷ after))
  search-registers-swap before after a b segments apart =
      search-SameTable segments _ _ (registers-swap before after a b empty empty-IsTree apart)
