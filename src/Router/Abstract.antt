-- ===== src/Router/Abstract.antt =====
-- src/http_router.h: the router as its users see it, without nodes and addresses.
use mathlib.Core.Quot
use mathlib.Core.Quot.{Quot, Quot-set}
use httpserver_cpp.Base.{
  ◌≡◌, refl, sym, ◌∙◌, ap, inl, inr, Option, none, some, List, [], ◌∷◌, ◌++◌, Bytes, arith,
}
use httpserver_cpp.Base.Result.{ok, ok_injective}
use httpserver_cpp.Router.{Heap, empty, search_segments}
use httpserver_cpp.Router.Shape.{IsTree, empty-IsTree}
use httpserver_cpp.Router.Walk.{view}
use httpserver_cpp.Router.Search.{search_segments_total}
use httpserver_cpp.Router.Table.{override, Passes, after, registers}
use httpserver_cpp.Router.Order.{
  SameTable, search-SameTable, IsApart, goes, registered, registered-Stores, registered-SameTable,
  swapped-SameTable,
}

-- A router, up to what it holds.
abbrev pub Routes : Type 0 → Type 0
Routes T = Quot {α = (h : Heap T) × IsTree h} (λ h g. SameTable h.0 g.0)

module _ {ℓ} {T : Type ℓ} where
  -- The calls register the same path.
  abbrev pub SamePath : Option (List Bytes × T) → Option (List Bytes × T) → Type 0
  SamePath none q = ⊥
  SamePath (some r) none = ⊥
  SamePath (some (ks, d)) (some (js, e)) = ks ≡ js

  override_twice :
      (r q : Option (List Bytes × T)) (ks : List Bytes) (old : Option T)
      → SamePath r q
      → override q ks (override r ks old) ≡ override q ks old
  override_twice none q ks old same = absurd same
  override_twice (some r) none ks old same = absurd same
  override_twice (some (js, d)) (some (is, e)) ks old same = ground arith

  Passes-same :
      (r q : Option (List Bytes × T)) (ks : List Bytes) → SamePath r q → Passes r ks → Passes q ks
  Passes-same none q ks same p = absurd same
  Passes-same (some r) none ks same p = absurd same
  Passes-same (some (js, d)) (some (is, e)) ks same (rest, split) = (rest, sym same ∙ split)

module _ {T : Type 0} (segments_view : Bytes → Option (List Bytes)) where
  overwritten-SameTable :
      (a b : Bytes × Option T) (h : Heap T)
      → IsTree h
      → SamePath (goes segments_view a) (goes segments_view b)
      → SameTable
          (registered segments_view b (registered segments_view a h))
          (registered segments_view b h)
  overwritten-SameTable a b h t same =
      let ha = registered-Stores segments_view a h t in
      let hab = registered-Stores segments_view b (registered segments_view a h) ha.tree in
      let hb = registered-Stores segments_view b h t in
      record {
        tree_left = hab.tree;
        tree_right = hb.tree;
        sees = λ ks.
            hab.sees ks
            ∙ ap (override (goes segments_view b) ks) (ha.sees ks)
            ∙ override_twice (goes segments_view a) (goes segments_view b) ks (view h ks) same
            ∙ sym (hb.sees ks);
        to_right = λ ks n. (hb.nodes ks).1 (elim ((hab.nodes ks).0 n) [
          | inr new ↦ inr new
          | inl n' ↦ elim ((ha.nodes ks).0 n') [
            | inl old ↦ inl old
            | inr new ↦ inr (Passes-same (goes segments_view a) (goes segments_view b) ks same new)
          ]
        ]);
        to_left = λ ks n. (hab.nodes ks).1 (elim ((hb.nodes ks).0 n) [
          | inr new ↦ inr new
          | inl old ↦ inl ((ha.nodes ks).1 (inl old))
        ]);
      }

module _ {T : Type 0} (T-set : IsSet (Option T)) (segments_view : Bytes → Option (List Bytes)) where
  unfoldable pub nothing : Routes T
  nothing = Quot.mk (empty, empty-IsTree)

  abbrev pub found : List Bytes → (h : Heap T) × IsTree h → Option T
  found segments (h, t) = (search_segments_total segments h t).0

  pub found_lem :
      (segments : List Bytes) (h : (h : Heap T) × IsTree h)
      → search_segments segments h.0 ≡ ok (found segments h)
  found_lem segments (h, t) = (search_segments_total segments h t).1

  -- What a search finds.
  unfoldable pub look : List Bytes → Routes T → Option T
  look segments = Quot.lift T-set (found segments) (λ h g same.
      ok_injective (
        sym (found_lem segments h) ∙ search-SameTable segments h.0 g.0 same ∙ found_lem segments g))

  -- The router after a call of `insert`.
  unfoldable pub add : Bytes × Option T → Routes T → Routes T
  add c =
      Quot.lift Quot-set
        (λ h.
          Quot.mk
            (registered segments_view c h.0, (registered-Stores segments_view c h.0 h.1).tree))
        (λ h g same. Quot.sound (registered-SameTable segments_view c h.0 g.0 same))

  -- Calls of different paths may change places.
  pub add_comm :
      (a b : Bytes × Option T)
      → IsApart (goes segments_view a) (goes segments_view b)
      → (q : Routes T) → add b (add a q) ≡ add a (add b q)
  unfolding add
  add_comm a b apart =
      Quot.ind (λ q. Quot-set _ _)
        (λ h. Quot.sound (swapped-SameTable segments_view a b h.0 h.1 apart))

  -- After a call with the path of the one before it, this one does not count.
  add_overwrites :
      (a b : Bytes × Option T)
      → SamePath (goes segments_view a) (goes segments_view b)
      → (q : Routes T) → add b (add a q) ≡ add b q
  unfolding add
  add_overwrites a b same =
      Quot.ind (λ q. Quot-set _ _)
        (λ h. Quot.sound (overwritten-SameTable segments_view a b h.0 h.1 same))

  -- The router after some calls.
  unfoldable pub adds : List (Bytes × Option T) → Routes T → Routes T
  adds [] q = q
  adds (c ∷ calls) q = adds calls (add c q)

  adds-mk :
      (calls : List (Bytes × Option T)) (h : Heap T) (t : IsTree h)
      → (t' : IsTree (registers segments_view h calls)) × (adds calls (Quot.mk (h, t))
          ≡ Quot.mk (registers segments_view h calls, t'))
  unfolding adds add registers registered
  adds-mk [] h t = (t, refl)
  adds-mk ((path, d?) ∷ calls) h t =
      adds-mk calls (registered segments_view (path, d?) h)
        (registered-Stores segments_view (path, d?) h t).tree

  -- Let the options of `T` form a set, as those of a type of pointers do. After any calls on a new router
  -- each search finds what it finds in the abstract router, which forgets the nodes, their addresses
  -- and the order in which they were made.
  pub search-adds :
      (calls : List (Bytes × Option T)) (segments : List Bytes)
      → search_segments segments (registers segments_view empty calls)
        ≡ ok (look segments (adds calls nothing))
  unfolding look nothing
  search-adds calls segments =
      let (t, same) = adds-mk calls empty empty-IsTree in
      found_lem segments (registers segments_view empty calls, t)
      ∙ ap (λ q. ok (look segments q)) (sym same)

  -- Let the options of `T` form a set. In the abstract router a call does not count if the next one
  -- registers the same path.
  pub adds_overwrites :
      (before after : List (Bytes × Option T)) (a b : Bytes × Option T) (q : Routes T)
      → SamePath (goes segments_view a) (goes segments_view b)
      → adds (before ++ a ∷ b ∷ after) q ≡ adds (before ++ b ∷ after) q
  unfolding adds
  adds_overwrites [] after a b q same = ap (adds after) (add_overwrites a b same q)
  adds_overwrites (c ∷ before) after a b q same = adds_overwrites before after a b (add c q) same
