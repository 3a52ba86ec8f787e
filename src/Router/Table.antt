-- ===== src/Router/Table.antt =====
-- src/http_router.h: a router after any calls of `insert` is a table of routes.
use mathlib.Core.Option
use httpserver_cpp.Base.{
  ℕ, ◌≡◌, refl, sym, ◌∙◌, ap, ◌⊎◌, inl, inr, ◌↔◌, Option, none, some, ite, Bool-cases, not, ◌&&◌,
  Option-cases, List, [], ◌∷◌, ◌++◌, arith, Bytes, if◌then◌else◌,
}
use httpserver_cpp.Base.Result.{Exception, Result, ok, throws, fault}
use httpserver_cpp.Router.{Heap, root, empty, starts_with_slash, has_dots, insert, search_segments}
use httpserver_cpp.Router.Shape.{child, IsTree, empty-IsTree}
use httpserver_cpp.Router.Walk.{
  IsPrefix, cut, path_discrete, view, walk-empty, view-empty, walk-snoc,
}
use httpserver_cpp.Router.Insert.{HasNode, Inserts, insert_segments-Inserts}
use httpserver_cpp.Router.Search.{search_segments-Finds, Stops}

module _ {ℓ} {T : Type ℓ} (segments_view : Bytes → Option (List Bytes)) where
  -- The route that a call of `insert` stands for: a handler, and a path that starts with a slash,
  -- holds no two dots and can be parsed.
  unfoldable pub route : Bytes → Option T → Option (List Bytes × T)
  route path none = none
  route path (some d) =
      if starts_with_slash path && not (has_dots path)
      then Option.map (λ segments. (cut segments, d)) (segments_view path)
      else none

  -- A route is stored; any other call throws.
  abbrev pub Obeys : Option (List Bytes × T) → Heap T → Result (Heap T) → Type ℓ
  Obeys none h r = (e : Exception) × (r ≡ throws e)
  Obeys (some (ks, d)) h r = Inserts ks d h r

  -- On a tree, for any parser of paths: `insert` of a handler that is not null, under a path that
  -- starts with a slash, holds no two dots and can be parsed, succeeds; it leaves a tree, whose
  -- handlers are those of before but for the path's own, and whose nodes are those of before and
  -- those on the path. Any other `insert` throws.
  pub insert-Obeys :
      (path : Bytes) (d? : Option T) (h : Heap T)
      → IsTree h
      → Obeys (route path d?) h (insert segments_view path d? h)
  unfolding route insert
  insert-Obeys path none h t = (_, refl)
  insert-Obeys path (some d) h t = elim (Bool-cases (starts_with_slash path)) [
    | inl slash ↦ elim (Bool-cases (has_dots path)) [
      | inl dots ↦ rw (slash, dots) (_, refl)
      | inr plain ↦ elim (Option-cases (segments_view path)) [
        | inl bad ↦ rw (slash, plain, bad) (_, refl)
        | inr (segments, good) ↦ rw (slash, plain, good) (insert_segments-Inserts segments d h t)
      ]
    ]
    | inr other ↦ rw other (_, refl)
  ]

-- The table of routes that some calls of `insert` build up.
module _ {ℓ} {T : Type ℓ} where
  abbrev pub Passes : Option (List Bytes × T) → List Bytes → Type 0
  Passes none ks = ⊥
  Passes (some (js, d)) ks = IsPrefix ks js

  abbrev pub override : Option (List Bytes × T) → List Bytes → Option T → Option T
  override none ks old = old
  override (some (js, d)) ks old = ite (path_discrete js ks) (some d) old

  -- What the heap is after a call: an exception leaves it as it was.
  abbrev pub after : Heap T → Result (Heap T) → Heap T
  after h (ok h') = h'
  after h (throws e) = h
  after h fault = h

module _ {ℓ} {T : Type ℓ} where
  no_child :
      (h : Heap T) (e b : ℕ) (rest : List Bytes) (k : Bytes) (more : List Bytes)
      → Stops h e rest
      → rest ≡ k ∷ more
      → ¬ (child h e k ≡ some b)
  no_child h e b [] k more stops p at = cc
  no_child h e b (j ∷ rest) k more stops p at = ground arith

module _ {ℓ} {T : Type ℓ} (segments_view : Bytes → Option (List Bytes)) where
  -- `insert` for each call, where the caller catches the exceptions.
  unfoldable pub registers : Heap T → List (Bytes × Option T) → Heap T
  registers h [] = h
  registers h ((path, d?) ∷ calls) = registers (after h (insert segments_view path d? h)) calls

  -- The handler of the last call with the given path.
  unfoldable pub latest : List (Bytes × Option T) → List Bytes → Option T → Option T
  latest [] ks old = old
  latest ((path, d?) ∷ calls) ks old =
      latest calls ks (override (route segments_view path d?) ks old)

  -- Some call's path continues the given one.
  abbrev pub OnRoute : List (Bytes × Option T) → List Bytes → Type 0
  OnRoute [] ks = ⊥
  OnRoute ((path, d?) ∷ calls) ks = Passes (route segments_view path d?) ks ⊎ OnRoute calls ks

  pub record Stores (r : Option (List Bytes × T)) (h h' : Heap T) : Type ℓ where
    pub tree : IsTree h'
    pub sees : (ks : List Bytes) → view h' ks ≡ override r ks (view h ks)
    pub nodes : (ks : List Bytes) → HasNode h' ks ↔ (HasNode h ks ⊎ Passes r ks)

  pub Obeys-Stores :
      (r : Option (List Bytes × T)) (h : Heap T) (result : Result (Heap T))
      → IsTree h
      → Obeys segments_view r h result
      → Stores r h (after h result)
  Obeys-Stores none h result t (e, thrown) = rw thrown (record {
    tree = t;
    sees = λ ks. refl;
    nodes = λ ks. (inl, λ side. elim side [ inl a ↦ a | inr b ↦ absurd b ]);
  })
  Obeys-Stores (some (js, d)) h result t (h', run, i) =
      rw run (record { tree = i.tree; sees = i.sees; nodes = i.nodes })

  -- The heap after some calls, against the table.
  pub record IsTable (calls : List (Bytes × Option T)) (h h' : Heap T) : Type ℓ where
    pub tree : IsTree h'
    pub sees : (ks : List Bytes) → view h' ks ≡ latest calls ks (view h ks)
    pub nodes : (ks : List Bytes) → HasNode h' ks ↔ (HasNode h ks ⊎ OnRoute calls ks)

  -- On a tree, after any sequence of `insert` calls whose exceptions are caught: the heap is a tree;
  -- the handler at a path is that of the last valid call with this path, or else the one from
  -- before; and a path has a node exactly if it had one or a valid call's path continues it.
  pub registers-IsTable :
      (calls : List (Bytes × Option T)) (h : Heap T)
      → IsTree h
      → IsTable calls h (registers h calls)
  unfolding registers latest
  registers-IsTable [] h t = record {
    tree = t;
    sees = λ ks. refl;
    nodes = λ ks. (inl, λ side. elim side [ inl a ↦ a | inr b ↦ absurd b ]);
  }
  registers-IsTable ((path, d?) ∷ calls) h t =
      let s =
        Obeys-Stores (route segments_view path d?) h (insert segments_view path d? h) t
          (insert-Obeys segments_view path d? h t) in
      let i = registers-IsTable calls (after h (insert segments_view path d? h)) s.tree in
      record {
        tree = i.tree;
        sees = λ ks. i.sees ks ∙ ap (latest calls ks) (s.sees ks);
        nodes = λ ks. (
          λ found. elim ((i.nodes ks).0 found) [
            | inl a ↦ elim ((s.nodes ks).0 a) [ inl b ↦ inl b | inr p ↦ inr (inl p) ]
            | inr q ↦ inr (inr q)
          ],
          λ side. elim side [
            | inl a ↦ (i.nodes ks).1 (inl ((s.nodes ks).1 (inl a)))
            | inr (inl p) ↦ (i.nodes ks).1 (inl ((s.nodes ks).1 (inr p)))
            | inr (inr q) ↦ (i.nodes ks).1 (inr q)
          ],
        );
      }

  -- After any calls on a new router, the path of the deepest route on the way, and what `search` gives.
  abbrev pub Routes : List (Bytes × Option T) → List Bytes → Result (Option T) → Type ℓ
  Routes calls path result =
      (ks : List Bytes) × (rest : List Bytes) × (path ≡ ks ++ rest)
      × ((ks ≡ []) ⊎ OnRoute calls ks)
      × ((k : Bytes) (more : List Bytes) → rest ≡ k ∷ more → ¬ OnRoute calls (ks ++ k ∷ []))
      × (result ≡ ok (ite (path_discrete ks []) none (latest calls ks none)))

  -- After any `insert` calls on a new router, `search` with at least one segment succeeds: among the
  -- request's path and its prefixes it takes the longest that some valid call's path continues, and
  -- gives the handler of the last valid call with exactly this path, or null if there is none or if
  -- it is the empty path.
  pub search-Routes :
      (calls : List (Bytes × Option T)) (s : Bytes) (segments : List Bytes)
      → Routes calls (cut (s ∷ segments)) (search_segments (s ∷ segments) (registers empty calls))
  search-Routes calls s segments =
      let i = registers-IsTable calls empty empty-IsTree in
      let (ks, rest, e, same, w, stops, found) =
        search_segments-Finds s segments (registers empty calls) i.tree in
      (
        ks,
        rest,
        same,
        elim ((i.nodes ks).0 (e, w)) [ inl n ↦ inl (walk-empty T ks n.0 n.1) | inr r ↦ inr r ],
        λ k more split on.
            let (b, at) = (i.nodes (ks ++ k ∷ [])).1 (inr on) in
            no_child (registers empty calls) e b rest k more stops split
              (sym (walk-snoc (registers empty calls) root ks k e w) ∙ at),
        found
            ∙ ap (λ v. ok (ite (path_discrete ks []) none v))
                (i.sees ks ∙ ap (latest calls ks) (view-empty T ks)),
      )
