-- ===== src/Router/Paths.antt =====
-- src/http_router.h: how a handler's path and a request's path meet.
use httpserver_cpp.Base.{
  ℕ, ◌≡◌, refl, sym, ◌∙◌, ap, inl, inr, ◌≢◌, none, some, Option-cases, Option, true, false, List,
  [], ◌∷◌, Bytes, if_pos,
}
use httpserver_cpp.Base.Dict.{find}
use httpserver_cpp.Base.Result.{ok}
use httpserver_cpp.Router.{
  Heap, root, insert_from, insert_segments, search_from, search_segments, insert, search_path,
  starts_with_slash, has_dots,
}
use httpserver_cpp.Router.Shape.{IsTree}
use httpserver_cpp.Router.Walk.{cut, path_discrete, walk, view}
use httpserver_cpp.Router.Insert.{insert_segments-Inserts}
use httpserver_cpp.Router.Search.{search_segments_stop, search_exact, view_of_walk, get_data_lem}

module _ {ℓ} {T : Type ℓ} where
  insert_from-cut :
      (segments : List Bytes) (cur : ℕ) (h : Heap T)
      → insert_from segments cur h ≡ insert_from (cut segments) cur h
  unfolding insert_from cut
  insert_from-cut [] cur h = refl
  insert_from-cut ([] ∷ segments) cur h = refl
  insert_from-cut ((c ∷ cs) ∷ segments) cur h = elim (Option-cases (h.cells cur)) [
    | inl bad ↦ rw (bad, insert_from)
    | inr (node, at) ↦ elim (Option-cases (find (c ∷ cs) node.children)) [
      | inl miss ↦ rw (at, miss, insert_from) (insert_from-cut segments _ _)
      | inr (b, hit) ↦ rw (at, hit, insert_from) (insert_from-cut segments b h)
    ]
  ]

  search_from-cut :
      (segments : List Bytes) (cur : ℕ) (h : Heap T)
      → search_from segments cur h ≡ search_from (cut segments) cur h
  unfolding search_from cut
  search_from-cut [] cur h = refl
  search_from-cut ([] ∷ segments) cur h = refl
  search_from-cut ((c ∷ cs) ∷ segments) cur h = elim (Option-cases (h.cells cur)) [
    | inl bad ↦ rw (bad, search_from)
    | inr (node, at) ↦ elim (Option-cases (find (c ∷ cs) node.children)) [
      | inl miss ↦ rw (at, miss, search_from)
      | inr (b, hit) ↦ rw (at, hit, search_from) (search_from-cut segments b h)
    ]
  ]

  -- Two non-empty segment lists that agree up to their first empty segment, such as those of
  -- "/test" and "/test/", are one path, to `insert` and to `search`.
  pub same_path :
      (s r : Bytes) (segments more : List Bytes) (d : T) (h : Heap T)
      → cut (s ∷ segments) ≡ cut (r ∷ more)
      → (insert_segments (s ∷ segments) d h ≡ insert_segments (r ∷ more) d h)
        × (search_segments (s ∷ segments) h ≡ search_segments (r ∷ more) h)
  unfolding insert_segments search_segments
  same_path s r segments more d h e = (
    rw (insert_from-cut (s ∷ segments) root h, insert_from-cut (r ∷ more) root h, e) refl,
    rw (search_from-cut (s ∷ segments) root h, search_from-cut (r ∷ more) root h, e) refl,
  )

  -- On a tree: after `insert` under segments whose first is not empty, a request that agrees with
  -- them up to the first empty segment finds the handler.
  search-insert :
      (s r : Bytes) (segments more : List Bytes) (d : T) (h : Heap T)
      → IsTree h
      → cut (r ∷ more) ≡ cut (s ∷ segments)
      → cut (s ∷ segments) ≢ []
      → (h' : Heap T) × (insert_segments (s ∷ segments) d h ≡ ok h')
        × (search_segments (r ∷ more) h' ≡ ok (some d))
  search-insert s r segments more d h t e nonempty =
      let (h', run, i) = insert_segments-Inserts (s ∷ segments) d h t in
      let ks = cut (s ∷ segments) in
      (
        h',
        run,
        search_exact r more h' d i.tree (λ p. nonempty (sym e ∙ p))
            (ap (view h') e ∙ i.sees ks ∙ if_pos (path_discrete ks ks) refl (some d) (view h ks)),
      )

  -- On a tree: a handler whose path starts with an empty segment, such as "//hello", becomes the
  -- handler of "/", and a request for its own path does not find it.
  pub empty_first_segment :
      (segments : List Bytes) (d : T) (h : Heap T)
      → IsTree h
      → (h' : Heap T) × (insert_segments ([] ∷ segments) d h ≡ ok h')
        × (search_segments [] h' ≡ ok (some d))
        × (search_segments ([] ∷ segments) h' ≡ ok none)
  unfolding cut search_segments walk
  empty_first_segment segments d h t =
      let (h', run, i) = insert_segments-Inserts ([] ∷ segments) d h t in
      (
        h',
        run,
        get_data_lem root h' i.tree i.tree.rooted
            ∙ ap ok (
                sym (view_of_walk h' [] root refl)
                ∙ i.sees []
                ∙ if_pos (path_discrete [] []) refl (some d) (view h [])),
        search_segments_stop [] segments h' [] [] root i.tree refl refl tt
            ∙ ap ok (if_pos (path_discrete [] []) refl none (view h' [])),
      )

-- Whole paths, from the text on.
module _ {ℓ} {T : Type ℓ} (segments_view : Bytes → Option (List Bytes)) where
  stored_at_root :
      (d : T) (h : Heap T)
      → IsTree h
      → (h' : Heap T) × (insert_segments [] d h ≡ ok h') × (search_segments [] h' ≡ ok (some d))
  unfolding cut search_segments walk
  stored_at_root d h t =
      let (h', run, i) = insert_segments-Inserts [] d h t in
      (
        h',
        run,
        get_data_lem root h' i.tree i.tree.rooted
            ∙ ap ok (
                sym (view_of_walk h' [] root refl)
                ∙ i.sees []
                ∙ if_pos (path_discrete [] []) refl (some d) (view h [])),
      )

  -- On a tree, for any parser of paths: a handler that is registered under a path that starts with a
  -- slash, holds no two dots, and is parsed to no segments or to segments whose first is not empty,
  -- is what a search for the text of this path finds.
  pub search_path-insert :
      (path : Bytes) (d : T) (h : Heap T) (segments : List Bytes)
      → IsTree h
      → starts_with_slash path ≡ true
      → has_dots path ≡ false
      → segments_view path ≡ some segments
      → (cut segments ≡ [] → segments ≡ [])
      → (h' : Heap T) × (insert segments_view path (some d) h ≡ ok h')
        × (search_path segments_view path h' ≡ ok (some d))
  unfolding insert search_path starts_with_slash
  search_path-insert [] d h segments t slash plain parsed first = cc
  search_path-insert (c ∷ s) d h [] t slash plain parsed first =
      let (h', run, found) = stored_at_root d h t in
      (h', rw (slash, plain, parsed) run, rw (slash, parsed) found)
  search_path-insert (c ∷ s) d h (r ∷ more) t slash plain parsed first =
      let (h', run, found) = search-insert r r more more d h t refl (λ e. cc (first e)) in
      (h', rw (slash, plain, parsed) run, rw (slash, parsed) found)
