-- ===== src/Router/Tests.antt =====
-- test/http_server_test.cpp, TestHttpRouter, and the theorems on the router at concrete inputs.
use native.Mathlib.Nat.{ℕ_set}
use httpserver_cpp.Base.{
  ℕ, ◌≡◌, refl, List, [], ◌∷◌, ◌++◌, Option, none, some, Bytes, codes, bytes_discrete, ℕ_discrete,
}
use httpserver_cpp.Base.Dict.{find, assign}
use httpserver_cpp.Base.Result.{Result, ok, throws, runtime_error}
use httpserver_cpp.Platform.Sample.{sample_segments}
use httpserver_cpp.Router.{
  Heap, empty, attach, insert_from, set_data, insert_segments, get_data, search_from,
  search_segments, starts_with_slash, has_dots, insert, search_path,
}
use httpserver_cpp.Router.Shape.{child, datum, IsTree, empty-IsTree}
use httpserver_cpp.Router.Walk.{cut, path_discrete, walk, view}
use httpserver_cpp.Router.Delete.{delete_router}
use httpserver_cpp.Router.Order.{search-registers-swap}
use httpserver_cpp.Router.Errors.{InsertOutcome, insert-Outcome}
use httpserver_cpp.Router.Freed.{delete-registers}
use httpserver_cpp.Router.Table.{
  route, registers, latest, IsTable, registers-IsTable, Routes, search-Routes,
}
use httpserver_cpp.Router.Paths.{search_path-insert, empty_first_segment}
use httpserver_cpp.Router.Shadow.{search_shadowed}

-- What a test runs.
runs : Unit {0}
unfolding find assign empty attach insert_from set_data insert_segments get_data search_from
    search_segments starts_with_slash has_dots insert search_path registers route latest
    sample_segments bytes_discrete ℕ_discrete cut path_discrete walk view child datum
runs = tt

abbrev calls : List (Bytes × Option ℕ)
calls =
    (codes "/", some 0)
    ∷ (codes "/hello", some 1)
    ∷ (codes "/hello/test", some 2)
    ∷ (codes "/hello/test/abc/", some 3)
    ∷ (codes "/..", some 9)
    ∷ (codes "/../abc", some 9)
    ∷ (codes "abc", some 9)
    ∷ []

abbrev finds : Bytes → Result (Option ℕ)
unfolding runs
finds path = search_path sample_segments path (registers sample_segments empty calls)

found_paths :
    (finds (codes "/abc") ≡ ok none)
    × (finds (codes "//") ≡ ok none)
    × (finds (codes "/he") ≡ ok none)
    × (finds (codes "hello") ≡ ok none)
    × (finds (codes "") ≡ ok (some 0))
    × (finds (codes "/") ≡ ok (some 0))
    × (finds (codes "/hello") ≡ ok (some 1))
    × (finds (codes "/hello/") ≡ ok (some 1))
    × (finds (codes "/hello/test") ≡ ok (some 2))
    × (finds (codes "/hello/test/") ≡ ok (some 2))
    × (finds (codes "/hello/abc/def") ≡ ok (some 1))
    × (finds (codes "/hello/test/abc/") ≡ ok (some 3))
    × (finds (codes "/hello/test/abc") ≡ ok (some 3))
unfolding runs
found_paths = (refl, refl, refl, refl, refl, refl, refl, refl, refl, refl, refl, refl, refl)

refused_paths :
    (insert {T = ℕ} sample_segments (codes "/..") (some 9) empty
      ≡ throws (runtime_error "path is invalid"))
    × (insert {T = ℕ} sample_segments (codes "abc") (some 9) empty
        ≡ throws (runtime_error "path should start with '/'"))
unfolding runs
refused_paths = (refl, refl)

search-Routes_example :
    Routes sample_segments calls (cut (codes "hello" ∷ codes "abc" ∷ codes "def" ∷ [])) (
      search_segments
        (codes "hello" ∷ codes "abc" ∷ codes "def" ∷ [])
        (registers sample_segments empty calls))
search-Routes_example =
    search-Routes sample_segments calls (codes "hello") (codes "abc" ∷ codes "def" ∷ [])

registers-IsTable_example :
    IsTable sample_segments calls empty (registers sample_segments empty calls)
registers-IsTable_example = registers-IsTable sample_segments calls empty empty-IsTree

search_path-insert_example :
    (h : Heap ℕ) × (insert sample_segments (codes "/a/b/") (some 1) empty ≡ ok h)
    × (search_path sample_segments (codes "/a/b/") h ≡ ok (some 1))
unfolding runs
search_path-insert_example =
    search_path-insert sample_segments (codes "/a/b/") 1 empty (codes "a" ∷ codes "b" ∷ [] ∷ [])
      empty-IsTree refl refl refl (λ e. cc)

empty_first_segment_example :
    (h : Heap ℕ) × (insert_segments ([] ∷ codes "hello" ∷ []) 1 empty ≡ ok h)
    × (search_segments [] h ≡ ok (some 1))
    × (search_segments ([] ∷ codes "hello" ∷ []) h ≡ ok none)
empty_first_segment_example = empty_first_segment (codes "hello" ∷ []) 1 empty empty-IsTree

abbrev one_call : List (Bytes × Option ℕ)
one_call = (codes "/a", some 1) ∷ []

one_route-IsTree : IsTree (registers sample_segments empty one_call)
one_route-IsTree = (registers-IsTable sample_segments one_call empty empty-IsTree).tree

search_shadowed_example :
    (search_segments (codes "a" ∷ codes "b" ∷ []) (registers sample_segments empty one_call)
      ≡ ok (some 1))
    × (h : Heap ℕ) × (insert_segments
          (codes "a" ∷ codes "b" ∷ codes "c" ∷ [])
          2
          (registers sample_segments empty one_call)
        ≡ ok h)
    × (view h (codes "a" ∷ []) ≡ some 1)
    × (search_segments (codes "a" ∷ codes "b" ∷ []) h ≡ ok none)
unfolding runs
search_shadowed_example =
    search_shadowed (codes "a") (codes "a") (codes "b" ∷ codes "c" ∷ []) (codes "b" ∷ [])
      (codes "a" ∷ []) (codes "b") (codes "c") 2 1 (registers sample_segments empty one_call)
      one_route-IsTree refl refl (λ e. cc) refl (λ n. cc n.1)

delete-registers_example :
    (h : Heap ℕ) × (delete_router (registers sample_segments empty calls) ≡ ok h)
    × ((c : ℕ) → h.cells c ≡ none)
delete-registers_example = delete-registers sample_segments calls

insert-Outcome_example :
    InsertOutcome sample_segments
      (codes "/a/../b")
      (some 1)
      (insert sample_segments (codes "/a/../b") (some 1) (empty {T = ℕ}))
insert-Outcome_example =
    insert-Outcome sample_segments (codes "/a/../b") (some 1) empty empty-IsTree

search-registers-swap_example :
    search_segments (codes "a" ∷ codes "b" ∷ []) (
      registers sample_segments empty
        ([] ++ (codes "/a", some 1) ∷ (codes "/a/b", some 2) ∷ one_call))
    ≡ search_segments (codes "a" ∷ codes "b" ∷ []) (
        registers sample_segments empty
          ([] ++ (codes "/a/b", some 2) ∷ (codes "/a", some 1) ∷ one_call))
unfolding runs route cut
search-registers-swap_example =
    search-registers-swap sample_segments [] one_call (codes "/a", some 1) (codes "/a/b", some 2)
      (codes "a" ∷ codes "b" ∷ []) (λ e. cc)

option-set : IsSet (Option ℕ)
option-set = hlevel ℕ_set
