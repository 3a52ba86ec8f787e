-- ===== src/Router.antt =====
-- src/http_router.h: the tree of path nodes, on an explicit heap, and the three methods.
pub mod Shape
pub mod Walk
pub mod Write
pub mod Insert
pub mod Search
pub mod Table
pub mod Paths
pub mod Shadow
pub mod Errors
pub mod Order
pub mod Abstract
pub mod Delete
pub mod Whole
pub mod Under
pub mod Freed
mod Tests
use httpserver_cpp.Base.{
  ℕ, suc, ◌≡◌, Bool, true, false, ◌||◌, List, [], ◌∷◌, Option, none, some, ite, ℕ_discrete, ◌==◌,
  if◌then◌else◌, Bytes, codes, bytes_discrete,
}
use httpserver_cpp.Base.Dict.{Dict, find, assign}
use httpserver_cpp.Base.Result.{
  Exception, runtime_error, system_error, Result, ok, throws, fault, ◌>>=◌,
}

-- `children` holds addresses; `data_` is a pointer that may be null.
pub record HttpPathNode {ℓ} (T : Type ℓ) : Type ℓ where
  pub path : Bytes
  pub data_ : Option T
  pub children : Dict ℕ

-- The nodes that are allocated; `next` is the address that `new` returns.
pub record Heap {ℓ} (T : Type ℓ) : Type ℓ where
  pub next : ℕ
  pub cells : ℕ → Option (HttpPathNode T)

-- `root_`
abbrev pub root : ℕ
root = 0

abbrev pub update {ℓ} : {A : Type ℓ} → (ℕ → A) → ℕ → A → ℕ → A
update f a x b = ite (ℕ_discrete a b) x (f b)

module _ {ℓ} {T : Type ℓ} where
  abbrev pub new_node : Bytes → Option T → HttpPathNode T
  new_node path d = record { path = path; data_ = d; children = [] }

  -- `HttpRouter()`
  unfoldable pub empty : Heap T
  empty = record { next = 1; cells = update (λ _. none) root (some (new_node [] none)) }

  -- `node` is the object at `cur`: `new_node = new …; next_node->children_[key] = new_node;`
  unfoldable pub attach : Bytes → ℕ → HttpPathNode T → Heap T → Heap T
  attach key cur node h = record {
    next = suc h.next;
    cells =
        update (update h.cells h.next (some (new_node key none))) cur
          (some (record node { children = assign key h.next node.children }));
  }

  -- The loop of `insert`: the address where `next_node` ends.
  unfoldable pub insert_from : List Bytes → ℕ → Heap T → Result (ℕ × Heap T)
  insert_from [] cur h = ok (cur, h)
  insert_from ([] ∷ iter) cur h = ok (cur, h)
  insert_from ((c ∷ cs) ∷ iter) cur h = elim (h.cells cur) [
    | none ↦ fault
    | some node ↦ elim (find (c ∷ cs) node.children) [
      | some child ↦ insert_from iter child h
      | none ↦ insert_from iter h.next (attach (c ∷ cs) cur node h)
    ]
  ]

  -- `p->data_ = data`
  unfoldable pub set_data : ℕ → T → Heap T → Result (Heap T)
  set_data p d h = elim (h.cells p) [
    | none ↦ fault
    | some node ↦ ok (record h { cells = update h.cells p (some (record node { data_ = some d })) })
  ]

  unfoldable pub insert_segments : List Bytes → T → Heap T → Result (Heap T)
  insert_segments [] d h = set_data root d h
  insert_segments (s ∷ segments) d h = do
    (p, h') ← insert_from (s ∷ segments) root h
    set_data p d h'

  -- `p->data_`
  unfoldable pub get_data : ℕ → Heap T → Result (Option T)
  get_data p h = elim (h.cells p) [ none ↦ fault | some node ↦ ok node.data_ ]

  -- The loop of `search`: the address where `current_node` ends.
  unfoldable pub search_from : List Bytes → ℕ → Heap T → Result ℕ
  search_from [] cur h = ok cur
  search_from ([] ∷ iter) cur h = ok cur
  search_from ((c ∷ cs) ∷ iter) cur h = elim (h.cells cur) [
    | none ↦ fault
    | some node ↦ elim (find (c ∷ cs) node.children) [
      | none ↦ ok cur
      | some child ↦ search_from iter child h
    ]
  ]

  -- `search(urls::segments_view)`
  unfoldable pub search_segments : List Bytes → Heap T → Result (Option T)
  search_segments [] h = get_data root h
  search_segments (s ∷ segments) h = do
    cur ← search_from (s ∷ segments) root h
    ite (ℕ_discrete cur root) (ok none) (get_data cur h)

-- `path[0] == '/'`; `path[0]` of an empty string is '\0'.
unfoldable pub starts_with_slash : Bytes → Bool
starts_with_slash [] = false
starts_with_slash (c ∷ s) = c == b'/'

-- `path.find("..") != npos`
unfoldable pub has_dots : Bytes → Bool
has_dots [] = false
has_dots (c ∷ []) = false
has_dots (c ∷ d ∷ s) = ite (bytes_discrete (c ∷ d ∷ []) (codes "..")) true (has_dots (d ∷ s))

-- `urls::segments_view(path)`: the decoded segments of a path, or `none` where it throws.
module _ {ℓ} {T : Type ℓ} (segments_view : Bytes → Option (List Bytes)) where
  unfoldable pub insert : Bytes → Option T → Heap T → Result (Heap T)
  insert path none h = throws (runtime_error "data should be not empty")
  insert path (some d) h =
      if starts_with_slash path
      then (if has_dots path
          then throws (runtime_error "path is invalid")
          else elim (segments_view path) [
            | none ↦ throws system_error
            | some segments ↦ insert_segments segments d h
          ])
      else throws (runtime_error "path should start with '/'")

  -- `search(beast::string_view)`
  unfoldable pub search_path : Bytes → Heap T → Result (Option T)
  search_path [] h = get_data root h
  search_path (c ∷ s) h =
      if starts_with_slash (c ∷ s)
      then elim (segments_view (c ∷ s)) [
        | none ↦ throws system_error
        | some segments ↦ search_segments segments h
      ]
      else ok none
