-- ===== src/Router/Delete.antt =====
-- src/http_router.h: the destructors of the nodes and of the router.
use httpserver_cpp.Base.{ℕ, zero, suc, none, some, [], ◌∷◌}
use httpserver_cpp.Base.Dict.{Dict}
use httpserver_cpp.Base.Result.{Result, ok, fault, ◌>>=◌}
use httpserver_cpp.Router.{Heap, root, update}

module _ {ℓ} {T : Type ℓ} where
  -- The memory at `a` is given back.
  abbrev pub free : ℕ → Heap T → Heap T
  free a h = record h { cells = update h.cells a none }

  -- `for (auto pair : children_) delete pair.second;`
  unfoldable pub delete_children :
      (ℕ → Heap T → Result (Heap T)) → Dict ℕ → Heap T → Result (Heap T)
  delete_children delete [] h = ok h
  delete_children delete ((k, b) ∷ rest) h = do h' ← delete b h; delete_children delete rest h'

  -- `delete p`: `~HttpPathNode`, and then the memory. The fuel bounds the depth of the recursion;
  -- to run out of it is a `fault`, as is the deletion of a node that is not there.
  unfoldable pub delete_node : (fuel : ℕ) → ℕ → Heap T → Result (Heap T)
  delete_node zero p h = fault
  delete_node (suc fuel) p h = elim (h.cells p) [
    | none ↦ fault
    | some node ↦ do h' ← delete_children (delete_node fuel) node.children h; ok (free p h')
  ]

  -- `~HttpRouter`
  unfoldable pub delete_router : Heap T → Result (Heap T)
  delete_router h = delete_node h.next root h
