-- ===== src/Router/Shape.antt =====
-- src/http_router.h: the shape of the heap of path nodes, its growth, and what one new node does.
use httpserver_cpp.Base.{
  ℕ, suc, ◌≤◌, ◌<◌, ◌≡◌, refl, ◌∙◌, ap, ◌⊎◌, inl, inr, Option, none, some, ite, Option-cases, [],
  arith, dec_lt, ℕ_discrete, Bytes, bytes_discrete,
}
use httpserver_cpp.Base.Dict.{find, find-assign}
use httpserver_cpp.Router.{HttpPathNode, Heap, root, new_node, empty, attach}

module _ {ℓ} {T : Type ℓ} where
  find_child : Option (HttpPathNode T) → Bytes → Option ℕ
  find_child none k = none
  find_child (some node) k = find k node.children

  -- The child of the node at `a` under the key `k`.
  unfoldable pub child : Heap T → ℕ → Bytes → Option ℕ
  unfolding find_child
  child h a k = find_child (h.cells a) k

  pub child_of_cell :
      (h : Heap T) (a : ℕ) (k : Bytes) (node : HttpPathNode T)
      → h.cells a ≡ some node
      → child h a k ≡ find k node.children
  unfolding child
  child_of_cell h a k node e = rw e

  pub data_of : Option (HttpPathNode T) → Option T
  data_of none = none
  data_of (some node) = node.data_

  -- The data of the node at `a`.
  unfoldable pub datum : Heap T → ℕ → Option T
  unfolding data_of
  datum h a = data_of (h.cells a)

  -- Each node below `next` is allocated, and the children form a tree below the root.
  pub record IsTree (h : Heap T) : Type ℓ where
    pub rooted : root < h.next
    pub live : (a : ℕ) → a < h.next → (node : HttpPathNode T) × (h.cells a ≡ some node)
    pub dead : (a : ℕ) → h.next ≤ a → h.cells a ≡ none
    pub below : (a : ℕ) (k : Bytes) (b : ℕ) → child h a k ≡ some b → (a < b) × (b < h.next)
    pub unique :
        (a a' : ℕ) (k k' : Bytes) (b : ℕ)
        → child h a k ≡ some b
        → child h a' k' ≡ some b
        → (a ≡ a') × (k ≡ k')

  -- `h'` has all of `h`, and what it has more are nodes without data.
  pub record Grows (h h' : Heap T) : Type ℓ where
    pub size : h.next ≤ h'.next
    pub keeps : (a : ℕ) (k : Bytes) (b : ℕ) → child h a k ≡ some b → child h' a k ≡ some b
    pub adds :
        (a : ℕ) (k : Bytes) (b : ℕ) → child h' a k ≡ some b → (child h a k ≡ some b) ⊎ (h.next ≤ b)
    pub old_data : (a : ℕ) → a < h.next → datum h' a ≡ datum h a
    pub new_data : (a : ℕ) → h.next ≤ a → datum h' a ≡ none

  pub Grows-refl : (h : Heap T) → IsTree h → Grows h h
  unfolding datum
  Grows-refl h t = record {
    size = omega arith;
    keeps = λ a k b e. e;
    adds = λ a k b e. inl e;
    old_data = λ a p. refl;
    new_data = λ a p. ap data_of (t.dead a p);
  }

  pub Grows-trans : (h g f : Heap T) → Grows h g → Grows g f → Grows h f
  Grows-trans h g f p q = record {
    size = omega (arith, p.size, q.size);
    keeps = λ a k b e. q.keeps a k b (p.keeps a k b e);
    adds = λ a k b e. elim (q.adds a k b e) [
      | inl old ↦ p.adds a k b old
      | inr far ↦ inr (omega (arith, p.size))
    ];
    old_data = λ a below. q.old_data a (omega (arith, p.size)) ∙ p.old_data a below;
    new_data = λ a above. elim (dec_lt a g.next) [
      | yes old ↦ q.old_data a old ∙ p.new_data a above
      | no far ↦ q.new_data a (omega arith)
    ];
  }

  pub empty-IsTree : IsTree (empty {T = T})
  unfolding empty child find ℕ_discrete
  empty-IsTree = record {
    rooted = omega arith;
    live = λ a p. (new_node [] none, ground arith);
    dead = λ a p. ground arith;
    below = λ a k b e. ground arith;
    unique = λ a a' k k' b e e'. ground arith;
  }

  pub attach-next :
      (key : Bytes) (cur : ℕ) (node : HttpPathNode T) (h : Heap T)
      → (attach key cur node h).next ≡ suc h.next
  unfolding attach
  attach-next key cur node h = refl

  -- The children after one new node.
  pub child-attach :
      (h : Heap T) (key : Bytes) (cur : ℕ) (node : HttpPathNode T) (a : ℕ) (k : Bytes)
      → h.cells cur ≡ some node
      → cur < h.next
      → child (attach key cur node h) a k
        ≡ ite (ℕ_discrete h.next a) none (
            ite
              (ℕ_discrete cur a)
              (ite (bytes_discrete key k) (some h.next) (child h a k))
              (child h a k))
  unfolding child attach find
  child-attach h key cur node a k e p = ground (arith, find-assign key k h.next node.children)

  pub datum-attach :
      (h : Heap T) (key : Bytes) (cur : ℕ) (node : HttpPathNode T) (a : ℕ)
      → h.cells cur ≡ some node
      → cur < h.next
      → datum (attach key cur node h) a ≡ ite (ℕ_discrete h.next a) none (datum h a)
  unfolding datum attach
  datum-attach h key cur node a e p = ground arith

  module _ (h : Heap T) (key : Bytes) (cur : ℕ) (node : HttpPathNode T) (t : IsTree h)
      (at : h.cells cur ≡ some node) (missing : find key node.children ≡ none) where
    cur-lt : cur < h.next
    cur-lt = elim (dec_lt cur h.next) [ yes p ↦ p | no p ↦ absurd (cc (t.dead cur (omega arith))) ]

    child_missing : child h cur key ≡ none
    unfolding child
    child_missing = rw at missing

    child_dead : (a : ℕ) (k : Bytes) → h.next ≤ a → child h a k ≡ none
    unfolding child
    child_dead a k p = rw (t.dead a p)

    child_cases :
        (a : ℕ) (k : Bytes) (b : ℕ)
        → child (attach key cur node h) a k ≡ some b
        → (child h a k ≡ some b) ⊎ ((a ≡ cur) × (k ≡ key) × (b ≡ h.next))
    child_cases a k b e = ground (arith, child-attach h key cur node a k at cur-lt)

    attach-size : h.next ≤ (attach key cur node h).next
    unfolding attach
    attach-size = omega arith

    datum_dead : (a : ℕ) → h.next ≤ a → datum h a ≡ none
    unfolding datum
    datum_dead a p = ap data_of (t.dead a p)

    pub attach-child : child (attach key cur node h) cur key ≡ some h.next
    attach-child = ground (arith, child-attach h key cur node cur key at cur-lt, cur-lt)

    pub attach-Grows : Grows h (attach key cur node h)
    attach-Grows = record {
      size = attach-size;
      keeps = λ a k b e.
          ground (arith, child-attach h key cur node a k at cur-lt, child_missing, child_dead a k);
      adds = λ a k b e. ground (arith, child_cases a k b e);
      old_data = λ a p. ground (arith, datum-attach h key cur node a at cur-lt);
      new_data = λ a p. ground (arith, datum-attach h key cur node a at cur-lt, datum_dead a);
    }

    pub attach-IsTree : IsTree (attach key cur node h)
    unfolding attach
    attach-IsTree = record {
      rooted = omega (arith, t.rooted);
      live = λ a p. elim (Option-cases ((attach key cur node h).cells a)) [
        | inl e ↦ absurd (ground (arith, t.live a, cur-lt))
        | inr found ↦ found
      ];
      dead = λ a p. ground (arith, t.dead a, cur-lt);
      below = λ a k b e. ground (arith, child_cases a k b e, t.below a k b, cur-lt);
      unique = λ a a' k k' b e e'. ground (
        arith,
        child_cases a k b e,
        child_cases a' k' b e',
        t.below a k b,
        t.below a' k' b,
        t.unique a a' k k' b,
      );
    }
