-- ===== src/Avl.antt =====
-- kmod/src/avl.c: the balanced tree of the items in a btree block. A node is found by the path to it from the root,
-- which stands for its offset and its parent's; the loop that goes up from a parent is the return from the recursion.
-- The height is a natural number; the source keeps it in a u8.
mod Higher
mod Balance
mod FixUp
mod Height
mod Insert
mod Order
mod Delete
mod Edit
mod Examples
use scoutfs.Prelude.{
  Bool, List, Option, Ordering, [], compare, false, if◌then◌else◌, ltb, none, some, ℕ, ◌+◌, ◌∷◌,
}

-- `struct scoutfs_avl_node` with what its left and right offsets lead to
pub data Tree {ℓ} (A : Type ℓ) : Type ℓ where
  leaf : Tree A
  node : ℕ → Tree A → A → Tree A → Tree A

pub data Side : Type 0 where
  left right : Side

-- What `scoutfs_avl_search` returns and stores; the path leads to where its walk ended.
pub record Search {ℓ} (A : Type ℓ) : Type ℓ where
  pub found : Option A
  pub cmp_ret : Ordering
  pub par : Option A
  pub next : Option A
  pub prev : Option A
  pub path : List Side

module _ {ℓ} {A : Type ℓ} where
  abbrev pub node_height : Tree A → ℕ
  node_height leaf = 0
  node_height (node h l x r) = h

  -- `set_height` of the node with these children
  abbrev pub set_height : Tree A → A → Tree A → Tree A
  set_height l x r =
      node (1 + (if ltb (node_height l) (node_height r) then node_height r else node_height l)) l x
        r

  -- `node_balance` is positive by more than `n`, and negative by more than `n`.
  abbrev pub leans_right : ℕ → Tree A → Bool
  leans_right n leaf = false
  leans_right n (node h l x r) = ltb (node_height l + n) (node_height r)

  abbrev pub leans_left : ℕ → Tree A → Bool
  leans_left n leaf = false
  leans_left n (node h l x r) = ltb (node_height r + n) (node_height l)

  unfoldable pub rotate_right : Tree A → Tree A
  rotate_right (node h (node k a b c) d e) = set_height a b (set_height c d e)
  rotate_right t = t

  unfoldable pub rotate_left : Tree A → Tree A
  rotate_left (node h a b (node k c d e)) = set_height (set_height a b c) d e
  rotate_left t = t

  -- For a node with its height set.
  unfoldable pub rotate_imbalance : Tree A → Tree A
  rotate_imbalance leaf = leaf
  rotate_imbalance (node h l x r) =
      if leans_right 1 (node h l x r)
      then rotate_left (node h l x (if leans_left 0 r then rotate_right r else r))
      else if leans_left 1 (node h l x r)
      then rotate_right (node h (if leans_right 0 l then rotate_left l else l) x r)
      else node h l x r

  -- One turn of the loops that end `scoutfs_avl_insert` and `scoutfs_avl_delete`.
  abbrev pub fix_up : Tree A → A → Tree A → Tree A
  fix_up l x r = rotate_imbalance (set_height l x r)

  unfoldable pub search_from : (A → Ordering) → Tree A → Search A → Search A
  search_from compare leaf s = s
  search_from compare (node h l x r) s = elim (compare x) [
    | Ordering.lt ↦
        let t =
          search_from compare l (record s { par = some x; cmp_ret = Ordering.lt; next = some x }) in
        record t { path = left ∷ t.path }
    | Ordering.gt ↦
        let t =
          search_from compare r (record s { par = some x; cmp_ret = Ordering.gt; prev = some x }) in
        record t { path = right ∷ t.path }
    | Ordering.eq ↦ record s { found = some x; par = some x; cmp_ret = Ordering.eq }
  ]

  unfoldable pub avl_search : (A → Ordering) → Tree A → Search A
  avl_search compare t = search_from compare t (record {
    found = none;
    cmp_ret = Ordering.lt;
    par = none;
    next = none;
    prev = none;
    path = [];
  })

  unfoldable pub avl_first : Tree A → Option A
  avl_first leaf = none
  avl_first (node h leaf x r) = some x
  avl_first (node h (node k a b c) x r) = avl_first (node k a b c)

  unfoldable pub avl_last : Tree A → Option A
  avl_last leaf = none
  avl_last (node h l x leaf) = some x
  avl_last (node h l x (node k a b c)) = avl_last (node k a b c)

  -- The path is that of the parent and then the side that the sign of `cmp` gives.
  unfoldable pub avl_insert : List Side → A → Tree A → Tree A
  avl_insert [] y t = node 1 leaf y leaf
  avl_insert (s ∷ path) y leaf = leaf
  avl_insert (left ∷ path) y (node h l x r) = fix_up (avl_insert path y l) x r
  avl_insert (right ∷ path) y (node h l x r) = fix_up l x (avl_insert path y r)

  -- `avl_successor`'s node below a node, which `swap_with_successor` moves away, and the tree without it.
  unfoldable pub take_first : Tree A → A → Tree A → A × Tree A
  take_first leaf x r = (x, r)
  take_first (node h a b c) x r = let (y, l) = take_first a b c in (y, fix_up l x r)

  unfoldable pub unlink : Tree A → Tree A → Tree A
  unlink leaf r = r
  unlink l leaf = l
  unlink (node h a b c) (node k d e f) = let (y, r) = take_first d e f in fix_up (node h a b c) y r

  unfoldable pub avl_delete : List Side → Tree A → Tree A
  avl_delete path leaf = leaf
  avl_delete [] (node h l x r) = unlink l r
  avl_delete (left ∷ path) (node h l x r) = fix_up (avl_delete path l) x r
  avl_delete (right ∷ path) (node h l x r) = fix_up l x (avl_delete path r)
