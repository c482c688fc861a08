-- ===== src/Avl/Height.antt =====
-- Insertion and deletion in a balanced tree change its height by at most one and keep it balanced.
use scoutfs.Avl.{
  Side, Tree, avl_delete, avl_insert, fix_up, leaf, left, node, node_height, right, take_first,
  unlink,
}
use scoutfs.Avl.Higher.{higher, higher-left, higher-right, higher_comm}
use scoutfs.Avl.FixUp.{fix_up-Fixed}
use scoutfs.Avl.Balance.{IsAvl}
use scoutfs.Prelude.{Bool, List, [], arith, false, refl, true, ℕ, ◌+◌, ◌∷◌, ◌≡◌, ◌≤◌}

grown_heights :
    (nl nu nr t : ℕ)
    → nl ≤ nr + 1
    → nr ≤ nl + 1
    → nl ≤ nu
    → nu ≤ nl + 1
    → higher nu nr ≤ t
    → t ≤ 1 + higher nu nr
    → (nu ≤ nr + 1 → nr ≤ nu + 1 → t ≡ 1 + higher nu nr)
    → (1 + higher nl nr ≤ t) × (t ≤ 2 + higher nl nr)
unfolding higher
grown_heights nl nu nr t a b c d e f g = (ground arith, ground arith)

shrunk_heights :
    (nl nu nr t : ℕ)
    → nl ≤ nr + 1
    → nr ≤ nl + 1
    → nl ≤ nu + 1
    → nu ≤ nl
    → higher nu nr ≤ t
    → t ≤ 1 + higher nu nr
    → (nu ≤ nr + 1 → nr ≤ nu + 1 → t ≡ 1 + higher nu nr)
    → (higher nl nr ≤ t) × (t ≤ 1 + higher nl nr)
unfolding higher
shrunk_heights nl nu nr t a b c d e f g = (ground arith, ground arith)

module _ {ℓ} {A : Type ℓ} where
  -- A balanced tree that is at most one higher than another.
  pub record Grown (t u : Tree A) : Type 0 where
    pub is : IsAvl u
    pub low : node_height t ≤ node_height u
    pub high : node_height u ≤ node_height t + 1

  -- A balanced tree that is at most one lower than another.
  pub record Shrunk (t u : Tree A) : Type 0 where
    pub is : IsAvl u
    pub low : node_height t ≤ node_height u + 1
    pub high : node_height u ≤ node_height t

  insert_at_left :
      (h : ℕ)
      → (l u : Tree A) → (x : A) → (r : Tree A) → IsAvl (node h l x r)
      → Grown l u
      → Grown (node h l x r) (fix_up u x r)
  unfolding IsAvl
  insert_at_left h l u x r (e, l_near, r_near, vl, vr) g =
      let f = fix_up-Fixed u x r g.is vr (omega (arith, g.high)) (omega (arith, g.low)) in
      let b =
        grown_heights (node_height l) (node_height u) (node_height r) (node_height (fix_up u x r))
          l_near r_near g.low g.high f.low f.high f.even in
      record { is = f.is; low = omega (arith, b.0, e); high = omega (arith, b.1, e) }

  insert_at_right :
      (h : ℕ)
      → (l : Tree A) → (x : A) → (r u : Tree A) → IsAvl (node h l x r)
      → Grown r u
      → Grown (node h l x r) (fix_up l x u)
  unfolding IsAvl
  insert_at_right h l x r u (e, l_near, r_near, vl, vr) g =
      let f = fix_up-Fixed l x u vl g.is (omega (arith, g.low)) (omega (arith, g.high)) in
      let swap = higher_comm (node_height l) (node_height u) in
      let b =
        grown_heights (node_height r) (node_height u) (node_height l) (node_height (fix_up l x u))
          r_near l_near g.low g.high (omega (arith, f.low, swap)) (omega (arith, f.high, swap))
          (λ s t. omega (arith, f.even t s, swap)) in
      record {
        is = f.is;
        low = omega (arith, b.0, e, higher_comm (node_height l) (node_height r));
        high = omega (arith, b.1, e, higher_comm (node_height l) (node_height r));
      }

  delete_at_left :
      (h : ℕ)
      → (l u : Tree A) → (x : A) → (r : Tree A) → IsAvl (node h l x r)
      → Shrunk l u
      → Shrunk (node h l x r) (fix_up u x r)
  unfolding IsAvl
  delete_at_left h l u x r (e, l_near, r_near, vl, vr) g =
      let f = fix_up-Fixed u x r g.is vr (omega (arith, g.high)) (omega (arith, g.low)) in
      let b =
        shrunk_heights (node_height l) (node_height u) (node_height r) (node_height (fix_up u x r))
          l_near r_near g.low g.high f.low f.high f.even in
      record { is = f.is; low = omega (arith, b.0, e); high = omega (arith, b.1, e) }

  delete_at_right :
      (h : ℕ)
      → (l : Tree A) → (x : A) → (r u : Tree A) → IsAvl (node h l x r)
      → Shrunk r u
      → Shrunk (node h l x r) (fix_up l x u)
  unfolding IsAvl
  delete_at_right h l x r u (e, l_near, r_near, vl, vr) g =
      let f = fix_up-Fixed l x u vl g.is (omega (arith, g.low)) (omega (arith, g.high)) in
      let swap = higher_comm (node_height l) (node_height u) in
      let b =
        shrunk_heights (node_height r) (node_height u) (node_height l) (node_height (fix_up l x u))
          r_near l_near g.low g.high (omega (arith, f.low, swap)) (omega (arith, f.high, swap))
          (λ s t. omega (arith, f.even t s, swap)) in
      record {
        is = f.is;
        low = omega (arith, b.0, e, higher_comm (node_height l) (node_height r));
        high = omega (arith, b.1, e, higher_comm (node_height l) (node_height r));
      }

  -- Whether a path ends below the tree, where a node is missing.
  unfoldable pub ends_at_leaf : List Side → Tree A → Bool
  ends_at_leaf [] leaf = true
  ends_at_leaf [] (node h l x r) = false
  ends_at_leaf (s ∷ path) leaf = false
  ends_at_leaf (left ∷ path) (node h l x r) = ends_at_leaf path l
  ends_at_leaf (right ∷ path) (node h l x r) = ends_at_leaf path r

  -- Inserting a node where a leaf is keeps a balanced tree balanced, with its heights right, and at most one higher.
  pub avl_insert-Grown :
      (path : List Side)
      → (y : A) → (t : Tree A) → IsAvl t
      → ends_at_leaf path t ≡ true
      → Grown t (avl_insert path y t)
  unfolding avl_insert ends_at_leaf IsAvl higher
  avl_insert-Grown [] y leaf v ends = record {
    is = (refl, omega arith, omega arith, tt, tt);
    low = omega arith;
    high = omega arith;
  }
  avl_insert-Grown [] y (node h l x r) v ends = absurd cc
  avl_insert-Grown (s ∷ path) y leaf v ends = absurd cc
  avl_insert-Grown (left ∷ path) y (node h l x r) v ends =
      insert_at_left h l (avl_insert path y l) x r v (avl_insert-Grown path y l v.3 ends)
  avl_insert-Grown (right ∷ path) y (node h l x r) v ends =
      insert_at_right h l x r (avl_insert path y r) v (avl_insert-Grown path y r v.4 ends)

  take_first-Shrunk :
      (h : ℕ)
      → (l : Tree A) → (x : A) → (r : Tree A) → IsAvl (node h l x r)
      → Shrunk (node h l x r) (take_first l x r).1
  unfolding take_first IsAvl
  take_first-Shrunk h leaf x r v = record {
    is = v.4;
    low = omega (arith, v.0, higher-right 0 (node_height r) (omega arith));
    high = omega (arith, v.0, higher-right 0 (node_height r) (omega arith));
  }
  take_first-Shrunk h (node k a b c) x r v =
      delete_at_left h (node k a b c) (take_first a b c).1 x r v (take_first-Shrunk k a b c v.3)

  unlink-Shrunk :
      (h : ℕ)
      → (l : Tree A) → (x : A) → (r : Tree A) → IsAvl (node h l x r)
      → Shrunk (node h l x r) (unlink l r)
  unfolding unlink IsAvl
  unlink-Shrunk h leaf x r v = record {
    is = v.4;
    low = omega (arith, v.0, higher-right 0 (node_height r) (omega arith));
    high = omega (arith, v.0, higher-right 0 (node_height r) (omega arith));
  }
  unlink-Shrunk h (node k a b c) x leaf v = record {
    is = v.3;
    low = omega (arith, v.0, higher-left k 0 (omega arith));
    high = omega (arith, v.0, higher-left k 0 (omega arith));
  }
  unlink-Shrunk h (node k a b c) x (node j d e f) v =
      let g =
        delete_at_right h (node k a b c) (take_first d e f).0 (node j d e f) (take_first d e f).1 v
          (take_first-Shrunk j d e f v.4) in
      record { is = g.is; low = g.low; high = g.high }

  -- Deleting a node keeps a balanced tree balanced, with its heights right, and at most one lower.
  pub avl_delete-Shrunk : (path : List Side) → (t : Tree A) → IsAvl t → Shrunk t (avl_delete path t)
  unfolding avl_delete IsAvl
  avl_delete-Shrunk path leaf v = record { is = tt; low = omega arith; high = omega arith }
  avl_delete-Shrunk [] (node h l x r) v = unlink-Shrunk h l x r v
  avl_delete-Shrunk (left ∷ path) (node h l x r) v =
      delete_at_left h l (avl_delete path l) x r v (avl_delete-Shrunk path l v.3)
  avl_delete-Shrunk (right ∷ path) (node h l x r) v =
      delete_at_right h l x r (avl_delete path r) v (avl_delete-Shrunk path r v.4)
