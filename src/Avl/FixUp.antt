-- ===== src/Avl/FixUp.antt =====
-- The turn of the loop that sets a height and rotates: it balances two balanced subtrees again.
use scoutfs.Avl.{Tree, fix_up, leaf, node, node_height, rotate_imbalance, rotate_left, rotate_right}
use scoutfs.Avl.Balance.{
  Fixed, IsAvl, IsAvl-set_height, height-set_height, left_once, left_twice, right_once, right_twice,
}
use scoutfs.Prelude.{Bool-cases, arith, false, inl, inr, ltb, true, ◌+◌, ◌==◌, ◌≡◌, ◌≤◌}

module _ {ℓ} {A : Type ℓ} where
  fix_right :
      (l : Tree A)
      → (x : A) → (r : Tree A) → IsAvl l
      → IsAvl r
      → node_height r ≡ node_height l + 2
      → Fixed l r (fix_up l x r)
  unfolding rotate_imbalance rotate_left rotate_right
  fix_right l x leaf v w h = absurd (omega (arith, h))
  fix_right l x (node k leaf y c) v w h =
      let tall : ltb (node_height l + 1) k ≡ true = ground arith in
      let straight : ltb (node_height c + 0) 0 ≡ false = ground arith in
      rw (tall, straight, rotate_imbalance, rotate_left)
        (left_once l x leaf y c k v w h (omega arith))
  fix_right l x (node k (node j a z b) y c) v w h =
      let tall : ltb (node_height l + 1) k ≡ true = ground arith in
      elim (Bool-cases (ltb (node_height c + 0) j)) [
        | inl lean ↦
            rw (tall, lean, rotate_imbalance, rotate_left, rotate_right)
              (left_twice l x a z b y c j k v w h (ground arith))
        | inr straight ↦
            rw (tall, straight, rotate_imbalance, rotate_left)
              (left_once l x (node j a z b) y c k v w h (ground arith))
      ]

  fix_left :
      (l : Tree A)
      → (x : A) → (r : Tree A) → IsAvl l
      → IsAvl r
      → node_height l ≡ node_height r + 2
      → Fixed l r (fix_up l x r)
  unfolding rotate_imbalance rotate_left rotate_right
  fix_left leaf x r v w h = absurd (omega (arith, h))
  fix_left (node k a y leaf) x r v w h =
      let short : ltb (k + 1) (node_height r) ≡ false = ground arith in
      let tall : ltb (node_height r + 1) k ≡ true = ground arith in
      let straight : ltb (node_height a + 0) 0 ≡ false = ground arith in
      rw (short, tall, straight, rotate_imbalance, rotate_right)
        (right_once a y leaf x r k v w h (omega arith))
  fix_left (node k a y (node j b z c)) x r v w h =
      let short : ltb (k + 1) (node_height r) ≡ false = ground arith in
      let tall : ltb (node_height r + 1) k ≡ true = ground arith in
      elim (Bool-cases (ltb (node_height a + 0) j)) [
        | inl lean ↦
            rw (short, tall, lean, rotate_imbalance, rotate_left, rotate_right)
              (right_twice a y b z c x r j k v w h (ground arith))
        | inr straight ↦
            rw (short, tall, straight, rotate_imbalance, rotate_right)
              (right_once a y (node j b z c) x r k v w h (ground arith))
      ]

  fix_even :
      (l : Tree A)
      → (x : A) → (r : Tree A) → IsAvl l
      → IsAvl r
      → node_height l ≤ node_height r + 1
      → node_height r ≤ node_height l + 1
      → Fixed l r (fix_up l x r)
  unfolding rotate_imbalance
  fix_even l x r v w h k =
      let not_right : ltb (node_height l + 1) (node_height r) ≡ false = ground arith in
      let not_left : ltb (node_height r + 1) (node_height l) ≡ false = ground arith in
      let height = height-set_height l x r in
      rw (not_right, not_left, rotate_imbalance)
        (record {
          is = IsAvl-set_height l x r v w h k;
          low = omega (arith, height);
          high = omega (arith, height);
          even = λ s t. height;
        })

  pub fix_up-Fixed :
      (l : Tree A)
      → (x : A) → (r : Tree A) → IsAvl l
      → IsAvl r
      → node_height l ≤ node_height r + 2
      → node_height r ≤ node_height l + 2
      → Fixed l r (fix_up l x r)
  fix_up-Fixed l x r v w h k = elim (Bool-cases (node_height l == node_height r + 2)) [
    | inl tall ↦ fix_left l x r v w (ground arith)
    | inr low ↦ elim (Bool-cases (node_height r == node_height l + 2)) [
      | inl tall ↦ fix_right l x r v w (ground arith)
      | inr even ↦ fix_even l x r v w (ground arith) (ground arith)
    ]
  ]
