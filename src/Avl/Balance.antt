-- ===== src/Avl/Balance.antt =====
-- Balanced trees, and what the rotations make of two subtrees.
use scoutfs.Avl.{Tree, leaf, node, node_height, set_height}
use scoutfs.Avl.Higher.{higher, higher-left, higher-right, higher_comm, once, twice}
use scoutfs.Prelude.{ap, arith, refl, ℕ, ◌+◌, ◌<◌, ◌∙◌, ◌≡◌, ◌≤◌}

module _ {ℓ} {A : Type ℓ} where
  -- Heights are right, and those of siblings differ by at most one.
  unfoldable pub IsAvl : Tree A → Type 0
  IsAvl leaf = Unit
  IsAvl (node h l x r) =
      (h ≡ 1 + higher (node_height l) (node_height r))
      × (node_height l ≤ node_height r + 1)
      × (node_height r ≤ node_height l + 1)
      × IsAvl l
      × IsAvl r

  pub IsAvl-set_height :
      (l : Tree A)
      → (x : A) → (r : Tree A) → IsAvl l
      → IsAvl r
      → node_height l ≤ node_height r + 1
      → node_height r ≤ node_height l + 1
      → IsAvl (set_height l x r)
  unfolding IsAvl higher
  IsAvl-set_height l x r v w h k = (refl, h, k, v, w)

  pub height-set_height :
      (l : Tree A)
      → (x : A) → (r : Tree A)
      → node_height (set_height l x r) ≡ 1 + higher (node_height l) (node_height r)
  unfolding higher
  height-set_height l x r = refl

  -- A balanced tree with a height that lies between that of the taller subtree and one more.
  pub record Fixed (l r : Tree A) (t : Tree A) : Type 0 where
    pub is : IsAvl t
    pub low : higher (node_height l) (node_height r) ≤ node_height t
    pub high : node_height t ≤ 1 + higher (node_height l) (node_height r)
    pub even :
        node_height l ≤ node_height r + 1
        → node_height r ≤ node_height l + 1
        → node_height t ≡ 1 + higher (node_height l) (node_height r)

  pub left_once :
      (l : Tree A)
      → (x : A) → (d : Tree A) → (y : A) → (c : Tree A) → (k : ℕ) → IsAvl l
      → IsAvl (node k d y c)
      → k ≡ node_height l + 2
      → node_height d ≤ node_height c
      → Fixed l (node k d y c) (set_height (set_height l x d) y c)
  unfolding IsAvl
  left_once l x d y c k v (e, d_near, c_near, vd, vc) h lean =
      let (c_is, l_le, H) =
        once (node_height l) (node_height d) (node_height c) k e h lean c_near in
      let inner = height-set_height l x d in
      let outer = height-set_height (set_height l x d) y c in
      let top =
        higher-left (node_height (set_height l x d)) (node_height c) (omega (arith, inner, H)) in
      let tall = higher-right (node_height l) k (omega arith) in
      record {
        is =
            IsAvl-set_height (set_height l x d) y c
              (IsAvl-set_height l x d v vd (omega arith) (omega arith)) vc (omega (arith, inner, H))
              (omega (arith, inner, H));
        low = omega (arith, inner, outer, H, top, tall);
        high = omega (arith, inner, outer, H, top, tall);
        even = λ a b. absurd (omega arith);
      }

  pub left_twice :
      (l : Tree A)
      → (x : A) → (a : Tree A) → (z : A) → (b : Tree A) → (y : A) → (c : Tree A) → (j k : ℕ)
      → IsAvl l
      → IsAvl (node k (node j a z b) y c)
      → k ≡ node_height l + 2
      → node_height c < j
      → Fixed l (node k (node j a z b) y c) (set_height (set_height l x a) z (set_height b y c))
  unfolding IsAvl
  left_twice l x a z b y c j k v (e, d_near, c_near, (f, a_near, b_near, va, vb), vc) h lean =
      let (c_is, j_is, H, G, al, la, bl, lb) =
        twice (node_height l) (node_height a) (node_height b) (node_height c) j k f e h lean
          (omega arith) a_near b_near in
      let p = height-set_height l x a in
      let q = height-set_height b y c in
      let outer = height-set_height (set_height l x a) z (set_height b y c) in
      let top =
        higher-left (node_height (set_height l x a)) (node_height (set_height b y c))
          (omega (arith, p, q, H, G)) in
      let tall = higher-right (node_height l) k (omega arith) in
      record {
        is =
            IsAvl-set_height (set_height l x a) z (set_height b y c)
              (IsAvl-set_height l x a v va (omega arith) (omega arith))
              (IsAvl-set_height b y c vb vc (omega arith) (omega arith)) (omega (arith, p, q, H, G))
              (omega (arith, p, q, H, G));
        low = omega (arith, p, q, outer, H, G, top, tall);
        high = omega (arith, p, q, outer, H, G, top, tall);
        even = λ s t. absurd (omega arith);
      }

  pub right_once :
      (a : Tree A)
      → (y : A) → (d : Tree A) → (x : A) → (r : Tree A) → (k : ℕ) → IsAvl (node k a y d)
      → IsAvl r
      → k ≡ node_height r + 2
      → node_height d ≤ node_height a
      → Fixed (node k a y d) r (set_height a y (set_height d x r))
  unfolding IsAvl
  right_once a y d x r k (e, a_near, d_near, va, vd) w h lean =
      let (a_is, r_le, H) =
        once (node_height r) (node_height d) (node_height a) k
          (e ∙ ap (λ n. 1 + n) (higher_comm (node_height a) (node_height d))) h lean a_near in
      let inner = height-set_height d x r in
      let swap = higher_comm (node_height d) (node_height r) in
      let outer = height-set_height a y (set_height d x r) in
      let top =
        higher-right (node_height a) (node_height (set_height d x r))
          (omega (arith, inner, swap, H)) in
      let tall = higher-left k (node_height r) (omega arith) in
      record {
        is =
            IsAvl-set_height a y (set_height d x r) va
              (IsAvl-set_height d x r vd w (omega arith) (omega arith))
              (omega (arith, inner, swap, H)) (omega (arith, inner, swap, H));
        low = omega (arith, inner, swap, outer, H, top, tall);
        high = omega (arith, inner, swap, outer, H, top, tall);
        even = λ s t. absurd (omega arith);
      }

  pub right_twice :
      (a : Tree A)
      → (y : A) → (b : Tree A) → (z : A) → (c : Tree A) → (x : A) → (r : Tree A) → (j k : ℕ)
      → IsAvl (node k a y (node j b z c))
      → IsAvl r
      → k ≡ node_height r + 2
      → node_height a < j
      → Fixed (node k a y (node j b z c)) r (set_height (set_height a y b) z (set_height c x r))
  unfolding IsAvl
  right_twice a y b z c x r j k (e, a_near, d_near, va, (f, b_near, c_near, vb, vc)) w h lean =
      let (a_is, j_is, H, G, cl, lc, bl, lb) =
        twice (node_height r) (node_height c) (node_height b) (node_height a) j k
          (f ∙ ap (λ n. 1 + n) (higher_comm (node_height b) (node_height c)))
          (e ∙ ap (λ n. 1 + n) (higher_comm (node_height a) j)) h lean (omega arith) c_near
          b_near in
      let p = height-set_height a y b in
      let q = height-set_height c x r in
      let swap = higher_comm (node_height c) (node_height r) in
      let swap' = higher_comm (node_height a) (node_height b) in
      let outer = height-set_height (set_height a y b) z (set_height c x r) in
      let top =
        higher-left (node_height (set_height a y b)) (node_height (set_height c x r))
          (omega (arith, p, q, H, G, swap, swap')) in
      let tall = higher-left k (node_height r) (omega arith) in
      record {
        is =
            IsAvl-set_height (set_height a y b) z (set_height c x r)
              (IsAvl-set_height a y b va vb (omega arith) (omega arith))
              (IsAvl-set_height c x r vc w (omega arith) (omega arith))
              (omega (arith, p, q, H, G, swap, swap')) (omega (arith, p, q, H, G, swap, swap'));
        low = omega (arith, p, q, outer, H, G, top, tall, swap, swap');
        high = omega (arith, p, q, outer, H, G, top, tall, swap, swap');
        even = λ s t. absurd (omega arith);
      }
