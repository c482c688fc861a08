-- ===== src/Avl/Order.antt =====
-- The items of the tree in order, and what the operations do to them.
use scoutfs.Avl.{
  Tree, fix_up, leaf, leans_left, leans_right, node, rotate_imbalance, rotate_left, rotate_right,
  set_height,
}
use scoutfs.Prelude.{
  Bool, Bool-cases, List, [], append_assoc, false, if◌then◌else◌, inl, inr, refl, sym, true, ℕ,
  ◌++◌, ◌∙◌, ◌∷◌, ◌≡◌,
}

module _ {ℓ} {A : Type ℓ} where
  unfoldable pub to_list : Tree A → List A
  to_list leaf = []
  to_list (node h l x r) = to_list l ++ x ∷ to_list r

  to_list-rotate_right : (t : Tree A) → to_list (rotate_right t) ≡ to_list t
  unfolding to_list rotate_right
  to_list-rotate_right leaf = refl
  to_list-rotate_right (node h leaf x r) = refl
  to_list-rotate_right (node h (node k a b c) d e) =
      sym (append_assoc (to_list a) (b ∷ to_list c) (d ∷ to_list e))

  to_list-rotate_left : (t : Tree A) → to_list (rotate_left t) ≡ to_list t
  unfolding to_list rotate_left
  to_list-rotate_left leaf = refl
  to_list-rotate_left (node h l x leaf) = refl
  to_list-rotate_left (node h a b (node k c d e)) =
      append_assoc (to_list a) (b ∷ to_list c) (d ∷ to_list e)

  if-left : (b : Bool) → (r : Tree A) → to_list (if b then rotate_right r else r) ≡ to_list r
  if-left true r = to_list-rotate_right r
  if-left false r = refl

  if-right : (b : Bool) → (r : Tree A) → to_list (if b then rotate_left r else r) ≡ to_list r
  if-right true r = to_list-rotate_left r
  if-right false r = refl

  to_list-node :
      (h k : ℕ)
      → (l l' : Tree A) → (x : A) → (r r' : Tree A) → to_list l ≡ to_list l'
      → to_list r ≡ to_list r'
      → to_list (node h l x r) ≡ to_list (node k l' x r')
  unfolding to_list
  to_list-node h k l l' x r r' e f = rw (e, f) refl

  to_list-rotate_imbalance : (t : Tree A) → to_list (rotate_imbalance t) ≡ to_list t
  unfolding rotate_imbalance
  to_list-rotate_imbalance leaf = refl
  to_list-rotate_imbalance (node h l x r) = elim (Bool-cases (leans_right 1 (node h l x r))) [
    | inl tall ↦
        rw (tall, rotate_imbalance)
          (to_list-rotate_left (node h l x (if leans_left 0 r then rotate_right r else r))
            ∙ to_list-node h h l l x (if leans_left 0 r then rotate_right r else r) r refl
                (if-left (leans_left 0 r) r))
    | inr not_tall ↦ elim (Bool-cases (leans_left 1 (node h l x r))) [
      | inl tall ↦
          rw (not_tall, tall, rotate_imbalance)
            (to_list-rotate_right (node h (if leans_right 0 l then rotate_left l else l) x r)
              ∙ to_list-node h h (if leans_right 0 l then rotate_left l else l) l x r r
                  (if-right (leans_right 0 l) l) refl)
      | inr even ↦ rw (not_tall, even, rotate_imbalance) refl
    ]
  ]

  pub to_list-fix_up :
      (l : Tree A) → (x : A) → (r : Tree A) → to_list (fix_up l x r) ≡ to_list l ++ x ∷ to_list r
  unfolding to_list
  to_list-fix_up l x r = to_list-rotate_imbalance (set_height l x r)
