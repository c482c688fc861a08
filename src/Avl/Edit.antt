-- ===== src/Avl/Edit.antt =====
-- Where a search ends, and the items in order after an insertion or a deletion there.
use scoutfs.Avl.{Search, Tree, avl_insert, avl_search, leaf, node, search_from}
use scoutfs.Avl.Order.{to_list, to_list-fix_up}
use scoutfs.Prelude.{
  All, List, Ordering, Ordering-cases, [], ap, inl, inr, none, refl, some, sym, ◌++◌, ◌∙◌, ◌∷◌, ◌≡◌,
  ◌⊎◌,
}

module _ {ℓ} {A : Type ℓ} (compare : A → Ordering) where
  -- An item before the first one that the searched place does not come after.
  unfoldable pub list_insert : A → List A → List A
  list_insert y [] = y ∷ []
  list_insert y (z ∷ zs) = elim (compare z) [ Ordering.gt ↦ z ∷ list_insert y zs | _ ↦ y ∷ z ∷ zs ]

  -- The searched place comes after some first items and before all others.
  unfoldable pub IsSplit : List A → Type ℓ
  IsSplit [] = Unit
  IsSplit (z ∷ zs) =
      ((compare z ≡ Ordering.gt) × IsSplit zs) ⊎ All (λ w. compare w ≡ Ordering.lt) (z ∷ zs)

  insert-before :
      (y : A)
      → (L : List A) → (v : A) → (R : List A) → compare v ≡ Ordering.lt
      → list_insert y (L ++ v ∷ R) ≡ list_insert y L ++ v ∷ R
  unfolding list_insert
  insert-before y [] v R e = rw (e) refl
  insert-before y (z ∷ L) v R e = elim (Ordering-cases (compare z)) [
    | inl lt ↦ rw (lt, list_insert) refl
    | inr (inl eq) ↦ rw (eq, list_insert) refl
    | inr (inr gt) ↦ rw (gt, list_insert) (ap (λ M. z ∷ M) (insert-before y L v R e))
  ]

  insert-behind :
      (y : A)
      → (L : List A) → (v : A) → (R : List A) → All (λ w. compare w ≡ Ordering.gt) L
      → compare v ≡ Ordering.gt
      → list_insert y (L ++ v ∷ R) ≡ L ++ v ∷ list_insert y R
  unfolding list_insert
  insert-behind y [] v R all e = rw (e) refl
  insert-behind y (z ∷ L) v R all e = rw (all.0) (ap (λ M. z ∷ M) (insert-behind y L v R all.1 e))

  All-lt_at :
      (L : List A)
      → (v : A) → (R : List A) → All (λ w. compare w ≡ Ordering.lt) (L ++ v ∷ R)
      → (compare v ≡ Ordering.lt) × All (λ w. compare w ≡ Ordering.lt) L
  All-lt_at [] v R all = (all.0, tt)
  All-lt_at (z ∷ L) v R all = let rest = All-lt_at L v R all.1 in (rest.0, (all.0, rest.1))

  IsSplit-lt : (L : List A) → All (λ w. compare w ≡ Ordering.lt) L → IsSplit L
  unfolding IsSplit
  IsSplit-lt [] all = tt
  IsSplit-lt (z ∷ L) all = inr all

  IsSplit-parts :
      (L : List A)
      → (v : A) → (R : List A) → IsSplit (L ++ v ∷ R)
      → ((compare v ≡ Ordering.gt) × All (λ w. compare w ≡ Ordering.gt) L × IsSplit R)
        ⊎ ((compare v ≡ Ordering.lt) × IsSplit L)
  unfolding IsSplit
  IsSplit-parts [] v R (inl s) = inl (s.0, tt, s.1)
  IsSplit-parts [] v R (inr all) = inr (all.0, tt)
  IsSplit-parts (z ∷ L) v R (inr all) =
      let rest = All-lt_at (z ∷ L) v R all in inr (rest.0, inr rest.1)
  IsSplit-parts (z ∷ L) v R (inl s) = elim (IsSplit-parts L v R s.1) [
    | inl h ↦ inl (h.0, (s.0, h.1), h.2)
    | inr h ↦ inr (h.0, inl (s.0, h.1))
  ]

  insert_from :
      (t : Tree A)
      → (y : A) → (s : Search A) → s.path ≡ []
      → s.found ≡ none
      → IsSplit (to_list t)
      → ((search_from compare t s).found ≡ none)
        × (to_list (avl_insert (search_from compare t s).path y t) ≡ list_insert y (to_list t))
  unfolding search_from avl_insert to_list list_insert
  insert_from leaf y s p f split = (f, rw (p) refl)
  insert_from (node h l x r) y s p f split = elim (IsSplit-parts (to_list l) x (to_list r) split) [
    | inl (gt, before, after) ↦
        let rest =
          insert_from r y (record s { par = some x; cmp_ret = Ordering.gt; prev = some x }) p f
            after in
        rw (gt, search_from, avl_insert)
          ((
            rest.0,
            to_list-fix_up l x (
                  avl_insert
                    (search_from compare r
                      (record s { par = some x; cmp_ret = Ordering.gt; prev = some x })).path
                    y r)
                ∙ ap (λ M. to_list l ++ x ∷ M) rest.1
                ∙ sym (insert-behind y (to_list l) x (to_list r) before gt),
          ))
    | inr (lt, before) ↦
        let rest =
          insert_from l y (record s { par = some x; cmp_ret = Ordering.lt; next = some x }) p f
            before in
        rw (lt, search_from, avl_insert)
          ((
            rest.0,
            to_list-fix_up
                  (avl_insert
                    (search_from compare l
                      (record s { par = some x; cmp_ret = Ordering.lt; next = some x })).path
                    y l)
                  x r
                ∙ ap (λ M. M ++ x ∷ to_list r) rest.1
                ∙ sym (insert-before y (to_list l) x (to_list r) lt),
          ))
  ]

  -- Where the searched place comes after some first items of a tree and before all others, the search finds no node,
  -- and an insertion at the parent and side that it gives puts the new item in that place of the order.
  pub avl_insert-list_insert :
      (t : Tree A)
      → (y : A) → IsSplit (to_list t)
      → ((avl_search compare t).found ≡ none)
        × (to_list (avl_insert (avl_search compare t).path y t) ≡ list_insert y (to_list t))
  unfolding avl_search
  avl_insert-list_insert t y split = insert_from t y _ refl refl split
