-- ===== src/Avl/Insert.antt =====
-- An insertion where a search without success ended.
use scoutfs.Avl.{Search, Tree, avl_insert, avl_search, leaf, node, search_from}
use scoutfs.Avl.Height.{Grown, avl_insert-Grown, ends_at_leaf}
use scoutfs.Avl.Balance.{IsAvl}
use scoutfs.Avl.Delete.{found-eq, found-gt, found-lt}
use scoutfs.Prelude.{Ordering, Ordering-cases, [], inl, inr, none, refl, some, sym, true, ◌∙◌, ◌≡◌}

module _ {ℓ} {A : Type ℓ} (compare : A → Ordering) where
  search_from-ends_at_leaf :
      (t : Tree A)
      → (s : Search A) → s.path ≡ []
      → s.found ≡ none
      → (search_from compare t s).found ≡ none
      → ends_at_leaf (search_from compare t s).path t ≡ true
  unfolding search_from ends_at_leaf
  search_from-ends_at_leaf leaf s p f missing = rw (p) refl
  search_from-ends_at_leaf (node h l x r) s p f missing = elim (Ordering-cases (compare x)) [
    | inl lt ↦
        rw (lt, search_from, ends_at_leaf)
          (search_from-ends_at_leaf l
            (record s { par = some x; cmp_ret = Ordering.lt; next = some x }) p f
            (sym (found-lt compare h l x r s lt) ∙ missing))
    | inr (inl eq) ↦
        let wrong : some x ≡ none = sym (found-eq compare h l x r s eq) ∙ missing in absurd cc
    | inr (inr gt) ↦
        rw (gt, search_from, ends_at_leaf)
          (search_from-ends_at_leaf r
            (record s { par = some x; cmp_ret = Ordering.gt; prev = some x }) p f
            (sym (found-gt compare h l x r s gt) ∙ missing))
  ]

  -- If the tree is balanced and a search finds no node, an insertion at the parent and side that it gives keeps the
  -- tree balanced, with its heights right, and at most one higher.
  pub avl_insert_balanced :
      (t : Tree A)
      → (y : A) → IsAvl t
      → (avl_search compare t).found ≡ none
      → Grown t (avl_insert (avl_search compare t).path y t)
  unfolding avl_search
  avl_insert_balanced t y v missing =
      avl_insert-Grown _ y t v (search_from-ends_at_leaf t _ refl refl missing)
