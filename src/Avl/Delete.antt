-- ===== src/Avl/Delete.antt =====
-- The items in order after a deletion of the node that a search found.
use scoutfs.Avl.{
  Search, Tree, avl_delete, avl_search, fix_up, leaf, node, search_from, take_first, unlink,
}
use scoutfs.Avl.Order.{to_list, to_list-fix_up}
use scoutfs.Prelude.{
  List, Ordering, Ordering-cases, [], ap, append-nil, append_assoc, compare, inl, inr, none, refl,
  some, some_inj, sym, ℕ, ◌++◌, ◌∙◌, ◌∷◌, ◌≡◌,
}

module _ {ℓ} {A : Type ℓ} where
  to_list-take_first :
      (l : Tree A)
      → (x : A) → (r : Tree A)
      → (take_first l x r).0 ∷ to_list (take_first l x r).1 ≡ to_list l ++ x ∷ to_list r
  unfolding take_first to_list
  to_list-take_first leaf x r = refl
  to_list-take_first (node h a b c) x r =
      let first = (take_first a b c).0 in
      ap (λ M. first ∷ M) (to_list-fix_up (take_first a b c).1 x r)
      ∙ ap (λ M. M ++ x ∷ to_list r) (to_list-take_first a b c)

  to_list-unlink : (l r : Tree A) → to_list (unlink l r) ≡ to_list l ++ to_list r
  unfolding unlink to_list
  to_list-unlink leaf r = refl
  to_list-unlink (node h a b c) leaf = sym (append-nil (to_list a ++ b ∷ to_list c))
  to_list-unlink (node h a b c) (node k d e f) =
      to_list-fix_up (node h a b c) (take_first d e f).0 (take_first d e f).1
      ∙ ap (λ M. (to_list a ++ b ∷ to_list c) ++ M) (to_list-take_first d e f)

  -- The node is one item of the tree, and the deletion leaves the others as they were.
  pub record Deletes (compare : A → Ordering) (v : A) (t u : Tree A) : Type ℓ where
    before : List A
    after : List A
    equal : compare v ≡ Ordering.eq
    had : to_list t ≡ before ++ v ∷ after
    has : to_list u ≡ before ++ after

  left_step :
      (compare : A → Ordering)
      → (v : A) → (h : ℕ) → (l u : Tree A) → (x : A) → (r : Tree A) → Deletes compare v l u
      → Deletes compare v (node h l x r) (fix_up u x r)
  unfolding to_list
  left_step compare v h l u x r d = record {
    before = d.before;
    after = d.after ++ x ∷ to_list r;
    equal = d.equal;
    had = ap (λ M. M ++ x ∷ to_list r) d.had ∙ append_assoc d.before (v ∷ d.after) (x ∷ to_list r);
    has =
        to_list-fix_up u x r
        ∙ ap (λ M. M ++ x ∷ to_list r) d.has
        ∙ append_assoc d.before d.after (x ∷ to_list r);
  }

  right_step :
      (compare : A → Ordering)
      → (v : A) → (h : ℕ) → (l : Tree A) → (x : A) → (r u : Tree A) → Deletes compare v r u
      → Deletes compare v (node h l x r) (fix_up l x u)
  unfolding to_list
  right_step compare v h l x r u d = record {
    before = to_list l ++ x ∷ d.before;
    after = d.after;
    equal = d.equal;
    had =
        ap (λ M. to_list l ++ x ∷ M) d.had
        ∙ sym (append_assoc (to_list l) (x ∷ d.before) (v ∷ d.after));
    has =
        to_list-fix_up l x u
        ∙ ap (λ M. to_list l ++ x ∷ M) d.has
        ∙ sym (append_assoc (to_list l) (x ∷ d.before) d.after);
  }

  pub found-lt :
      (compare : A → Ordering)
      → (h : ℕ) → (l : Tree A) → (x : A) → (r : Tree A) → (s : Search A) → compare x ≡ Ordering.lt
      → (search_from compare (node h l x r) s).found
        ≡ (search_from compare l
            (record s { par = some x; cmp_ret = Ordering.lt; next = some x })).found
  unfolding search_from
  found-lt compare h l x r s e = rw (e, search_from) refl

  pub found-gt :
      (compare : A → Ordering)
      → (h : ℕ) → (l : Tree A) → (x : A) → (r : Tree A) → (s : Search A) → compare x ≡ Ordering.gt
      → (search_from compare (node h l x r) s).found
        ≡ (search_from compare r
            (record s { par = some x; cmp_ret = Ordering.gt; prev = some x })).found
  unfolding search_from
  found-gt compare h l x r s e = rw (e, search_from) refl

  pub found-eq :
      (compare : A → Ordering)
      → (h : ℕ) → (l : Tree A) → (x : A) → (r : Tree A) → (s : Search A) → compare x ≡ Ordering.eq
      → (search_from compare (node h l x r) s).found ≡ some x
  unfolding search_from
  found-eq compare h l x r s e = rw (e, search_from) refl

  here_step :
      (compare : A → Ordering)
      → (h : ℕ) → (l : Tree A) → (x : A) → (r : Tree A) → compare x ≡ Ordering.eq
      → Deletes compare x (node h l x r) (unlink l r)
  unfolding to_list
  here_step compare h l x r e = record {
    before = to_list l;
    after = to_list r;
    equal = e;
    had = refl;
    has = to_list-unlink l r;
  }

  delete_from :
      (compare : A → Ordering)
      → (t : Tree A) → (v : A) → (s : Search A) → s.path ≡ []
      → s.found ≡ none
      → (search_from compare t s).found ≡ some v
      → Deletes compare v t (avl_delete (search_from compare t s).path t)
  unfolding search_from avl_delete to_list
  delete_from compare leaf v s p f found = absurd cc
  delete_from compare (node h l x r) v s p f found = elim (Ordering-cases (compare x)) [
    | inl lt ↦
        let s' = record s { par = some x; cmp_ret = Ordering.lt; next = some x } in
        rw (lt, search_from, avl_delete)
          (left_step compare v h l (avl_delete (search_from compare l s').path l) x r
            (delete_from compare l v s' p f (sym (found-lt compare h l x r s lt) ∙ found)))
    | inr (inl eq) ↦
        let same : x ≡ v = some_inj (sym (found-eq compare h l x r s eq) ∙ found) in
        rw (eq, search_from, p, avl_delete, sym same) (here_step compare h l x r eq)
    | inr (inr gt) ↦
        let s' = record s { par = some x; cmp_ret = Ordering.gt; prev = some x } in
        rw (gt, search_from, avl_delete)
          (right_step compare v h l x r (avl_delete (search_from compare r s').path r)
            (delete_from compare r v s' p f (sym (found-gt compare h l x r s gt) ∙ found)))
  ]

  -- If a search finds a node, it is one that compares as equal, and its deletion leaves the other items in their order.
  pub avl_delete-Deletes :
      (compare : A → Ordering)
      → (t : Tree A) → (v : A) → (avl_search compare t).found ≡ some v
      → Deletes compare v t (avl_delete (avl_search compare t).path t)
  unfolding avl_search
  avl_delete-Deletes compare t v found = delete_from compare t v _ refl refl found
