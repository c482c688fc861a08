-- ===== src/Avl/Examples.antt =====
-- Tests and concrete instances for the tree.
use scoutfs.Avl.{
  Tree, avl_delete, avl_first, avl_insert, avl_search, leaf, node, right, rotate_imbalance,
  rotate_left, search_from, take_first, unlink,
}
use scoutfs.Avl.Order.{to_list}
use scoutfs.Avl.Edit.{IsSplit, avl_insert-list_insert, list_insert}
use scoutfs.Avl.Delete.{Deletes, avl_delete-Deletes}
use scoutfs.Key.{cmp}
use scoutfs.Avl.Higher.{higher}
use scoutfs.Avl.Balance.{IsAvl}
use scoutfs.Avl.Height.{Grown, Shrunk, avl_delete-Shrunk}
use scoutfs.Avl.Insert.{avl_insert_balanced}
use scoutfs.Prelude.{[], arith, inl, none, refl, some, ℕ, ◌∷◌, ◌≡◌}

abbrev put : ℕ → Tree ℕ → Tree ℕ
put n t = avl_insert (avl_search (cmp n) t).path n t

-- Ascending insertions end in a balanced tree.
abbrev one_to_three : Tree ℕ
one_to_three = node 2 (node 1 leaf 1 leaf) 2 (node 1 leaf 3 leaf)

ascending : put 3 (put 2 (put 1 leaf)) ≡ one_to_three
unfolding avl_insert avl_search search_from rotate_imbalance rotate_left
ascending = refl

-- The successor takes the place of the root.
deletes_root : avl_delete [] one_to_three ≡ node 2 (node 1 leaf 1 leaf) 3 leaf
unfolding avl_delete unlink take_first rotate_imbalance
deletes_root = refl

avl_first_of_three : avl_first one_to_three ≡ some 1
unfolding avl_first
avl_first_of_three = refl

one_to_three-IsSplit : IsSplit (cmp 4) (to_list one_to_three)
unfolding to_list IsSplit
one_to_three-IsSplit = inl (refl, inl (refl, inl (refl, tt)))

avl_insert-list_insert_example :
    ((avl_search (cmp 4) one_to_three).found ≡ none)
    × (to_list (avl_insert (avl_search (cmp 4) one_to_three).path 4 one_to_three)
        ≡ list_insert (cmp 4) 4 (to_list one_to_three))
avl_insert-list_insert_example = avl_insert-list_insert (cmp 4) one_to_three 4 one_to_three-IsSplit

finds_two : (avl_search (cmp 2) one_to_three).found ≡ some 2
unfolding avl_search search_from
finds_two = refl

avl_delete-Deletes_example :
    Deletes (cmp 2) 2 one_to_three (avl_delete (avl_search (cmp 2) one_to_three).path one_to_three)
avl_delete-Deletes_example = avl_delete-Deletes (cmp 2) one_to_three 2 finds_two

one_to_three-IsAvl : IsAvl one_to_three
unfolding IsAvl higher
one_to_three-IsAvl = omega arith

avl_delete-Shrunk_example : Shrunk one_to_three (avl_delete (right ∷ []) one_to_three)
avl_delete-Shrunk_example = avl_delete-Shrunk (right ∷ []) one_to_three one_to_three-IsAvl

misses_four : (avl_search (cmp 4) one_to_three).found ≡ none
unfolding avl_search search_from
misses_four = refl

avl_insert_balanced_example :
    Grown one_to_three (avl_insert (avl_search (cmp 4) one_to_three).path 4 one_to_three)
avl_insert_balanced_example =
    avl_insert_balanced (cmp 4) one_to_three 4 one_to_three-IsAvl misses_four
