-- ===== src/Ext/Examples.antt =====
-- Tests and concrete instances of the extent operations over the list storage.
use scoutfs.Ext.{
  Extent, apply_changes, done, ext_can_merge, ext_insert, ext_inside, ext_overlap, ext_remove,
  insert_found, insert_left,
}
use scoutfs.Ext.Mapping.{Uniform}
use scoutfs.Ext.Insert.{Inserts, ext_insert-Inserts}
use scoutfs.Ext.Remove.{Removes, ext_remove-Removes}
use scoutfs.Ext.ListOps.{list_ops}
use scoutfs.Ext.ListStore.{list_laws}
use scoutfs.Prelude.{Bool, [], arith, refl, true, ℕ, ◌∷◌, ◌≡◌}

abbrev free_blocks : ℕ → ℕ → Extent
free_blocks start len = record { start = start; len = len; map = 0; flags = 0 }

-- Free blocks 10 to 19 and 30 to 39.
abbrev two_free : list_ops.Store
unfolding list_ops
two_free = free_blocks 10 10 ∷ free_blocks 30 10 ∷ []

abbrev one_free : list_ops.Store
unfolding list_ops
one_free = free_blocks 10 30 ∷ []

two_free-IsStore : list_laws.IsStore two_free
unfolding list_ops
two_free-IsStore = omega arith

abbrev always : ℕ → Bool
always flags = true

two_free-Uniform : Uniform always (list_laws.owner two_free)
unfolding list_ops
two_free-Uniform b e h = ground arith

-- Freeing the blocks between merges with both neighbours.
insert_merges : ext_insert list_ops 20 10 0 0 two_free ≡ done one_free
unfolding ext_insert insert_found insert_left apply_changes list_ops ext_overlap ext_can_merge
insert_merges = refl

-- Taking blocks out of the middle splits.
remove_splits : ext_remove list_ops 20 10 one_free ≡ done two_free
unfolding ext_remove apply_changes list_ops ext_inside
remove_splits = refl

ext_insert-Inserts_example :
    Inserts list_laws always two_free two_free-IsStore two_free-Uniform
      (free_blocks 20 10)
      (ext_insert list_ops 20 10 0 0 two_free)
ext_insert-Inserts_example =
    ext_insert-Inserts list_laws always two_free two_free-IsStore two_free-Uniform
      (free_blocks 20 10) (omega arith) refl

ext_remove-Removes_example :
    Removes list_laws two_free two_free-IsStore 32 4
      (omega arith)
      (omega arith)
      (ext_remove list_ops 32 4 two_free)
ext_remove-Removes_example =
    ext_remove-Removes list_laws two_free two_free-IsStore 32 4 (omega arith) (omega arith)
