-- ===== src/Alloc/Examples.antt =====
-- Tests and concrete instances for the keys of free extents.
use scoutfs.Srch.{fls}
use scoutfs.Alloc.{ext_from_key, free_extent_order, init_ext_key, order}
use scoutfs.Alloc.Keys.{ext_from_key-init_ext_key, free_extent_order-bounds}
use scoutfs.Prelude.{arith, refl, ◌*◌, ◌+◌, ◌<◌, ◌^◌, ◌≡◌, ◌≤◌}

order_of_64 : free_extent_order 64 ≡ 2
unfolding free_extent_order fls
order_of_64 = refl

order_of_7 : free_extent_order 7 ≡ 0
unfolding free_extent_order fls
order_of_7 = refl

ext_from_key-init_ext_key_example :
    ext_from_key (init_ext_key order 100 64) ≡ record { start = 100; len = 64; map = 0; flags = 0 }
ext_from_key-init_ext_key_example =
    ext_from_key-init_ext_key order 100 64 (omega arith) (omega arith) (omega arith) (omega arith)

free_extent_order-bounds_example :
    (2 ^ (free_extent_order 100 * 3) ≤ 100) × (100 < 2 ^ (free_extent_order 100 * 3 + 3))
free_extent_order-bounds_example = free_extent_order-bounds 100 (omega arith) (omega arith)
