-- ===== src/Alloc.antt =====
-- kmod/src/alloc.c: free extents as keys of two indices, by location and by the order of their length.
mod Keys
mod Examples
use scoutfs.Key.{Key, u64_max}
use scoutfs.Ext.{Extent}
use scoutfs.Srch.{fls64}
use scoutfs.Prelude.{if◌then◌else◌, map, suc, zero, ℕ, ◌%◌, ◌*◌, ◌+◌, ◌-◌, ◌/◌, ◌==◌, ◌^◌}

-- The two zones of free extents.
pub data Zone : Type 0 where
  blkno order : Zone

-- SCOUTFS_FREE_EXTENT_BLKNO_ZONE and SCOUTFS_FREE_EXTENT_ORDER_ZONE
abbrev pub zone_nr : Zone → ℕ
zone_nr blkno = 36
zone_nr order = 40

abbrev pub other_zone : Zone → Zone
other_zone blkno = order
other_zone order = blkno

-- `len | 1`
abbrev pub or_one : ℕ → ℕ
or_one len = if len % 2 == 0 then len + 1 else len

unfoldable pub free_extent_order : ℕ → ℕ
free_extent_order len = (fls64 (or_one len) - 1) / 3

abbrev pub smallest_order_length : ℕ → ℕ
smallest_order_length len = 2 ^ (free_extent_order len * 3) % 2 ^ 64

abbrev pub zone_key : Zone → Key
zone_key zone = record {
  zone = zone_nr zone;
  first = 0;
  type = 0;
  second = 0;
  third = 0;
  fourth = 0;
}

-- The final block of an extent, on u64.
abbrev pub end_block : ℕ → ℕ → ℕ
end_block start len = (start + len + (2 ^ 64 - 1)) % 2 ^ 64

unfoldable pub init_ext_key : Zone → ℕ → ℕ → Key
init_ext_key zone start zero = zone_key zone
init_ext_key blkno start (suc n) = record (zone_key blkno) {
  first = end_block start (suc n);
  second = suc n;
}
init_ext_key order start (suc n) = record (zone_key order) {
  first = u64_max - free_extent_order (suc n);
  second = end_block start (suc n);
  third = suc n;
}

unfoldable pub ext_from_key : Key → Extent
ext_from_key key =
    if key.zone == zone_nr blkno
    then record {
      start = (key.first + (2 ^ 64 - key.second) + 1) % 2 ^ 64;
      len = key.second;
      map = 0;
      flags = 0;
    }
    else record {
      start = (key.second + (2 ^ 64 - key.third) + 1) % 2 ^ 64;
      len = key.third;
      map = 0;
      flags = 0;
    }
