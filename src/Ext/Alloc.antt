-- ===== src/Ext/Alloc.antt =====
-- `scoutfs_ext_alloc` takes blocks off the front of an extent.
use scoutfs.Ext.{
  Change, ExtOps, Extent, Outcome, add_change, alloc_rest, done, ext_zero, failed, ins, rem,
}
use scoutfs.Ext.Laws.{ExtLaws, IsExtent, Stored, covers}
use scoutfs.Ext.Mapping.{mapping}
use scoutfs.Prelude.{
  Errno, List, [], enoent, if◌then◌else◌, ltb, none, some, true, ℕ, ◌<◌, ◌∷◌, ◌≡◌, ◌≤◌, ◌⊎◌,
}

module _ {ops : ExtOps} {IsFault : Errno → Type 0} (laws : ExtLaws ops IsFault) (s : ops.Store)
    (v : laws.IsStore s) (start len count : ℕ) where
  open laws use {IsStore, owner}

  -- How an allocation ends: the blocks that it gives are not more than asked for, were mapped as the result says, and
  -- are unmapped now; there is no extent; or the storage fails.
  abbrev pub Allocates : Outcome ops.Store × Extent → Type 0
  Allocates r =
      ((s' : ops.Store) × (r.0 ≡ done s')
        × IsStore s'
        × (r.1.len ≤ count)
        × (0 < count → 0 < r.1.len)
        × ((b : ℕ) → covers r.1 b ≡ true → mapping (owner s b) b ≡ mapping (some r.1) b)
        × ((b : ℕ)
            → mapping (owner s' b) b ≡ (if covers r.1 b then none else mapping (owner s b) b)))
      ⊎ ((e : Errno) × (r.0 ≡ failed e s) × (r.1 ≡ ext_zero) × ((e ≡ enoent) ⊎ IsFault e))

  module _ (f : Extent) (good : IsExtent f) (stored : Stored (owner s) f) where
    abbrev cs : List Change
    cs = if ltb count f.len then add_change (rem f ∷ []) (alloc_rest f count) ins else rem f ∷ []

    abbrev given : Extent
    given = record f { len = if ltb f.len count then f.len else count }
