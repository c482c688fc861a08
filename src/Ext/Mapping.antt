-- ===== src/Ext/Mapping.antt =====
-- The meaning of stored extents: what each block maps to, however the extents are split.
use scoutfs.Ext.{Change, Extent, add_change, add_u64, ext_can_merge}
use scoutfs.Ext.Laws.{IsExtent, Owner, covers}
use scoutfs.Ext.Changes.{AllAllowed, Allowed, change_owner, change_owners}
use scoutfs.Prelude.{
  Bool, List, Option, [], arith, false, if◌then◌else◌, none, refl, some, true, ℕ, ◌++◌, ◌+◌, ◌-◌,
  ◌<◌, ◌==◌, ◌^◌, ◌||◌, ◌∷◌, ◌≡◌,
}

-- The device block and the flags of a block: a map of zero stands for no device block.
abbrev pub mapping : Option Extent → ℕ → Option (ℕ × ℕ)
mapping none b = none
mapping (some e) b = some (if e.map == 0 then 0 else e.map + (b - e.start), e.flags)

-- The flags say whether an extent has a device block: `unmapped` of them.
abbrev pub Uniform : (ℕ → Bool) → Owner → Type 0
Uniform unmapped o = (b : ℕ) (e : Extent) → o b ≡ some e → (e.map == 0) ≡ unmapped e.flags

pub AllAllowed-snoc :
    (cs : List Change) (c : Change) (o : Owner)
    → AllAllowed cs o
    → Allowed c (change_owners cs o)
    → AllAllowed (cs ++ c ∷ []) o
AllAllowed-snoc [] c o a h = (h, tt)
AllAllowed-snoc (d ∷ ds) c o a h = (a.0, AllAllowed-snoc ds c (change_owner d o) a.1 h)

pub change_owners-snoc :
    (cs : List Change) (c : Change) (o : Owner)
    → change_owners (cs ++ c ∷ []) o ≡ change_owner c (change_owners cs o)
change_owners-snoc [] c o = refl
change_owners-snoc (d ∷ ds) c o = change_owners-snoc ds c (change_owner d o)

-- An empty extent makes no change.
pub add_change_pos :
    (cs : List Change) (e : Extent) (c : Extent → Change)
    → 0 < e.len
    → add_change cs e c ≡ cs ++ c e ∷ []
add_change_pos cs e c h = ground arith

-- A sum of lengths that fits.
pub add_u64_fits : (a b : ℕ) → a + b < 2 ^ 64 → add_u64 a b ≡ a + b
add_u64_fits a b h = omega arith

-- A later extent of the same kind in front of which an earlier one ends, as one extent.
abbrev pub merged : Extent → Extent → Extent
merged left right = record {
  start = left.start;
  len = left.len + right.len;
  map = left.map;
  flags = right.flags;
}

abbrev pub SameKind : Extent → Extent → Type 0
SameKind left right = left.flags ≡ right.flags → (left.map == 0) ≡ (right.map == 0)

pub merged-IsExtent :
    (l r : Extent)
    → IsExtent l
    → IsExtent r
    → SameKind l r
    → ext_can_merge l r ≡ true
    → IsExtent (merged l r)
unfolding ext_can_merge
merged-IsExtent l r vl vr k h = ground (arith, k)

pub mapping-merged :
    (l r : Extent) (b : ℕ)
    → IsExtent l
    → IsExtent r
    → SameKind l r
    → ext_can_merge l r ≡ true
    → (covers (merged l r) b ≡ (covers l b || covers r b))
      × (covers l b ≡ true → mapping (some (merged l r)) b ≡ mapping (some l) b)
      × (covers r b ≡ true
          → (mapping (some (merged l r)) b ≡ mapping (some r) b) × (covers l b ≡ false))
unfolding ext_can_merge
mapping-merged l r b vl vr k h = (ground (arith, k), ground (arith, k), ground (arith, k))
