-- ===== src/Ext/Split.antt =====
-- Changes that may be empty, and the parts that `ext_split` leaves.
use scoutfs.Ext.{Change, Extent, add_change, ext_inside, ins, split_left, split_right}
use scoutfs.Ext.Laws.{IsExtent, Owner, covers}
use scoutfs.Ext.Changes.{AllAllowed, Allowed, change_owner, change_owners}
use scoutfs.Ext.Mapping.{AllAllowed-snoc, change_owners-snoc, mapping}
use scoutfs.Prelude.{
  Bool, Bool-cases, List, ap, arith, inl, inr, leb, ltb, some, true, ℕ, ◌&&◌, ◌+◌, ◌<◌, ◌==◌, ◌^◌,
  ◌≡◌, ◌≤◌,
}

pub AllAllowed-add_change :
    (cs : List Change) (e : Extent) (o : Owner)
    → AllAllowed cs o
    → (0 < e.len → Allowed (ins e) (change_owners cs o))
    → AllAllowed (add_change cs e ins) o
AllAllowed-add_change cs e o a h = elim (Bool-cases (e.len == 0)) [
  | inl empty ↦ rw empty a
  | inr some_len ↦ rw some_len (AllAllowed-snoc cs (ins e) o a (h (ground arith)))
]

pub change_owners-add_change :
    (cs : List Change) (e : Extent) (o : Owner) (b : ℕ)
    → change_owners (add_change cs e ins) o b ≡ change_owner (ins e) (change_owners cs o) b
change_owners-add_change cs e o b = elim (Bool-cases (e.len == 0)) [
  | inl empty ↦ rw empty (ground (arith, empty))
  | inr some_len ↦ rw some_len (ap (λ (f : Owner). f b) (change_owners-snoc cs (ins e) o))
]

-- A region of `r`, and what is left of `r` on both sides.
module _ (r : Extent) (start len : ℕ) (good : IsExtent r) (pos : 0 < len)
    (fits : start + len < 2 ^ 64) where
  abbrev pub region : ℕ → Bool
  region b = leb start b && ltb b (start + len)

  pub ext_inside-le :
      ext_inside start len r ≡ true → (r.start ≤ start) × (start + len ≤ r.start + r.len)
  unfolding ext_inside
  ext_inside-le h = ground arith

  pub le-ext_inside :
      r.start ≤ start → start + len ≤ r.start + r.len → ext_inside start len r ≡ true
  unfolding ext_inside
  le-ext_inside h k = ground arith

  module _ (inside : ext_inside start len r ≡ true) where
    abbrev pub left_part : Extent
    left_part = split_left r start

    abbrev pub right_part : Extent
    right_part = split_right r start len

    pub left_part-IsExtent : 0 < left_part.len → IsExtent left_part
    left_part-IsExtent h = ground (arith, ext_inside-le inside)

    pub right_part-IsExtent : 0 < right_part.len → IsExtent right_part
    right_part-IsExtent h = ground (arith, ext_inside-le inside)

    -- The parts and the region make up the extent.
    pub split_covers :
        (b : ℕ)
        → (covers left_part b ≡ (covers r b && ltb b start))
          × (covers right_part b ≡ (covers r b && leb (start + len) b))
          × (region b ≡ true → covers r b ≡ true)
    split_covers b = (
      ground (arith, ext_inside-le inside),
      ground (arith, ext_inside-le inside),
      ground (arith, ext_inside-le inside),
    )

    -- A part maps its blocks as the extent did.
    pub mapping-parts :
        (b : ℕ)
        → (covers left_part b ≡ true → mapping (some left_part) b ≡ mapping (some r) b)
          × (covers right_part b ≡ true → mapping (some right_part) b ≡ mapping (some r) b)
    mapping-parts b = (ground (arith, ext_inside-le inside), ground (arith, ext_inside-le inside))
