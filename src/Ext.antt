-- ===== src/Ext.antt =====
-- kmod/src/ext.c: insert, remove, allocate and set extents, over storage that the caller provides by
-- callbacks. The functions here split and merge extents and roll back when the storage fails.
mod Laws
mod Changes
mod Mapping
mod Insert
mod Split
mod Remove
mod Alloc
mod ListOps
mod ListStore
mod Examples
use scoutfs.Prelude.{
  Bool, Errno, List, Result, [], einval, enoent, err, if◌then◌else◌, leb, ltb, not, ok, ℕ, ◌%◌,
  ◌&&◌, ◌++◌, ◌+◌, ◌-◌, ◌==◌, ◌^◌, ◌||◌, ◌∷◌,
}

-- `struct scoutfs_extent`
pub record Extent : Type 0 where
  pub start : ℕ
  pub len : ℕ
  pub map : ℕ
  pub flags : ℕ

-- `struct scoutfs_ext_ops` with the callbacks' argument as a state. A callback that fails leaves the
-- state as it was, and `next` sets its extent to zero then.
pub record ExtOps : Type 1 where
  pub Store : Type 0
  pub next : Store → ℕ → ℕ → Result Extent
  pub insert : Store → Extent → Result Store
  pub remove : Store → Extent → Result Store

-- Arithmetic on u64.
abbrev pub add_u64 : ℕ → ℕ → ℕ
add_u64 a b = (a + b) % 2 ^ 64

abbrev pub sub_u64 : ℕ → ℕ → ℕ
sub_u64 a b = (a + (2 ^ 64 - b)) % 2 ^ 64

abbrev pub ext_zero : Extent
ext_zero = record { start = 0; len = 0; map = 0; flags = 0 }

-- The last block of `start` and `len`.
abbrev pub last_block : ℕ → ℕ → ℕ
last_block start len = sub_u64 (add_u64 start len) 1

unfoldable pub ext_overlap : Extent → ℕ → ℕ → Bool
ext_overlap e start len =
    not (ltb (last_block e.start e.len) start || ltb (last_block start len) e.start)

unfoldable pub ext_inside : ℕ → ℕ → Extent → Bool
ext_inside start len out =
    leb out.start start && leb (last_block start len) (last_block out.start out.len)

abbrev pub ext_map_add : ℕ → ℕ → ℕ
ext_map_add map diff = if map == 0 then 0 else add_u64 map diff

unfoldable pub ext_can_merge : Extent → Extent → Bool
ext_can_merge left right =
    add_u64 left.start left.len == right.start
    && (left.map == 0 && right.map == 0 || add_u64 left.map left.len == right.map)
    && left.flags == right.flags

-- `ext_split`, its two results one by one.
abbrev pub split_left : Extent → ℕ → Extent
split_left e start =
    if ltb e.start start
    then record { start = e.start; len = sub_u64 start e.start; map = e.map; flags = e.flags }
    else ext_zero

abbrev pub split_right : Extent → ℕ → ℕ → Extent
split_right e start len =
    let right = add_u64 start len in
    if ltb right (add_u64 e.start e.len)
    then record {
      start = right;
      len = sub_u64 (add_u64 e.start e.len) right;
      map = ext_map_add e.map (sub_u64 right e.start);
      flags = e.flags;
    }
    else ext_zero

-- `struct extent_changes` as a list, in the order of the array; no caller fills its four places over.
pub data Change : Type 0 where
  ins : Extent → Change
  rem : Extent → Change

abbrev pub add_change : List Change → Extent → (Extent → Change) → List Change
add_change chg e c = if e.len == 0 then chg else chg ++ c e ∷ []

-- How a call ends: `bug` is the BUG_ON of a rollback that fails.
pub data Outcome {ℓ} (S : Type ℓ) : Type ℓ where
  done : S → Outcome S
  failed : Errno → S → Outcome S
  bug : Outcome S

-- What is left of the extent behind the first `count` blocks.
abbrev pub alloc_rest : Extent → ℕ → Extent
alloc_rest found count = record {
  start = add_u64 found.start count;
  len = sub_u64 found.len count;
  map = ext_map_add found.map count;
  flags = found.flags;
}

module _ (ops : ExtOps) where
  open ops use {Store, next, insert, remove}

  abbrev pub apply : Change → Store → Result Store
  apply (ins e) s = insert s e
  apply (rem e) s = remove s e

  abbrev pub undo : Change → Store → Result Store
  undo (ins e) s = remove s e
  undo (rem e) s = insert s e

  -- The second loop of `apply_changes`: the changes made so far, the last one first.
  unfoldable pub rollback : List Change → Errno → Store → Outcome Store
  rollback [] e s = failed e s
  rollback (c ∷ cs) e s = elim (undo c s) [ ok s' ↦ rollback cs e s' | err _ ↦ bug ]

  unfoldable pub apply_changes : List Change → List Change → Store → Outcome Store
  apply_changes [] made s = done s
  apply_changes (c ∷ cs) made s = elim (apply c s) [
    | ok s' ↦ apply_changes cs (c ∷ made) s'
    | err e ↦ rollback made e s
  ]

  -- A search that fails: `missing` goes on where there is just no extent.
  unfoldable pub on_error : Errno → Outcome Store → Store → Outcome Store
  on_error enoent missing s = missing
  on_error e missing s = failed e s

  -- Merges the extent to insert with the neighbour that ends where it starts, if there is one.
  unfoldable pub insert_left : List Change → Extent → ℕ → Store → Outcome Store
  insert_left chg i start s =
      if start == 0
      then apply_changes (add_change chg i ins) [] s
      else elim (next s (start - 1) 1) [
        | err e ↦ on_error e (apply_changes (add_change chg i ins) [] s) s
        | ok found ↦
            if ext_can_merge found i
            then apply_changes
                (add_change (add_change chg found rem)
                  (record i { start = found.start; map = found.map; len = add_u64 i.len found.len })
                  ins)
                [] s
            else apply_changes (add_change chg i ins) [] s
      ]

  -- From the extent that `next` found at the start, or zero, on.
  unfoldable pub insert_found : Extent → Extent → Store → Outcome Store
  insert_found i found s =
      if not (found.len == 0) && ext_overlap i found.start found.len
      then failed einval s
      else if not (found.len == 0) && ext_can_merge i found
      then insert_left (add_change [] found rem) (record i { len = add_u64 i.len found.len })
          i.start s
      else insert_left [] i i.start s

  unfoldable pub ext_insert : ℕ → ℕ → ℕ → ℕ → Store → Outcome Store
  ext_insert start len map flags s =
      let i : Extent = record { start = start; len = len; map = map; flags = flags } in
      elim (next s start 1) [
        | ok found ↦ insert_found i found s
        | err e ↦ on_error e (insert_found i ext_zero s) s
      ]

  unfoldable pub ext_remove : ℕ → ℕ → Store → Outcome Store
  ext_remove start len s = elim (next s start 1) [
    | err e ↦ failed e s
    | ok found ↦
        if ext_inside start len found
        then apply_changes
            (add_change (add_change (add_change [] found rem) (split_left found start) ins)
              (split_right found start len) ins)
            [] s
        else failed einval s
  ]

  -- What `ext_alloc` gives its caller: the front of the extent, or zero on an error.
  abbrev pub alloc_result : Outcome Store → Extent → ℕ → Extent
  alloc_result (done s) found count = record found {
    len = if ltb found.len count then found.len else count;
  }
  alloc_result _ found count = ext_zero

  unfoldable pub ext_alloc : ℕ → ℕ → ℕ → Store → Outcome Store × Extent
  ext_alloc start len count s = elim (next s start len) [
    | err e ↦ (failed e s, ext_zero)
    | ok found ↦
        let chg = add_change [] found rem in
        let r =
          apply_changes
            (if ltb count found.len then add_change chg (alloc_rest found count) ins else chg) []
            s in
        (r, alloc_result r found count)
  ]

  -- The end of `scoutfs_ext_set`: map and flags of zero remove the region.
  unfoldable pub set_apply : List Change → Extent → Store → Outcome Store
  set_apply chg set s =
      apply_changes
        (if not (set.flags == 0) || not (set.map == 0) then add_change chg set ins else chg) [] s

  -- The right edge: the split part, or a neighbour to merge with.
  unfoldable pub set_right : List Change → Extent → Extent → ℕ → ℕ → Store → Outcome Store
  set_right chg set right start len s =
      if not (right.len == 0)
      then set_apply (add_change chg right ins) set s
      else elim (next s (add_u64 start len) 1) [
        | err e ↦ on_error e (set_apply chg set s) s
        | ok r ↦
            if ext_can_merge set r
            then set_apply (add_change chg r rem) (record set { len = add_u64 set.len r.len }) s
            else set_apply chg set s
      ]

  -- The left edge: the split part, or a neighbour to merge with.
  unfoldable pub set_left : List Change → Extent → Extent → Extent → ℕ → ℕ → Store → Outcome Store
  set_left chg set left right start len s =
      if not (left.len == 0)
      then set_right (add_change chg left ins) set right start len s
      else if start == 0
      then set_right chg set right start len s
      else elim (next s (start - 1) 1) [
        | err e ↦ on_error e (set_right chg set right start len s) s
        | ok l ↦
            if ext_can_merge l set
            then set_right (add_change chg l rem)
                (record set { start = l.start; map = l.map; len = add_u64 set.len l.len }) right
                start len s
            else set_right chg set right start len s
      ]

  unfoldable pub ext_set : ℕ → ℕ → ℕ → ℕ → Store → Outcome Store
  ext_set start len map flags s =
      let set : Extent = record { start = start; len = len; map = map; flags = flags } in
      let fresh = set_left [] set ext_zero ext_zero start len s in
      elim (next s start 1) [
        | err e ↦ on_error e (fresh) s
        | ok found ↦
            if ext_overlap found start len
            then if ext_inside start len found
              then set_left (add_change [] found rem) set (split_left found start)
                  (split_right found start len) start len s
              else failed einval s
            else fresh
      ]
