-- ===== src/Quorum/Blocks.antt =====
-- kmod/src/quorum.c: the block of each slot, where its worker records events, and what others read from it. The device
-- is a function from block numbers to blocks, each with the checksum that the read computes.
pub mod Greatest
pub mod Server
mod Examples
use scoutfs.Quorum.{
  Event, begin_event, elect_event, end_event, fence_event, max_slots, stop_event, term_event,
}
use scoutfs.Prelude.{
  Bool, Errno, List, Option, Result, [], einval, eio, enoent, err, false, if◌then◌else◌, leb, ltb,
  none, not, ok, some, suc, true, zero, ℕ, ◌%◌, ◌&&◌, ◌+◌, ◌==◌, ◌^◌, ◌||◌, ◌∷◌,
}

-- `struct scoutfs_quorum_block_event`
pub record BlockEvent : Type 0 where
  pub write_nr : ℕ
  pub rid : ℕ
  pub term : ℕ
  pub ts_sec : ℕ
  pub ts_nsec : ℕ

-- `struct scoutfs_quorum_block`, with the fields of its header that are read
pub record Block : Type 0 where
  pub crc : ℕ
  pub magic : ℕ
  pub fsid : ℕ
  pub blkno : ℕ
  pub write_nr : ℕ
  pub events : Event → BlockEvent

abbrev pub quorum_magic : ℕ
quorum_magic = 3157330024

abbrev pub quorum_blkno : ℕ
quorum_blkno = 17

abbrev pub quorum_blocks : ℕ
quorum_blocks = 15

abbrev pub all_events : List Event
all_events = begin_event ∷ term_event ∷ elect_event ∷ fence_event ∷ stop_event ∷ end_event ∷ []

abbrev pub same_event : Event → Event → Bool
same_event begin_event begin_event = true
same_event term_event term_event = true
same_event elect_event elect_event = true
same_event fence_event fence_event = true
same_event stop_event stop_event = true
same_event end_event end_event = true
same_event _ _ = false

unfoldable pub max : ℕ → ℕ → ℕ
max a b = if ltb a b then b else a

-- The mount's file system and id, the slots that its configuration has, and the device.
pub record Mount : Type 0 where
  pub fsid : ℕ
  pub rid : ℕ
  pub present : ℕ → Bool
  pub read_sm : ℕ → Result (Block × ℕ)

module _ (mount : Mount) where
  -- The checks of a block that was read
  abbrev pub is_invalid : ℕ → Bool → Block → ℕ → Bool
  is_invalid blkno check_rid blk crc =
      not (blk.crc == crc)
      || not (blk.magic == quorum_magic)
      || not (blk.fsid == mount.fsid)
      || not (blk.blkno == blkno)
      || (check_rid && not ((blk.events begin_event).rid == mount.rid))

  unfoldable pub read_quorum_block : ℕ → Bool → Result Block
  read_quorum_block blkno check_rid =
      if ltb blkno quorum_blkno || leb (quorum_blkno + quorum_blocks) blkno
      then err einval
      else elim (mount.read_sm blkno) [
        | err e ↦ err e
        | ok (blk, crc) ↦ if is_invalid blkno check_rid blk crc then err eio else ok blk
      ]

  -- The greatest term of the events that some mount has written
  unfoldable pub greatest_event : List Event → Block → ℕ → ℕ
  greatest_event [] blk term = term
  greatest_event (e ∷ es) blk term =
      let ev = blk.events e in
      greatest_event es blk (if ev.rid == 0 then term else max term ev.term)

  -- The loop over the slots from `s`, with `left` of them left
  unfoldable pub greatest_from : (left s term : ℕ) → ℕ
  greatest_from zero s term = term
  greatest_from (suc left) s term =
      if mount.present s
      then elim (read_quorum_block (quorum_blkno + s) false) [
        | err e ↦ greatest_from left (s + 1) term
        | ok blk ↦ greatest_from left (s + 1) (greatest_event all_events blk term)
      ]
      else greatest_from left (s + 1) term

  unfoldable pub read_greatest_term : ℕ
  read_greatest_term = greatest_from max_slots 0 0

  unfoldable pub set_quorum_block_event : (sec nsec : ℕ) → Block → Event → ℕ → Block
  set_quorum_block_event sec nsec blk event term =
      let nr = (blk.write_nr + 1) % 2 ^ 64 in
      record blk {
        write_nr = nr;
        events = λ e.
            if same_event e event
            then record {
              write_nr = nr;
              rid = mount.rid;
              term = term;
              ts_sec = sec;
              ts_nsec = nsec;
            }
            else blk.events e;
      }

  unfoldable pub write_quorum_block : (ℕ → Block → Option Errno) → ℕ → Block → Option Errno
  write_quorum_block write_sm blkno blk =
      if ltb blkno quorum_blkno || leb (quorum_blkno + quorum_blocks) blkno
      then some einval
      else write_sm blkno blk

  -- The error of the update, and the block that it writes
  unfoldable pub update_quorum_block :
      (ℕ → Block → Option Errno)
      → (sec nsec slot : ℕ) → Event
      → ℕ
      → Bool
      → Option Errno × Option Block
  update_quorum_block write_sm sec nsec slot event term check_rid =
      elim (read_quorum_block (quorum_blkno + slot) check_rid) [
        | err e ↦ (some e, none)
        | ok blk ↦
            let new = set_quorum_block_event sec nsec blk event term in
            (write_quorum_block write_sm (quorum_blkno + slot) new, some new)
      ]

  abbrev pub is_elected : Block → Bool
  is_elected blk = ltb (blk.events stop_event).term (blk.events elect_event).term

  -- The slot found so far, and its term
  unfoldable pub server_from : (left s term : ℕ) → Option ℕ → Result (ℕ × Option ℕ)
  server_from zero s term found = ok (term, found)
  server_from (suc left) s term found =
      if mount.present s
      then elim (read_quorum_block (quorum_blkno + s) false) [
        | err e ↦ err e
        | ok blk ↦
            let elect_term = (blk.events elect_event).term in
            if ltb term elect_term && is_elected blk
            then server_from left (s + 1) elect_term (some s)
            else server_from left (s + 1) term found
      ]
      else server_from left (s + 1) term found

  -- The slot whose address the caller is given
  unfoldable pub scoutfs_quorum_server_sin : Result (Option ℕ)
  scoutfs_quorum_server_sin = elim (server_from max_slots 0 0 none) [
    | err e ↦ err e
    | ok (term, found) ↦ if term == 0 then err enoent else ok found
  ]
