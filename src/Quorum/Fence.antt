-- ===== src/Quorum/Fence.antt =====
-- kmod/src/quorum.c: `scoutfs_quorum_fence_leaders`, by which a server that was elected fences the leaders before it.
-- The request for one fence and the wait for all of them are parameters, and their failures.
pub mod Leaders
pub mod Running
use scoutfs.Quorum.{elect_event, fence_event, max_slots, stop_event}
use scoutfs.Quorum.Blocks.{Block, BlockEvent, Mount, max, quorum_blkno, read_quorum_block}
use scoutfs.Prelude.{
  Bool, Errno, List, Option, Result, [], err, false, if◌then◌else◌, ltb, none, ok, some, suc, zero,
  ℕ, ◌&&◌, ◌++◌, ◌+◌, ◌==◌, ◌||◌, ◌∷◌,
}

abbrev pub no_event : BlockEvent
no_event = record { write_nr = 0; rid = 0; term = 0; ts_sec = 0; ts_nsec = 0 }

-- An elected leader still running
unfoldable pub old_elected : Block → BlockEvent
old_elected blk =
    if ltb (blk.events stop_event).term (blk.events elect_event).term
    then blk.events elect_event
    else no_event

-- The record of a server before the last that was elected
unfoldable pub old_fenced : Block → BlockEvent
old_fenced blk =
    if ltb (blk.events stop_event).term (blk.events fence_event).term
      && ltb (blk.events fence_event).term (blk.events elect_event).term
    then blk.events fence_event
    else no_event

-- A slot and one of its old leaders
pub record Old : Type 0 where
  pub slot : ℕ
  pub event : BlockEvent

abbrev pub first_error : Option Errno → Option Errno → Option Errno
first_error (some e) waited = some e
first_error none waited = waited

module _ (mount : Mount) where
  -- The first loop, from the slot `s`: the old leaders, and the greatest term that has fenced all before it
  unfoldable pub gather : (left s fenced : ℕ) → List Old → Result (List Old × ℕ)
  gather zero s fenced olds = ok (olds, fenced)
  gather (suc left) s fenced olds =
      if mount.present s
      then elim (read_quorum_block mount (quorum_blkno + s) false) [
        | err e ↦ err e
        | ok blk ↦ gather left (s + 1) (max fenced (blk.events fence_event).term) (
            olds
            ++ record { slot = s; event = old_elected blk }
              ∷ record { slot = s; event = old_fenced blk }
              ∷ [])
      ]
      else gather left (s + 1) fenced olds

  abbrev pub is_skipped : (fenced term : ℕ) → BlockEvent → Bool
  is_skipped fenced term ev =
      ev.term == 0 || ltb ev.term fenced || ltb term ev.term || ev.rid == mount.rid

  -- The second loop: the slots and mounts that are fenced, and the failure that ends it
  unfoldable pub fence_olds :
      (fence_start : ℕ → ℕ → Option Errno)
      → (fenced term : ℕ) → List Old
      → List (ℕ × ℕ) × Option Errno
  fence_olds fence_start fenced term [] = ([], none)
  fence_olds fence_start fenced term (old ∷ olds) =
      let rest = fence_olds fence_start fenced term olds in
      if is_skipped fenced term old.event then rest else elim (fence_start old.slot old.event.rid) [
        | some e ↦ ([], some e)
        | none ↦ ((old.slot, old.event.rid) ∷ rest.0, rest.1)
      ]

  unfoldable pub scoutfs_quorum_fence_leaders :
      (fence_start : ℕ → ℕ → Option Errno)
      → (wait_fenced : Option Errno) → (term : ℕ) → List (ℕ × ℕ) × Option Errno
  scoutfs_quorum_fence_leaders fence_start wait_fenced term = elim (gather max_slots 0 0 []) [
    | err e ↦ ([], some e)
    | ok (olds, fenced) ↦
        let fences = fence_olds fence_start fenced term olds in
        (fences.0, first_error fences.1 wait_fenced)
  ]
