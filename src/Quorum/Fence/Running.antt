-- ===== src/Quorum/Fence/Running.antt =====
-- The first loop loses no leader that was elected and has not stopped, so a fencing that succeeds fences them all.
use scoutfs.Quorum.Fence.Leaders.{InOlds, not_self}
use scoutfs.Quorum.Blocks.Greatest.{IsRead}
use scoutfs.Quorum.{elect_event, fence_event, max_slots, stop_event}
use scoutfs.Quorum.Blocks.{Block, Mount}
use scoutfs.Quorum.Fence.{
  Old, fence_olds, first_error, gather, old_elected, old_fenced, scoutfs_quorum_fence_leaders,
}
use scoutfs.Prelude.{
  All, Errno, List, Option, Result, [], err, false, ok, some, ℕ, ◌++◌, ◌+◌, ◌<◌, ◌==◌, ◌∷◌, ◌≡◌,
  ◌≤◌,
}

module _ (mount : Mount) where
  -- What the first loop has when it ends: no old leader is lost, and how far the fencing went.
  record IsGathered (left s fenced : ℕ) (olds : List Old) (all : List Old) (most : ℕ) : Type 0 where
    kept : (old : Old) → InOlds old olds → InOlds old all
    met :
        (j : ℕ)
        → (blk : Block) → s ≤ j
        → j < s + left
        → IsRead mount j blk
        → InOlds (record { slot = j; event = old_elected blk }) all
    bounded :
        (t : ℕ)
        → fenced ≤ t
        → ((j : ℕ)
            → (blk : Block) → j < s + left
            → IsRead mount j blk
            → (blk.events fence_event).term ≤ t)
        → most ≤ t

  abbrev GatherSpec : (left s fenced : ℕ) → List Old → Result (List Old × ℕ) → Type 0
  GatherSpec left s fenced olds (err e) = Unit
  GatherSpec left s fenced olds (ok (all, most)) = IsGathered left s fenced olds all most

  abbrev with_block : ℕ → Block → List Old → List Old
  with_block s blk olds =
      olds
      ++ record { slot = s; event = old_elected blk }
        ∷ record { slot = s; event = old_fenced blk }
        ∷ []

-- What `scoutfs_quorum_fence_leaders` makes of the first loop's result.
abbrev fences_of :
    (mount : Mount)
    → (fence_start : ℕ → ℕ → Option Errno) → (wait_fenced : Option Errno) → (term : ℕ)
    → Result (List Old × ℕ)
    → List (ℕ × ℕ) × Option Errno
fences_of mount fence_start wait_fenced term (err e) = ([], some e)
fences_of mount fence_start wait_fenced term (ok (olds, fenced)) =
    let fences = fence_olds mount fence_start fenced term olds in
    (fences.0, first_error fences.1 wait_fenced)

fences_not_self :
    (mount : Mount)
    → (fence_start : ℕ → ℕ → Option Errno) → (wait_fenced : Option Errno) → (term : ℕ)
    → (r : Result (List Old × ℕ))
    → All (λ p. (p.1 == mount.rid) ≡ false) (fences_of mount fence_start wait_fenced term r).0
fences_not_self mount fence_start wait_fenced term (err e) = tt
fences_not_self mount fence_start wait_fenced term (ok (olds, fenced)) =
    not_self mount fence_start fenced term olds

-- A server that was elected never asks to fence its own mount.
pub fence_leaders-NotSelf :
    (mount : Mount)
    → (fence_start : ℕ → ℕ → Option Errno) → (wait_fenced : Option Errno) → (term : ℕ)
    → All
        (λ p. (p.1 == mount.rid) ≡ false)
        (scoutfs_quorum_fence_leaders mount fence_start wait_fenced term).0
unfolding scoutfs_quorum_fence_leaders
fence_leaders-NotSelf mount fence_start wait_fenced term =
    fences_not_self mount fence_start wait_fenced term (gather mount max_slots 0 0 [])

-- The server of another mount may still run: it was elected and has not stopped, no later than `term`, and no block
-- has a record that fenced it.
pub record IsRunning (mount : Mount) (term s : ℕ) (blk : Block) : Type 0 where
  pub inside : s < max_slots
  pub read : IsRead mount s blk
  pub elected : (blk.events stop_event).term < (blk.events elect_event).term
  pub no_later : (blk.events elect_event).term ≤ term
  pub not_ours : ((blk.events elect_event).rid == mount.rid) ≡ false
  pub not_fenced :
      (j : ℕ)
      → (b : Block) → j < max_slots
      → IsRead mount j b
      → (b.events fence_event).term ≤ (blk.events elect_event).term
