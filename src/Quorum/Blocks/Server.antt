-- ===== src/Quorum/Blocks/Server.antt =====
-- The server that `scoutfs_quorum_server_sin` finds in the blocks of the slots.
use scoutfs.Quorum.{elect_event, max_slots}
use scoutfs.Quorum.Blocks.Greatest.{IsRead}
use scoutfs.Quorum.Blocks.{Block, Mount, is_elected, quorum_blkno, read_quorum_block}
use scoutfs.Prelude.{
  Errno, Option, Result, enoent, err, false, ok, some, true, ℕ, ◌+◌, ◌<◌, ◌≡◌, ◌≤◌, ◌⊎◌,
}

module _ (mount : Mount) where
  -- A slot whose block says that it was elected and has not stopped
  pub record IsElected (s : ℕ) (term : ℕ) : Type 0 where
    pub blk : Block
    pub read : IsRead mount s blk
    pub elected : is_elected mount blk ≡ true
    pub elect_term : (blk.events elect_event).term ≡ term

  pub record IsUnreadable (s : ℕ) (e : Errno) : Type 0 where
    pub present : mount.present s ≡ true
    pub fails : read_quorum_block mount (quorum_blkno + s) false ≡ err e

  -- What the loop over the slots from `s` has when it ends.
  record IsRun (left s term : ℕ) (found : Option ℕ) (t : ℕ) (f : Option ℕ) : Type 0 where
    rises : term ≤ t
    bounds : (j u : ℕ) → s ≤ j → j < s + left → IsElected j u → u ≤ t
    origin : (t ≡ term) × (f ≡ found) ⊎ (j : ℕ) × (j < s + left) × (f ≡ some j) × IsElected j t

  abbrev RunSpec : (left s term : ℕ) → Option ℕ → Result (ℕ × Option ℕ) → Type 0
  RunSpec left s term found (err e) = (j : ℕ) × (j < s + left) × IsUnreadable j e
  RunSpec left s term found (ok (t, f)) = IsRun left s term found t f

  -- The server is in a slot that was elected and has not stopped, in the greatest term of all such slots. Without one
  -- there is no entry, and a block that cannot be read is an error.
  abbrev pub ServerSpec : Result (Option ℕ) → Type 0
  ServerSpec (ok f) =
      (s : ℕ) × (t : ℕ) × (s < max_slots)
      × (f ≡ some s)
      × IsElected s t
      × ((j u : ℕ) → j < max_slots → IsElected j u → u ≤ t)
  ServerSpec (err e) =
      ((s : ℕ) × (s < max_slots) × IsUnreadable s e)
      ⊎ (e ≡ enoent) × ((j u : ℕ) → j < max_slots → IsElected j u → u ≡ 0)
