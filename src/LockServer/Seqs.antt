-- ===== src/LockServer/Seqs.antt =====
-- The sequence numbers of write grants.
use scoutfs.Recov.{Recov}
use scoutfs.Key.{Key}
use scoutfs.LockServer.{Message, Net, grant, invalidate, lock_write, lock_write_only, recover}
use scoutfs.Prelude.{All, List, [], if◌then◌else◌, ℕ, ◌++◌, ◌<◌, ◌==◌, ◌||◌, ◌∷◌, ◌≤◌}

-- The numbers that go out with grants of a write mode, oldest first.
abbrev pub write_seqs : List Message → List ℕ
write_seqs [] = []
write_seqs (grant rid net_id nl ∷ ms) =
    (if nl.new_mode == lock_write || nl.new_mode == lock_write_only then nl.write_seq ∷ [] else [])
    ++ write_seqs ms
write_seqs (invalidate rid nl ∷ ms) = write_seqs ms
write_seqs (recover rid key ∷ ms) = write_seqs ms

abbrev pub Rising : List ℕ → Type 0
Rising [] = Unit {0}
Rising (q ∷ qs) = All (λ r. q < r) qs × Rising qs

-- Each number is above those before it, and none is above the server's.
pub record IsSeqs (net : Net) : Type 0 where
  pub rising : Rising (write_seqs net.sent)
  pub bounded : All (λ q. q ≤ net.seq) (write_seqs net.sent)
