-- ===== src/Trans/Writer.antt =====
-- The tasks and the work that writes the transaction, in any order of their steps.
use scoutfs.Trans.{Hold, Trans, commits, held, no_space, waits}
use scoutfs.Prelude.{Bool, if◌then◌else◌}

-- What `hold_trans` makes of its tests: `k` is the state with the hold given up.
abbrev passed : (waited was_holder low due : Bool) → (r k : Trans) → Hold × Trans
passed waited was_holder low due r k =
    if waited
    then (waits, r)
    else (if was_holder
        then (held, r)
        else (if low then (no_space, k) else (if due then (commits, k) else (held, r))))
