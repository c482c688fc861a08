-- ===== src/Trans/Examples.antt =====
-- A task holds the transaction twice and releases it, and the work writes it then.
use scoutfs.Trans.{
  Trans, acquire, hold_trans, idle, inc_holders_unless_writer, inc_journal_info_holders, journal,
  no_journals, release_holders, set_journal, write_drained, write_start,
}
use scoutfs.Prelude.{false, refl, ◌≡◌}

abbrev two_tasks : Trans
two_tasks = record { holders = 0; phase = idle; journals = no_journals 2; write_count = 0 }

abbrev nested_hold : Trans
nested_hold = (hold_trans 1 false false false (hold_trans 1 false false false two_tasks).1).1

abbrev written : Trans
written = write_drained (release_holders 1 (release_holders 1 (write_start nested_hold)))

two_holds : nested_hold.holders ≡ 2
unfolding hold_trans acquire inc_journal_info_holders inc_holders_unless_writer journal set_journal
    no_journals
two_holds = refl
