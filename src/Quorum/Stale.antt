-- ===== src/Quorum/Stale.antt =====
-- A vote that is at hand when a slot stands again, of the term before.
use scoutfs.Quorum.Hearing.{flow_turn}
use scoutfs.Quorum.Turn.{Turn, count_vote, start_election, ◌then_do◌}
use scoutfs.Quorum.{Env}

abbrev pub election_turn : Env → Turn → Turn
election_turn env t = flow_turn (start_election env t then_do count_vote env)
