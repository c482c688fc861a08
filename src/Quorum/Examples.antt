-- ===== src/Quorum/Examples.antt =====
-- An election of three slots: slot 0 stands, slot 1 votes for it, and slot 0 starts its server.
use scoutfs.Quorum.Elected.{one_server_per_term}
use scoutfs.Quorum.Majority.{votes_needed_of}
use scoutfs.Quorum.Terms.{starts}
use scoutfs.Spbm.{test_bit, write_bit, zero_bits}
use scoutfs.Quorum.System.{
  IsDelivered, IsStart, Net, Reach, net_turn, sends_vote, start, step, turns, worker_start,
}
use scoutfs.Quorum.Turn.{
  Turn, beat, cast_vote, count_vote, drop_older, hear_heartbeat, hear_resignation, record_fence,
  see_greater, server_stopped, start_election, stop_old_server, win_election, worker_turn,
}
use scoutfs.Quorum.{Env, Msg, candidate, no_votes, request_vote, vote, weight}
use scoutfs.Prelude.{
  Bool, List, Option, [], false, none, refl, some, some_inj, subst, true, ℕ, ◌∷◌, ◌≡◌,
}

abbrev three_slots : List Bool
three_slots = true ∷ true ∷ true ∷ zero_bits 12

abbrev first_net : Net
first_net = record { status = λ i. worker_start 0 100; log = λ i. [] }

abbrev turn_env : ℕ → Option Msg → ℕ → Env
turn_env slot received now = record {
  slot = slot;
  votes_needed = 2;
  received = received;
  clock = λ p. now;
  draw = λ p. 0;
  heartbeat_timeout_ms = 5000;
  update_fails = λ p. none;
  was_down = true;
  is_up = false;
  is_running = false;
  is_down = true;
}

abbrev stand_env : Env
stand_env = turn_env 0 none 200

abbrev vote_env : Env
vote_env = turn_env 1 (some (record { term = 1; type = request_vote; from = 0 })) 50

abbrev win_env : Env
win_env = record (turn_env 0 (some (record { term = 1; type = vote; from = 1 })) 201) {
  is_down = false;
}

abbrev stood_net : Net
stood_net = net_turn stand_env first_net

abbrev voted_net : Net
voted_net = net_turn vote_env stood_net

abbrev won_net : Net
won_net = net_turn win_env voted_net

first_net-IsStart : IsStart first_net
first_net-IsStart = record { starts_as = λ i. (0, 100, refl); undone = λ i. refl }

stood_net-Reach : Reach three_slots 2 stood_net
unfolding worker_turn worker_start drop_older see_greater hear_heartbeat hear_resignation
    start_election count_vote win_election record_fence stop_old_server server_stopped test_bit
    zero_bits weight write_bit
stood_net-Reach =
    step (start first_net-IsStart)
      (turns stand_env refl refl (λ m e. absurd cc) (record { election = refl; stop = refl }))

voted_net-Reach : Reach three_slots 2 voted_net
unfolding worker_turn worker_start drop_older see_greater hear_heartbeat hear_resignation
    start_election count_vote win_election record_fence stop_old_server server_stopped beat
    cast_vote test_bit zero_bits weight write_bit
voted_net-Reach = step stood_net-Reach (
    turns vote_env refl refl
      (λ m e.
        subst (IsDelivered three_slots vote_env stood_net) (some_inj e)
          (record { present = refl; sent = λ v. absurd cc }))
      (record { election = refl; stop = refl }))

won_net-Reach : Reach three_slots 2 won_net
unfolding worker_turn worker_start drop_older see_greater hear_heartbeat hear_resignation
    start_election count_vote win_election record_fence stop_old_server server_stopped beat
    cast_vote test_bit zero_bits weight write_bit sends_vote
won_net-Reach = step voted_net-Reach (
    turns win_env refl refl
      (λ m e.
        subst (IsDelivered three_slots win_env voted_net) (some_inj e)
          (record { present = refl; sent = λ v. refl }))
      (record { election = refl; stop = refl }))

abbrev winner : ℕ
winner = 0

one_server_per_term_example : winner ≡ winner
unfolding worker_turn worker_start drop_older see_greater hear_heartbeat hear_resignation
    start_election count_vote win_election record_fence stop_old_server server_stopped beat
    cast_vote test_bit zero_bits weight write_bit starts votes_needed_of
one_server_per_term_example =
    one_server_per_term three_slots won_net refl refl won_net-Reach winner winner 1 refl refl refl
      refl

abbrev stale_turn : Turn
stale_turn = record {
  status = record (worker_start 3 100) { role = candidate; vote_bits = write_bit true 0 no_votes };
  msg = some (record { term = 3; type = vote; from = 1 });
  actions = [];
}
