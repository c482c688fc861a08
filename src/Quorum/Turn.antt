-- ===== src/Quorum/Turn.antt =====
-- kmod/src/quorum.c: one turn of the loop in `scoutfs_quorum_worker`, a function for each part of it.
use scoutfs.Quorum.{
  Action, Env, Event, Msg, Place, Status, beating, candidate, elect_event, electing,
  election_timeout, fence_event, fencing, follower, greater, hearing, heartbeat, heartbeat_interval,
  heartbeat_timeout, is_candidate, is_follower, is_heartbeat, is_leader, is_request, is_resignation,
  is_vote, leader, no_votes, of_msg, request_vote, resignation, resigning, send_others, send_to,
  server_start, server_stop, standing, stop_event, stopping, term_event, vote, waiting, weight,
  winning, write,
}
use scoutfs.Spbm.{write_bit}
use scoutfs.Prelude.{
  Bool, Errno, List, Option, [], false, if◌then◌else◌, leb, ltb, none, not, some, true, ℕ, ◌%◌,
  ◌&&◌, ◌++◌, ◌+◌, ◌==◌, ◌^◌, ◌∷◌,
}

-- The status and the message as the loop's body goes on, and what it has done.
pub record Turn : Type 0 where
  pub status : Status
  pub msg : Option Msg
  pub actions : List Action

-- The body goes on, or the loop starts again at `continue`, or it is left for an error.
pub data Flow : Type 0 where
  go : Turn → Flow
  again : Turn → Flow
  out : Turn → Errno → Flow

infixl 5 ◌then_do◌
abbrev pub ◌then_do◌ : Flow → (Turn → Flow) → Flow
go t then_do f = f t
again t then_do f = again t
out t e then_do f = out t e

abbrev pub act : Turn → Action → Turn
act t a = record t { actions = t.actions ++ a ∷ [] }

module _ (env : Env) where
  -- `update_quorum_block` in the worker, where a failure leaves the loop
  abbrev pub update : Place → Event → ℕ → Turn → Flow
  update place event term t = elim (env.update_fails place) [
    | some e ↦ out t e
    | none ↦ go (act t (write event term))
  ]

  unfoldable pub drop_older : Turn → Flow
  drop_older t =
      if of_msg t.msg (λ m. ltb m.term t.status.term) then go (record t { msg = none }) else go t

  unfoldable pub see_greater : Turn → Flow
  see_greater t = elim t.msg [
    | none ↦ go t
    | some m ↦
        if ltb t.status.term m.term
        then update greater term_event m.term (record t {
          status = record t.status {
            role = follower;
            term = m.term;
            vote_for = none;
            vote_bits = no_votes;
            timeout =
                if is_heartbeat m.type
                then heartbeat_timeout env greater
                else election_timeout env greater;
          };
        })
        else go t
  ]

  unfoldable pub hear_heartbeat : Turn → Flow
  hear_heartbeat t =
      if of_msg t.msg (λ m. is_heartbeat m.type)
      then go (record t { status = record t.status { timeout = heartbeat_timeout env hearing } })
      else go t

  unfoldable pub hear_resignation : Turn → Flow
  hear_resignation t =
      if of_msg t.msg (λ m. is_resignation m.type && m.term == t.status.term)
        && is_follower t.status.role
      then go (record t { status = record t.status { timeout = election_timeout env resigning } })
      else go t

  abbrev pub elections_term : Status → ℕ
  elections_term s = (s.term + 1) % 2 ^ 64

  unfoldable pub start_election : Turn → Flow
  start_election t =
      if not (is_leader t.status.role) && ltb t.status.timeout (env.clock electing)
      then (if not env.was_down
          then again
              (record t { status = record t.status { timeout = election_timeout env waiting } })
          else update standing term_event (elections_term t.status) (
              act
                (record t {
                  status = record t.status {
                    role = candidate;
                    term = elections_term t.status;
                    vote_for = none;
                    vote_bits = write_bit true env.slot no_votes;
                    timeout = election_timeout env standing;
                  };
                })
                (send_others request_vote (elections_term t.status))))
      else go t

  unfoldable pub count_vote : Turn → Flow
  count_vote t = elim t.msg [
    | none ↦ go t
    | some m ↦
        if is_candidate t.status.role && is_vote m.type
        then go (record t {
          status = record t.status { vote_bits = write_bit true m.from t.status.vote_bits };
        })
        else go t
  ]

  abbrev pub start_server : ℕ → Turn → Flow
  start_server term t = go (
      act
        (record t {
          status = record t.status { server_start_term = term; server_event = elect_event };
        })
        (server_start term))

  unfoldable pub win_election : Turn → Flow
  win_election t =
      if is_candidate t.status.role && leb env.votes_needed (weight t.status.vote_bits)
      then update winning elect_event t.status.term (
          act
            (record t {
              status = record t.status { role = leader; timeout = heartbeat_interval env winning };
            })
            (send_others heartbeat t.status.term))
        then_do start_server t.status.term
      else go t

  abbrev pub is_fenced : Event → Bool
  is_fenced fence_event = true
  is_fenced _ = false

  abbrev pub set_fenced : Turn → Flow
  set_fenced t = go (record t { status = record t.status { server_event = fence_event } })

  unfoldable pub record_fence : Turn → Flow
  record_fence t =
      if is_leader t.status.role && not (is_fenced t.status.server_event) && env.is_up
      then update fencing fence_event t.status.term t then_do set_fenced
      else go t

  unfoldable pub stop_old_server : Turn → Flow
  stop_old_server t =
      if not (is_leader t.status.role && t.status.term == t.status.server_start_term)
        && env.is_running
      then go (act t server_stop)
      else go t

  abbrev pub resign : Turn → Turn
  resign t =
      if is_leader t.status.role
      then act
          (record t {
            status = record t.status {
              role = follower;
              vote_for = none;
              vote_bits = no_votes;
              timeout = election_timeout env stopping;
            };
          })
          (send_others resignation t.status.server_start_term)
      else t

  abbrev pub forget_server : Turn → Flow
  forget_server t = go (record t { status = record t.status { server_start_term = 0 } })

  unfoldable pub server_stopped : Turn → Flow
  server_stopped t =
      if ltb 0 t.status.server_start_term && env.is_down
      then update stopping stop_event t.status.server_start_term (resign t) then_do forget_server
      else go t

  unfoldable pub beat : Turn → Flow
  beat t =
      if is_leader t.status.role && ltb t.status.timeout (env.clock beating)
      then go (
          act (record t { status = record t.status { timeout = heartbeat_interval env beating } })
            (send_others heartbeat t.status.term))
      else go t

  abbrev pub has_vote : Option ℕ → Bool
  has_vote none = false
  has_vote (some n) = true

  unfoldable pub cast_vote : Turn → Flow
  cast_vote t = elim t.msg [
    | none ↦ go t
    | some m ↦
        if is_follower t.status.role && is_request m.type && not (has_vote t.status.vote_for)
        then go (
            act (record t { status = record t.status { vote_for = some m.from } })
              (send_to vote t.status.term m.from))
        else go t
  ]

  abbrev pub turn_start : Status → Turn
  turn_start s = record { status = s; msg = env.received; actions = [] }

  unfoldable pub worker_turn : Status → Flow
  worker_turn s =
      drop_older (turn_start s)
      then_do see_greater
      then_do hear_heartbeat
      then_do hear_resignation
      then_do start_election
      then_do count_vote
      then_do win_election
      then_do record_fence
      then_do stop_old_server
      then_do server_stopped
      then_do beat
      then_do cast_vote
