-- ===== src/Quorum.antt =====
-- kmod/src/quorum.c: the elections of the mount that runs the server. One turn of the worker's loop is a function of its
-- status and of what it meets from outside: a message, the clock, the server's state and the writes of its block.
-- Counters, tracing, the delays that are recorded and the status that is shown are left out.
pub mod Blocks
pub mod Slots
pub mod Fence
pub mod Turn
pub mod Terms
pub mod Sound
pub mod Hearing
pub mod Candidacy
pub mod Winning
pub mod Serving
pub mod Whole
pub mod Stale
pub mod System
pub mod Majority
pub mod Leaders
pub mod Safety
pub mod Elected
mod Examples
use scoutfs.Spbm.{zero_bits}
use scoutfs.Prelude.{
  Bool, Errno, List, Option, [], false, if◌then◌else◌, none, some, suc, true, ℕ, ◌%◌, ◌+◌, ◌∷◌,
}

-- `enum quorum_role`
pub data Role : Type 0 where
  follower candidate leader : Role

-- SCOUTFS_QUORUM_MSG_REQUEST_VOTE, _VOTE, _HEARTBEAT and _RESIGNATION
pub data MsgType : Type 0 where
  request_vote vote heartbeat resignation : MsgType

-- `struct quorum_host_msg`; a message of the invalid type is no message.
pub record Msg : Type 0 where
  pub term : ℕ
  pub type : MsgType
  pub from : ℕ

-- SCOUTFS_QUORUM_EVENT_BEGIN to SCOUTFS_QUORUM_EVENT_END
pub data Event : Type 0 where
  begin_event term_event elect_event fence_event stop_event end_event : Event

-- `struct quorum_status`; no vote is -1 in the source, and a time is in milliseconds.
pub record Status : Type 0 where
  pub role : Role
  pub term : ℕ
  pub server_start_term : ℕ
  pub server_event : Event
  pub vote_for : Option ℕ
  pub vote_bits : List Bool
  pub timeout : ℕ

abbrev pub max_slots : ℕ
max_slots = 15

abbrev pub no_votes : List Bool
no_votes = zero_bits max_slots

-- `hweight_long`
unfoldable pub weight : List Bool → ℕ
weight [] = 0
weight (b ∷ bs) = let rest = weight bs in if b then suc rest else rest

-- What the worker does: messages to one slot or to all others, events in its block, and the server's start and stop.
pub data Action : Type 0 where
  send_to : MsgType → (term to : ℕ) → Action
  send_others : MsgType → (term : ℕ) → Action
  write : Event → (term : ℕ) → Action
  server_start : (term : ℕ) → Action
  server_stop : Action

-- The places of the loop where the clock is read, a timeout is drawn, or the block is written.
pub data Place : Type 0 where
  greater hearing resigning electing waiting standing winning fencing stopping beating : Place

pub record Env : Type 0 where
  pub slot : ℕ
  pub votes_needed : ℕ
  pub received : Option Msg
  pub clock : Place → ℕ
  pub draw : Place → ℕ
  pub heartbeat_timeout_ms : ℕ
  pub update_fails : Place → Option Errno
  pub was_down : Bool
  pub is_up : Bool
  pub is_running : Bool
  pub is_down : Bool

module _ (env : Env) where
  abbrev pub election_timeout : Place → ℕ
  election_timeout place = env.clock place + 250 + env.draw place % 100

  abbrev pub heartbeat_timeout : Place → ℕ
  heartbeat_timeout place = env.clock place + env.heartbeat_timeout_ms

  abbrev pub heartbeat_interval : Place → ℕ
  heartbeat_interval place = env.clock place + 100

abbrev pub is_leader : Role → Bool
is_leader leader = true
is_leader _ = false

abbrev pub is_candidate : Role → Bool
is_candidate candidate = true
is_candidate _ = false

abbrev pub is_follower : Role → Bool
is_follower follower = true
is_follower _ = false

abbrev pub is_vote : MsgType → Bool
is_vote vote = true
is_vote _ = false

abbrev pub is_request : MsgType → Bool
is_request request_vote = true
is_request _ = false

abbrev pub is_heartbeat : MsgType → Bool
is_heartbeat heartbeat = true
is_heartbeat _ = false

abbrev pub is_resignation : MsgType → Bool
is_resignation resignation = true
is_resignation _ = false

-- Whether there is a message, and what holds of it.
abbrev pub of_msg : Option Msg → (Msg → Bool) → Bool
of_msg none test = false
of_msg (some m) test = test m
