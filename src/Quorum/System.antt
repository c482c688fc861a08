-- ===== src/Quorum/System.antt =====
-- The slots of a quorum together: each takes turns of its own, and a vote that it is given was sent to it.
use scoutfs.Quorum.Whole.{IsRegular}
use scoutfs.Quorum.Turn.{worker_turn}
use scoutfs.Quorum.Hearing.{flow_turn}
use scoutfs.Spbm.{test_bit}
use scoutfs.Quorum.{
  Action, Env, Msg, Status, begin_event, follower, is_vote, no_votes, send_to, vote,
}
use scoutfs.Prelude.{
  Bool, List, [], false, if◌then◌else◌, none, some, true, ℕ, ◌&&◌, ◌++◌, ◌==◌, ◌||◌, ◌∷◌, ◌≡◌,
}

-- How a slot's worker starts, in some term.
unfoldable pub worker_start : (term timeout : ℕ) → Status
worker_start term timeout = record {
  role = follower;
  term = term;
  server_start_term = 0;
  server_event = begin_event;
  vote_for = none;
  vote_bits = no_votes;
  timeout = timeout;
}

-- The status of each slot, and what it has done.
pub record Net : Type 0 where
  pub status : ℕ → Status
  pub log : ℕ → List Action

abbrev pub put : {A : Type 0} → ℕ → A → (ℕ → A) → ℕ → A
put i x f j = if j == i then x else f j

unfoldable pub sends_vote : (term to : ℕ) → List Action → Bool
sends_vote term to [] = false
sends_vote term to (send_to vote t c ∷ xs) = (t == term && c == to) || sends_vote term to xs
sends_vote term to (a ∷ xs) = sends_vote term to xs

-- A message from a slot of the configuration, where a vote is one that the slot sent.
pub record IsDelivered (members : List Bool) (env : Env) (n : Net) (m : Msg) : Type 0 where
  pub present : test_bit m.from members ≡ true
  pub sent : is_vote m.type ≡ true → sends_vote m.term env.slot (n.log m.from) ≡ true

abbrev pub net_turn : Env → Net → Net
net_turn env n =
    let t = flow_turn (worker_turn env (n.status env.slot)) in
    record {
      status = put env.slot t.status n.status;
      log = put env.slot (n.log env.slot ++ t.actions) n.log;
    }

pub data Step (members : List Bool) (needed : ℕ) : Net → Net → Type 0 where
  turns :
      {n : Net}
      → (env : Env) → test_bit env.slot members ≡ true
      → env.votes_needed ≡ needed
      → ((m : Msg) → env.received ≡ some m → IsDelivered members env n m)
      → IsRegular env (n.status env.slot)
      → Step members needed n (net_turn env n)

-- All slots start with nothing done, each in some term.
pub record IsStart (n : Net) : Type 0 where
  pub starts_as : (i : ℕ) → (term : ℕ) × (timeout : ℕ) × (n.status i ≡ worker_start term timeout)
  pub undone : (i : ℕ) → n.log i ≡ []

pub data Reach (members : List Bool) (needed : ℕ) : Net → Type 0 where
  start : {n : Net} → IsStart n → Reach members needed n
  step : {n p : Net} → Reach members needed n → Step members needed n p → Reach members needed p
