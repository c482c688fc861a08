-- ===== src/Quorum/Whole.antt =====
-- A whole turn keeps what holds of a slot.
use scoutfs.Quorum.Serving.{
  beat-Held, cast_vote-Held, record_fence-Held, resigns, server_stopped-Held, stop_old_server-Held,
}
use scoutfs.Quorum.Sound.{Sound}
use scoutfs.Quorum.Winning.{win_election-Held}
use scoutfs.Quorum.Candidacy.{count_vote-Held, stands, start_election-Held}
use scoutfs.Quorum.Hearing.{
  FlowAll, FlowAll-then, Fresh, Held, Kept, drop_older-Fresh, flow_turn, hear_heartbeat-Held,
  hear_resignation-Held, see_greater-Held,
}
use scoutfs.Quorum.Turn.{
  Flow, Turn, again, beat, cast_vote, count_vote, drop_older, go, hear_heartbeat, hear_resignation,
  out, record_fence, see_greater, server_stopped, start_election, stop_old_server, turn_start,
  win_election, worker_turn, ◌then_do◌,
}
use scoutfs.Quorum.{Action, Env, Msg, Status, is_vote, max_slots, of_msg}
use scoutfs.Prelude.{Bool, List, false, leb, some, subst, true, ℕ, ◌&&◌, ◌-◌, ◌<◌, ◌^◌, ◌||◌, ◌≡◌}

abbrev pub flow_test : Flow → (Turn → Bool) → Bool
flow_test (go t) test = test t
flow_test (again t) test = false
flow_test (out t e) test = false

flow_test-go :
    (f : Flow)
    → (test : Turn → Bool) → (t : Turn) → f ≡ go t
    → flow_test f test ≡ false
    → test t ≡ false
flow_test-go f test t e h = subst (λ g. flow_test g test ≡ false) e h

-- The turn as far as the election, and as far as a server that has stopped.
abbrev pub before_election : Env → Status → Flow
before_election env s =
    drop_older env (turn_start env s)
    then_do see_greater env
    then_do hear_heartbeat env
    then_do hear_resignation env

abbrev pub before_stop : Env → Status → Flow
before_stop env s =
    before_election env s
    then_do start_election env
    then_do count_vote env
    then_do win_election env
    then_do record_fence env
    then_do stop_old_server env

-- No election starts with a vote at hand or with the last term, and no leader's server stops by itself.
pub record IsRegular (env : Env) (s : Status) : Type 0 where
  pub election :
      flow_test (before_election env s) (λ t.
        stands env t && (of_msg t.msg (λ m. is_vote m.type) || leb (2 ^ 64 - 1) t.status.term))
      ≡ false
  pub stop : flow_test (before_stop env s) (resigns env) ≡ false

module _ (env : Env) (J : ℕ → ℕ → Type 0) (done : List Action) where
  abbrev K : Turn → Type 0
  K t = Kept env J done t

  abbrev H : Turn → Type 0
  H t = Held env J done t

  all_kept : (f : Flow) → FlowAll H K f → K (flow_turn f)
  all_kept (go t) h = h.0
  all_kept (again t) h = h
  all_kept (out t e) h = h

  before_election-Held :
      (s : Status)
      → ((m : Msg)
          → env.received ≡ some m
          → is_vote m.type ≡ true
          → J m.from m.term × (m.from < max_slots))
      → Sound env.slot env.votes_needed J s done
      → FlowAll H K (before_election env s)
  before_election-Held s legit h =
      FlowAll-then H H K
        (drop_older env (turn_start env s) then_do see_greater env then_do hear_heartbeat env)
        (hear_resignation env)
        (FlowAll-then H H K (drop_older env (turn_start env s) then_do see_greater env)
          (hear_heartbeat env)
          (FlowAll-then (Fresh env J done) H K (drop_older env (turn_start env s)) (see_greater env)
            (drop_older-Fresh env J done s h)
            (λ t e fresh. see_greater-Held env J done t legit fresh))
          (λ t e. hear_heartbeat-Held env J done t))
        (λ t e. hear_resignation-Held env J done t)

  before_stop-Held :
      (s : Status)
      → env.slot < max_slots
      → IsRegular env s
      → FlowAll H K (before_election env s)
      → FlowAll H K (before_stop env s)
  before_stop-Held s member regular h =
      let f₁ = before_election env s in
      let f₂ = f₁ then_do start_election env in
      let f₃ = f₂ then_do count_vote env in
      let f₄ = f₃ then_do win_election env in
      let f₅ = f₄ then_do record_fence env in
      let h₂ = FlowAll-then H H K f₁ (start_election env) h (λ t e.
        start_election-Held env J done t member (
          flow_test-go f₁
            (λ t.
              stands env t
              && (of_msg t.msg (λ m. is_vote m.type) || leb (2 ^ 64 - 1) t.status.term))
            t e regular.election)) in
      let h₃ = FlowAll-then H H K f₂ (count_vote env) h₂ (λ t e. count_vote-Held env J done t) in
      let h₄ =
        FlowAll-then H H K f₃ (win_election env) h₃ (λ t e. win_election-Held env J done t) in
      let h₅ =
        FlowAll-then H H K f₄ (record_fence env) h₄ (λ t e. record_fence-Held env J done t) in
      FlowAll-then H H K f₅ (stop_old_server env) h₅ (λ t e. stop_old_server-Held env J done t)

  pub worker_turn-Sound :
      (s : Status)
      → env.slot < max_slots
      → ((m : Msg)
          → env.received ≡ some m
          → is_vote m.type ≡ true
          → J m.from m.term × (m.from < max_slots))
      → IsRegular env s
      → Sound env.slot env.votes_needed J s done
      → K (flow_turn (worker_turn env s))
  unfolding worker_turn
  worker_turn-Sound s member legit regular h =
      let f₁ = before_stop env s in
      let f₂ = f₁ then_do server_stopped env in
      let f₃ = f₂ then_do beat env in
      let h₁ = before_stop-Held s member regular (before_election-Held s legit h) in
      let h₂ = FlowAll-then H H K f₁ (server_stopped env) h₁ (λ t e.
        server_stopped-Held env J done t (flow_test-go f₁ (resigns env) t e regular.stop)) in
      let h₃ = FlowAll-then H H K f₂ (beat env) h₂ (λ t e. beat-Held env J done t) in
      all_kept (f₃ then_do cast_vote env)
        (FlowAll-then H H K f₃ (cast_vote env) h₃ (λ t e. cast_vote-Held env J done t))
