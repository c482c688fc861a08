-- ===== src/Quorum/Serving.antt =====
-- The parts of a turn that follow the server, and the vote for another slot; then the whole turn.
use scoutfs.Quorum.Terms.{ballots, starts}
use scoutfs.Quorum.Hearing.{FlowAll, Held, Kept, act-Kept, timeout-Held}
use scoutfs.Quorum.Sound.{Sound, Sound-other, Sound-vote, Voted}
use scoutfs.Quorum.Turn.{
  Turn, act, beat, cast_vote, forget_server, has_vote, is_fenced, record_fence, resign,
  server_stopped, stop_old_server, update, ◌then_do◌,
}
use scoutfs.Quorum.{
  Action, Env, Role, beating, candidate, fence_event, fencing, follower, heartbeat,
  heartbeat_interval, is_follower, is_leader, is_request, leader, send_others, send_to, server_stop,
  stop_event, stopping, vote, write,
}
use scoutfs.Prelude.{
  Bool, Bool-cases, List, Option, Option-cases, [], append_assoc, arith, false, inl, inr, ltb, none,
  not, refl, some, subst, sym, true, ℕ, ◌&&◌, ◌++◌, ◌==◌, ◌∷◌, ◌≡◌,
}

-- Whether the server is found to have stopped, so that a leader resigns.
abbrev pub resigns : Env → Turn → Bool
resigns env t = ltb 0 t.status.server_start_term && env.is_down && is_leader t.status.role

module _ (env : Env) (J : ℕ → ℕ → Type 0) (done : List Action) where
  abbrev K : Turn → Type 0
  K t = Kept env J done t

  abbrev H : Turn → Type 0
  H t = Held env J done t

  fenced_event-Kept :
      (t : Turn) → K t → K (record t { status = record t.status { server_event = fence_event } })
  fenced_event-Kept t h =
      Sound-other env.slot env.votes_needed J t.status
        (record t.status { server_event = fence_event }) (done ++ t.actions) refl refl refl refl h

  server_term-Kept :
      (t : Turn) → K t → K (record t { status = record t.status { server_start_term = 0 } })
  server_term-Kept t h =
      Sound-other env.slot env.votes_needed J t.status (record t.status { server_start_term = 0 })
        (done ++ t.actions) refl refl refl refl h

  pub record_fence-Held : (t : Turn) → H t → FlowAll H K (record_fence env t)
  unfolding record_fence ballots starts
  record_fence-Held t h =
      elim (Bool-cases
        (is_leader t.status.role && not (is_fenced env t.status.server_event) && env.is_up)) [
          | inr other ↦ rw (other, record_fence) h
          | inl fences ↦ elim (Option-cases (env.update_fails fencing)) [
            | inr (e, fails) ↦ rw (fences, update, fails, record_fence) h.0
            | inl fine ↦
                rw (fences, update, fine, record_fence)
                  (
                    fenced_event-Kept (act t (write fence_event t.status.term)) (
                        act-Kept env J done t (write fence_event t.status.term) (λ n. refl, refl)
                          h.0),
                    h.1,
                  )
          ]
        ]

  pub stop_old_server-Held : (t : Turn) → H t → FlowAll H K (stop_old_server env t)
  unfolding stop_old_server ballots starts
  stop_old_server-Held t h =
      elim (Bool-cases (
        not (is_leader t.status.role && t.status.term == t.status.server_start_term)
        && env.is_running)) [
          | inr other ↦ rw (other, stop_old_server) h
          | inl stops ↦
              rw (stops, stop_old_server)
                (act-Kept env J done t server_stop (λ n. refl, refl) h.0, h.1)
        ]

  no_resign : (t : Turn) → is_leader t.status.role ≡ false → resign env t ≡ t
  no_resign t follows = rw follows refl

  stopped-Held :
      (term : ℕ)
      → (t : Turn) → H t
      → FlowAll H K (update env stopping stop_event term t then_do forget_server env)
  unfolding ballots starts
  stopped-Held term t h = elim (Option-cases (env.update_fails stopping)) [
    | inr (e, fails) ↦ rw (update, fails) h.0
    | inl fine ↦
        rw (update, fine)
          (
            server_term-Kept (act t (write stop_event term))
                (act-Kept env J done t (write stop_event term) (λ n. refl, refl) h.0),
            h.1,
          )
  ]

  pub server_stopped-Held :
      (t : Turn) → resigns env t ≡ false → H t → FlowAll H K (server_stopped env t)
  unfolding server_stopped ballots starts
  server_stopped-Held t stays_leader h =
      elim (Bool-cases (ltb 0 t.status.server_start_term && env.is_down)) [
        | inr other ↦ rw (other, server_stopped) h
        | inl stopped ↦
            let follows : is_leader t.status.role ≡ false = ground arith in
            rw (stopped, server_stopped)
              (stopped-Held t.status.server_start_term (resign env t)
                (subst H (sym (no_resign t follows)) h))
      ]

  pub beat-Held : (t : Turn) → H t → FlowAll H K (beat env t)
  unfolding beat ballots starts
  beat-Held t h =
      elim (Bool-cases (is_leader t.status.role && ltb t.status.timeout (env.clock beating))) [
        | inr other ↦ rw (other, beat) h
        | inl beats ↦
            let later = timeout-Held env J done t (heartbeat_interval env beating) h in
            rw (beats, beat)
              (
                act-Kept env J done
                    (record t {
                      status = record t.status { timeout = heartbeat_interval env beating };
                    })
                    (send_others heartbeat t.status.term) (λ n. refl, refl) later.0,
                h.1,
              )
      ]

  no_vote :
      (r : Role)
      → (for : Option ℕ) → (cs : List ℕ) → is_follower r ≡ true
      → has_vote env for ≡ false
      → Voted env.slot r for cs
      → cs ≡ []
  unfolding Voted
  no_vote follower none cs e f v = v
  no_vote follower (some c) cs e f v = absurd cc
  no_vote candidate for cs e f v = absurd cc
  no_vote leader for cs e f v = absurd cc

  follower-Voted : (r : Role) → (c : ℕ) → is_follower r ≡ true → Voted env.slot r (some c) (c ∷ [])
  unfolding Voted
  follower-Voted follower c e = refl
  follower-Voted candidate c e = absurd cc
  follower-Voted leader c e = absurd cc

  pub cast_vote-Held : (t : Turn) → H t → FlowAll H K (cast_vote env t)
  unfolding cast_vote ballots starts
  cast_vote-Held t h = elim (Option-cases t.msg) [
    | inl no_msg ↦ rw (no_msg, cast_vote) h
    | inr (m, e) ↦
        elim (Bool-cases (
          is_follower t.status.role && is_request m.type && not (has_vote env t.status.vote_for))) [
            | inr other ↦ rw (e, other, cast_vote) h
            | inl votes ↦
                let follows : is_follower t.status.role ≡ true = ground arith in
                let blank : has_vote env t.status.vote_for ≡ false = ground arith in
                rw (e, votes, cast_vote)
                  (
                    subst
                        (Sound env.slot env.votes_needed J
                          (record t.status { vote_for = some m.from }))
                        (append_assoc done t.actions (send_to vote t.status.term m.from ∷ []))
                        (Sound-vote env.slot env.votes_needed J t.status
                          (record t.status { vote_for = some m.from }) (done ++ t.actions)
                          (send_to vote t.status.term m.from) m.from h.0 (omega arith)
                          (no_vote t.status.role t.status.vote_for
                            (ballots env.slot t.status.term (done ++ t.actions)) follows blank
                            h.0.current)
                          (λ n. refl) refl (follower-Voted t.status.role m.from follows) h.0.size
                          h.0.votes),
                    h.1,
                  )
          ]
  ]
