-- ===== src/Quorum/Winning.antt =====
-- The election that is won: the slot leads and starts its server.
use scoutfs.Quorum.Sound.{Sound, Sound-other, Voted, Won, Won-more}
use scoutfs.Quorum.Hearing.{FlowAll, Held, Kept, act-Kept}
use scoutfs.Quorum.Terms.{ballots, ballots-append, starts, starts-append}
use scoutfs.Quorum.Turn.{Turn, act, start_server, update, win_election}
use scoutfs.Quorum.{
  Action, Env, Role, Status, candidate, elect_event, follower, heartbeat, heartbeat_interval,
  is_candidate, is_follower, leader, send_others, server_start, weight, winning, write,
}
use scoutfs.Prelude.{
  All-append, Bool-cases, List, Option, Option-cases, [], append-nil, append_assoc, arith, false,
  inl, inr, leb, length, refl, subst, true, ℕ, ◌&&◌, ◌++◌, ◌∙◌, ◌∷◌, ◌≡◌, ◌≤◌,
}

module _ (env : Env) (J : ℕ → ℕ → Type 0) (done : List Action) where
  abbrev K : Turn → Type 0
  K t = Kept env J done t

  abbrev H : Turn → Type 0
  H t = Held env J done t

  own_vote :
      (r : Role)
      → (for : Option ℕ) → (cs : List ℕ) → r ≡ leader
      → Voted env.slot r for cs
      → cs ≡ env.slot ∷ []
  unfolding Voted
  own_vote follower for cs e v = absurd cc
  own_vote candidate for cs e v = v
  own_vote leader for cs e v = v

  start-Sound :
      (s : Status)
      → (log : List Action) → s.role ≡ leader
      → env.votes_needed ≤ weight s.vote_bits
      → Sound env.slot env.votes_needed J s log
      → Sound env.slot env.votes_needed J s (log ++ server_start s.term ∷ [])
  unfolding ballots starts
  start-Sound s log leads enough h =
      let same : (term : ℕ)
          → ballots env.slot term (log ++ server_start s.term ∷ []) ≡ ballots env.slot term log =
        λ term.
          ballots-append env.slot term log (server_start s.term ∷ [])
          ∙ append-nil (ballots env.slot term log) in
      let once : (term : ℕ) → length (ballots env.slot term (log ++ server_start s.term ∷ [])) ≤ 1 =
        λ term. rw (same term) (h.once term) in
      record {
        current = rw (same s.term) h.current;
        future = λ term later. same term ∙ h.future term later;
        once = once;
        size = h.size;
        votes = h.votes;
        won = rw (starts-append log (server_start s.term ∷ [])) (
            All-append (Won env.slot env.votes_needed J (log ++ server_start s.term ∷ []))
              (starts log) (s.term ∷ [])
              (Won-more env.slot env.votes_needed J log (server_start s.term ∷ []) once (starts log)
                h.won)
              (
                record {
                  votes = s.vote_bits;
                  size = h.size;
                  enough = enough;
                  others = h.votes (rw leads refl);
                  own =
                      same s.term
                      ∙ own_vote s.role s.vote_for (ballots env.slot s.term log) leads h.current;
                },
                tt,
              ));
      }

  no_follower : (r : Role) → is_candidate r ≡ true → is_follower r ≡ false
  no_follower follower e = absurd cc
  no_follower candidate e = refl
  no_follower leader e = refl

  leads-Voted :
      (r : Role)
      → (for : Option ℕ) → (cs : List ℕ) → is_candidate r ≡ true
      → Voted env.slot r for cs
      → Voted env.slot leader for cs
  unfolding Voted
  leads-Voted follower for cs e v = absurd cc
  leads-Voted candidate for cs e v = v
  leads-Voted leader for cs e v = v

  lead-Sound :
      (s : Status)
      → (timeout : ℕ) → (log : List Action) → is_candidate s.role ≡ true
      → Sound env.slot env.votes_needed J s log
      → Sound env.slot env.votes_needed J (record s { role = leader; timeout = timeout }) log
  lead-Sound s timeout log stands h = record {
    current = leads-Voted s.role s.vote_for (ballots env.slot s.term log) stands h.current;
    future = h.future;
    once = h.once;
    size = h.size;
    votes = λ _. h.votes (no_follower s.role stands);
    won = h.won;
  }

  -- The leader before its server is started.
  abbrev leading : Turn → Turn
  leading t =
      act
        (record t {
          status = record t.status { role = leader; timeout = heartbeat_interval env winning };
        })
        (send_others heartbeat t.status.term)

  leading-Kept : (t : Turn) → is_candidate t.status.role ≡ true → K t → K (leading t)
  unfolding ballots starts
  leading-Kept t stands h =
      act-Kept env J done
        (record t {
          status = record t.status { role = leader; timeout = heartbeat_interval env winning };
        })
        (send_others heartbeat t.status.term) (λ n. refl, refl)
        (lead-Sound t.status (heartbeat_interval env winning) (done ++ t.actions) stands h)

  start_server-Kept :
      (t : Turn)
      → t.status.role ≡ leader
      → env.votes_needed ≤ weight t.status.vote_bits
      → K t
      → FlowAll K K (start_server env t.status.term t)
  start_server-Kept t leads enough h =
      subst
        (Sound env.slot env.votes_needed J
          (record t.status { server_start_term = t.status.term; server_event = elect_event }))
        (append_assoc done t.actions (server_start t.status.term ∷ []))
        (Sound-other env.slot env.votes_needed J t.status
          (record t.status { server_start_term = t.status.term; server_event = elect_event })
          ((done ++ t.actions) ++ server_start t.status.term ∷ []) refl refl refl refl
          (start-Sound t.status (done ++ t.actions) leads enough h))

  pub win_election-Held : (t : Turn) → H t → FlowAll H K (win_election env t)
  unfolding win_election ballots starts
  win_election-Held t h =
      elim (Bool-cases
        (is_candidate t.status.role && leb env.votes_needed (weight t.status.vote_bits))) [
          | inr other ↦ rw (other, win_election) h
          | inl wins ↦
              let stands : is_candidate t.status.role ≡ true = ground arith in
              let enough : env.votes_needed ≤ weight t.status.vote_bits = ground arith in
              let led = leading-Kept t stands h.0 in
              elim (Option-cases (env.update_fails winning)) [
                | inr (e, fails) ↦ rw (wins, update, fails, win_election) led
                | inl fine ↦
                    rw (wins, update, fine, win_election)
                      (
                        start_server-Kept (act (leading t) (write elect_event t.status.term)) refl
                            enough
                            (act-Kept env J done (leading t) (write elect_event t.status.term)
                              (λ n. refl, refl) led),
                        h.1,
                      )
              ]
        ]
