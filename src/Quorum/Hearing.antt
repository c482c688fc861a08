-- ===== src/Quorum/Hearing.antt =====
-- What holds of a slot through a turn, and the parts of a turn that hear a message.
use scoutfs.Quorum.{
  Action, Env, Event, Msg, Place, Status, election_timeout, follower, greater, hearing,
  heartbeat_timeout, is_follower, is_heartbeat, is_resignation, is_vote, max_slots, no_votes,
  of_msg, resigning, term_event, write,
}
use scoutfs.Quorum.Turn.{
  Flow, Turn, act, again, drop_older, go, hear_heartbeat, hear_resignation, out, see_greater,
  turn_start, update, ◌then_do◌,
}
use scoutfs.Quorum.Terms.{ballots, starts}
use scoutfs.Quorum.Sound.{IsQuiet, Sound, Sound-other, Sound-quiet, Voted}
use scoutfs.Spbm.Bits.{length-zero_bits}
use scoutfs.Prelude.{
  Bool-cases, List, Option-cases, [], ap, append-nil, append_assoc, arith, false, if◌then◌else◌,
  inl, inr, ltb, none, refl, some, some_inj, subst, sym, true, ℕ, ◌&&◌, ◌++◌, ◌<◌, ◌==◌, ◌∙◌, ◌∷◌,
  ◌≡◌, ◌≤◌,
}

abbrev pub flow_turn : Flow → Turn
flow_turn (go t) = t
flow_turn (again t) = t
flow_turn (out t e) = t

-- `P` holds where the body goes on, and `S` where the turn ends early.
abbrev pub FlowAll : (Turn → Type 0) → (Turn → Type 0) → Flow → Type 0
FlowAll P S (go t) = P t
FlowAll P S (again t) = S t
FlowAll P S (out t e) = S t

pub FlowAll-then :
    (P Q S : Turn → Type 0)
    → (f : Flow) → (g : Turn → Flow) → FlowAll P S f
    → ((t : Turn) → f ≡ go t → P t → FlowAll Q S (g t))
    → FlowAll Q S (f then_do g)
FlowAll-then P Q S (go t) g h k = k t refl h
FlowAll-then P Q S (again t) g h k = h
FlowAll-then P Q S (out t e) g h k = h

pub FlowAll-mono :
    (P Q S : Turn → Type 0) → (f : Flow) → ((t : Turn) → P t → Q t) → FlowAll P S f → FlowAll Q S f
FlowAll-mono P Q S (go t) k h = k t h
FlowAll-mono P Q S (again t) k h = h
FlowAll-mono P Q S (out t e) k h = h

module _ (env : Env) (J : ℕ → ℕ → Type 0) (done : List Action) where
  abbrev pub Kept : Turn → Type 0
  Kept t = Sound env.slot env.votes_needed J t.status (done ++ t.actions)

  -- A vote that the turn holds was cast for this slot in the term of the status.
  abbrev pub Heard : Turn → Type 0
  Heard t =
      (m : Msg)
      → t.msg ≡ some m
      → is_vote m.type ≡ true
      → J m.from t.status.term × (m.from < max_slots)

  abbrev pub Held : Turn → Type 0
  Held t = Kept t × Heard t

  pub act-Kept :
      (t : Turn)
      → (a : Action) → IsQuiet env.slot env.votes_needed J (a ∷ [])
      → Kept t
      → Kept (act t a)
  act-Kept t a q h =
      subst (Sound env.slot env.votes_needed J t.status) (append_assoc done t.actions (a ∷ []))
        (Sound-quiet env.slot env.votes_needed J t.status (done ++ t.actions) (a ∷ []) q h)

  pub update-Held :
      (place : Place)
      → (event : Event) → (term : ℕ) → (t : Turn) → Held t
      → FlowAll Held Kept (update env place event term t)
  unfolding ballots starts
  update-Held place event term t h = elim (Option-cases (env.update_fails place)) [
    | inl fine ↦ rw (fine, update) (act-Kept t (write event term) (λ n. refl, refl) h.0, h.1)
    | inr (e, fails) ↦ rw (fails, update) h.0
  ]

  pub update-Kept :
      (place : Place)
      → (event : Event) → (term : ℕ) → (t : Turn) → Kept t
      → FlowAll Kept Kept (update env place event term t)
  unfolding ballots starts
  update-Kept place event term t h = elim (Option-cases (env.update_fails place)) [
    | inl fine ↦ rw (fine, update) (act-Kept t (write event term) (λ n. refl, refl) h)
    | inr (e, fails) ↦ rw (fails, update) h
  ]

  greater-Sound :
      (s : Status)
      → (term timeout : ℕ) → (log : List Action) → s.term < term
      → Sound env.slot env.votes_needed J s log
      → Sound env.slot env.votes_needed J
          (record s {
            role = follower;
            term = term;
            vote_for = none;
            vote_bits = no_votes;
            timeout = timeout;
          })
          log
  unfolding Voted
  greater-Sound s term timeout log higher h = record {
    current = h.future term higher;
    future = λ n later. h.future n (omega arith);
    once = h.once;
    size = length-zero_bits max_slots;
    votes = λ follows. absurd cc;
    won = h.won;
  }

  -- The message is the one received, and not from an older term.
  abbrev pub Fresh : Turn → Type 0
  Fresh t =
      Kept t × ((m : Msg) → t.msg ≡ some m → (env.received ≡ some m) × (t.status.term ≤ m.term))

  not_older :
      (s : Status)
      → (m : Msg) → of_msg env.received (λ n. ltb n.term s.term) ≡ false
      → env.received ≡ some m
      → s.term ≤ m.term
  not_older s m new e = ground (arith, rw e at new)

  pub drop_older-Fresh :
      (s : Status)
      → Sound env.slot env.votes_needed J s done
      → FlowAll Fresh Kept (drop_older env (turn_start env s))
  unfolding drop_older
  drop_older-Fresh s h =
      let start : Kept (turn_start env s) = rw (append-nil done) h in
      elim (Bool-cases (of_msg env.received (λ m. ltb m.term s.term))) [
        | inl old ↦ rw (old, drop_older) (start, λ m e. absurd cc)
        | inr new ↦ rw (new, drop_older) (start, λ m e. (e, not_older s m new e))
      ]

  pub see_greater-Held :
      (t : Turn)
      → ((m : Msg)
          → env.received ≡ some m
          → is_vote m.type ≡ true
          → J m.from m.term × (m.from < max_slots))
      → Fresh t
      → FlowAll Held Kept (see_greater env t)
  unfolding see_greater
  see_greater-Held t legit h = elim (Option-cases t.msg) [
    | inl none_left ↦ rw (none_left, see_greater) (h.0, λ m e. absurd cc)
    | inr (m, e) ↦ elim (Bool-cases (ltb t.status.term m.term)) [
      | inl higher ↦
          let timeout =
            if is_heartbeat m.type
            then heartbeat_timeout env greater
            else election_timeout env greater in
          let u = record t {
            status = record t.status {
              role = follower;
              term = m.term;
              vote_for = none;
              vote_bits = no_votes;
              timeout = timeout;
            };
          } in
          rw (e, higher, see_greater)
            (update-Held greater term_event m.term u (
              greater-Sound t.status m.term timeout (done ++ t.actions) (ground arith) h.0,
              λ n f is_v.
                  let same : m ≡ n = some_inj (sym e ∙ f) in
                  subst (λ k. J k.from m.term × (k.from < max_slots)) same
                    (legit m (h.1 m e).0 (subst (λ k. is_vote k.type ≡ true) (sym same) is_v)),
            ))
      | inr level ↦
          rw (e, level, see_greater)
            (
              h.0,
              λ n f is_v.
                  let (received, at_least) = h.1 n f in
                  let same : m ≡ n = some_inj (sym e ∙ f) in
                  let equal : n.term ≡ t.status.term =
                    ground (arith, ap (λ (k : Msg). k.term) same) in
                  subst (λ k. J n.from k × (n.from < max_slots)) equal (legit n received is_v),
            )
    ]
  ]

  pub timeout-Held :
      (t : Turn)
      → (timeout : ℕ) → Held t
      → Held (record t { status = record t.status { timeout = timeout } })
  timeout-Held t timeout h = (
    Sound-other env.slot env.votes_needed J t.status (record t.status { timeout = timeout })
        (done ++ t.actions) refl refl refl refl h.0,
    h.1,
  )

  pub hear_heartbeat-Held : (t : Turn) → Held t → FlowAll Held Kept (hear_heartbeat env t)
  unfolding hear_heartbeat
  hear_heartbeat-Held t h = elim (Bool-cases (of_msg t.msg (λ m. is_heartbeat m.type))) [
    | inl hears ↦ rw (hears, hear_heartbeat) (timeout-Held t (heartbeat_timeout env hearing) h)
    | inr other ↦ rw (other, hear_heartbeat) h
  ]

  pub hear_resignation-Held : (t : Turn) → Held t → FlowAll Held Kept (hear_resignation env t)
  unfolding hear_resignation
  hear_resignation-Held t h =
      elim (Bool-cases (
        of_msg t.msg (λ m. is_resignation m.type && m.term == t.status.term)
        && is_follower t.status.role)) [
          | inl hears ↦
              rw (hears, hear_resignation) (timeout-Held t (election_timeout env resigning) h)
          | inr other ↦ rw (other, hear_resignation) h
        ]
