-- ===== src/Quorum/Candidacy.antt =====
-- The election: a slot that stands, the votes that it counts, and the server that it starts.
use scoutfs.Quorum.Sound.{Sound, Sound-vote, Voted}
use scoutfs.Spbm.Bits.{length-write_bit, length-zero_bits, test_bit-write_bit, test_bit-zero_bits}
use scoutfs.Spbm.{test_bit, write_bit}
use scoutfs.Quorum.Hearing.{FlowAll, Held, Kept, timeout-Held, update-Held}
use scoutfs.Quorum.Terms.{ballots, starts}
use scoutfs.Quorum.Turn.{Turn, act, count_vote, elections_term, start_election}
use scoutfs.Quorum.{
  Action, Env, Msg, Status, candidate, electing, election_timeout, is_candidate, is_leader, is_vote,
  max_slots, no_votes, of_msg, request_vote, send_others, standing, term_event, waiting,
}
use scoutfs.Prelude.{
  Bool, Bool-cases, List, Option, Option-cases, [], append_assoc, arith, false, inl, inr, leb, ltb,
  none, not, refl, some, subst, sym, true, ℕ, ◌&&◌, ◌++◌, ◌+◌, ◌-◌, ◌<◌, ◌==◌, ◌^◌, ◌||◌, ◌∙◌, ◌∷◌,
  ◌≡◌,
}

-- Whether an election is started here.
abbrev pub stands : Env → Turn → Bool
stands env t = not (is_leader t.status.role) && ltb t.status.timeout (env.clock electing)

module _ (env : Env) (J : ℕ → ℕ → Type 0) (done : List Action) where
  abbrev K : Turn → Type 0
  K t = Kept env J done t

  abbrev H : Turn → Type 0
  H t = Held env J done t

  abbrev pub candidacy : Turn → Turn
  candidacy t = record t {
    status = record t.status {
      role = candidate;
      term = elections_term env t.status;
      vote_for = none;
      vote_bits = write_bit true env.slot no_votes;
      timeout = election_timeout env standing;
    };
  }

  own_bit :
      (j : ℕ)
      → env.slot < max_slots
      → (j == env.slot) ≡ false
      → test_bit j (write_bit true env.slot no_votes) ≡ false
  own_bit j member other =
      test_bit-write_bit true env.slot j no_votes (rw (length-zero_bits max_slots) member)
      ∙ rw other (test_bit-zero_bits max_slots j)

  candidate-Kept :
      (t : Turn)
      → env.slot < max_slots
      → t.status.term + 1 < 2 ^ 64
      → K t
      → K (act (candidacy t) (send_others request_vote (elections_term env t.status)))
  unfolding ballots starts Voted
  candidate-Kept t member fits h =
      let term = elections_term env t.status in
      let rises : t.status.term < term = omega arith in
      subst (Sound env.slot env.votes_needed J (candidacy t).status)
        (append_assoc done t.actions (send_others request_vote term ∷ []))
        (Sound-vote env.slot env.votes_needed J t.status (candidacy t).status (done ++ t.actions)
          (send_others request_vote term) env.slot h (omega arith) (h.future term rises) (λ n. refl)
          refl refl (length-write_bit true env.slot no_votes ∙ length-zero_bits max_slots)
          (λ _ j other set. let off = own_bit j member other in absurd cc))

  regular_fits :
      (b c : Bool) → (n : ℕ) → b ≡ true → (b && (c || leb (2 ^ 64 - 1) n)) ≡ false → n + 1 < 2 ^ 64
  regular_fits b c n e h = ground arith

  regular_msg :
      (b : Bool)
      → (msg : Option Msg) → (c : Bool) → (m : Msg) → b ≡ true
      → (b && (of_msg msg (λ m. is_vote m.type) || c)) ≡ false
      → msg ≡ some m
      → is_vote m.type ≡ false
  regular_msg b msg c m e h f = ground (arith, rw (f, e) at h)

  pub start_election-Held :
      (t : Turn)
      → env.slot < max_slots
      → (stands env t && (of_msg t.msg (λ m. is_vote m.type) || leb (2 ^ 64 - 1) t.status.term))
        ≡ false
      → H t
      → FlowAll H K (start_election env t)
  unfolding start_election
  start_election-Held t member regular h = elim (Bool-cases (stands env t)) [
    | inr waits ↦ rw (waits, start_election) h
    | inl stood ↦ elim (Bool-cases env.was_down) [
      | inr up ↦
          rw (stood, up, start_election)
            (timeout-Held env J done t (election_timeout env waiting) h).0
      | inl down ↦
          rw (stood, down, start_election)
            (update-Held env J done standing term_event (elections_term env t.status)
              (act (candidacy t) (send_others request_vote (elections_term env t.status)))
              (
                candidate-Kept t member
                    (regular_fits (stands env t) (of_msg t.msg (λ m. is_vote m.type)) t.status.term
                      stood regular)
                    h.0,
                λ m e is_v.
                    let off =
                      regular_msg (stands env t) t.msg (leb (2 ^ 64 - 1) t.status.term) m stood
                        regular e in
                    absurd cc,
              ))
    ]
  ]

  same_slot : (i j term : ℕ) → (j == i) ≡ true → J i term → J j term
  same_slot i j term same h = let e : i ≡ j = ground arith in subst (λ k. J k term) e h

  count-Sound :
      (s : Status)
      → (from : ℕ) → (log : List Action) → from < max_slots
      → J from s.term
      → Sound env.slot env.votes_needed J s log
      → Sound env.slot env.votes_needed J
          (record s { vote_bits = write_bit true from s.vote_bits })
          log
  count-Sound s from log member cast h = record {
    current = h.current;
    future = h.future;
    once = h.once;
    size = length-write_bit true from s.vote_bits ∙ h.size;
    votes = λ f j other set.
        let bit = test_bit-write_bit true from j s.vote_bits (rw h.size member) in
        elim (Bool-cases (j == from)) [
          | inl same ↦ same_slot from j s.term same cast
          | inr differs ↦ h.votes f j other (sym (bit ∙ rw differs refl) ∙ set)
        ];
    won = h.won;
  }

  pub count_vote-Held : (t : Turn) → H t → FlowAll H K (count_vote env t)
  unfolding count_vote
  count_vote-Held t h = elim (Option-cases t.msg) [
    | inl no_msg ↦ rw (no_msg, count_vote) h
    | inr (m, e) ↦ elim (Bool-cases (is_candidate t.status.role && is_vote m.type)) [
      | inr other ↦ rw (e, other, count_vote) h
      | inl counts ↦
          let is_v : is_vote m.type ≡ true = ground arith in
          let cast = h.1 m e is_v in
          rw (e, counts, count_vote)
            (count-Sound t.status m.from (done ++ t.actions) cast.1 cast.0 h.0, h.1)
    ]
  ]
