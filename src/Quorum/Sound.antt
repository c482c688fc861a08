-- ===== src/Quorum/Sound.antt =====
-- What holds of a slot's status and of what it has done, at every point of a turn.
use scoutfs.Quorum.{
  Action, Role, Status, candidate, follower, is_follower, leader, max_slots, weight,
}
use scoutfs.Quorum.Terms.{ballots, ballots-append, starts, starts-append, stays}
use scoutfs.Spbm.{test_bit}
use scoutfs.Prelude.{
  ==_refl, All, Bool, Bool-cases, List, Option, [], ap, append-nil, arith, false, if◌then◌else◌,
  inl, inr, length, none, refl, some, subst, sym, true, ℕ, ◌++◌, ◌<◌, ◌==◌, ◌∙◌, ◌∷◌, ◌≡◌, ◌≤◌,
}

-- The vote of a slot in the term of its status: its own as a candidate or leader, else the one that it gave, if any.
unfoldable pub Voted : ℕ → Role → Option ℕ → List ℕ → Type 0
Voted slot follower none cs = cs ≡ []
Voted slot follower (some c) cs = cs ≡ c ∷ []
Voted slot candidate for cs = cs ≡ slot ∷ []
Voted slot leader for cs = cs ≡ slot ∷ []

-- A list of at most one vote, and one more vote in one term where there was none.
vote_once :
    (cs : List ℕ)
    → (m t c : ℕ) → length cs ≤ 1
    → ((m == t) ≡ true → cs ≡ [])
    → length (cs ++ (if m == t then c ∷ [] else [])) ≤ 1
vote_once cs m t c h blank = elim (Bool-cases (m == t)) [
  | inl same ↦ rw (same, blank same) (omega arith)
  | inr other ↦ rw (other, append-nil cs) h
]

vote_now : (cs : List ℕ) → (m c : ℕ) → cs ≡ [] → cs ++ (if m == m then c ∷ [] else []) ≡ c ∷ []
vote_now cs m c e = rw (e, ==_refl m) refl

vote_later :
    (cs : List ℕ) → (m t c : ℕ) → m < t → cs ≡ [] → cs ++ (if m == t then c ∷ [] else []) ≡ []
vote_later cs m t c h e = let other : (m == t) ≡ false = ground arith in rw (e, other) refl

-- `J j t`: slot `j` voted for this slot in term `t`.
module _ (slot needed : ℕ) (J : ℕ → ℕ → Type 0) where
  -- Enough votes in a term, with its own.
  pub record Won (done : List Action) (term : ℕ) : Type 0 where
    pub votes : List Bool
    pub size : length votes ≡ max_slots
    pub enough : needed ≤ weight votes
    pub others : (j : ℕ) → (j == slot) ≡ false → test_bit j votes ≡ true → J j term
    pub own : ballots slot term done ≡ slot ∷ []

  pub record Sound (s : Status) (done : List Action) : Type 0 where
    pub current : Voted slot s.role s.vote_for (ballots slot s.term done)
    pub future : (term : ℕ) → s.term < term → ballots slot term done ≡ []
    pub once : (term : ℕ) → length (ballots slot term done) ≤ 1
    pub size : length s.vote_bits ≡ max_slots
    pub votes :
        is_follower s.role ≡ false
        → (j : ℕ) → (j == slot) ≡ false
        → test_bit j s.vote_bits ≡ true
        → J j s.term
    pub won : All (Won done) (starts done)

  -- What is done without a vote or a start leaves it as it was.
  abbrev pub IsQuiet : List Action → Type 0
  IsQuiet more = ((term : ℕ) → ballots slot term more ≡ []) × (starts more ≡ [])

  quiet-ballots :
      (done more : List Action)
      → IsQuiet more
      → (term : ℕ) → ballots slot term (done ++ more) ≡ ballots slot term done
  quiet-ballots done more q term =
      ballots-append slot term done more
      ∙ ap (λ cs. ballots slot term done ++ cs) (q.0 term)
      ∙ append-nil (ballots slot term done)

  quiet-starts : (done more : List Action) → IsQuiet more → starts (done ++ more) ≡ starts done
  quiet-starts done more q =
      starts-append done more ∙ ap (λ ts. starts done ++ ts) q.1 ∙ append-nil (starts done)

  pub Won-more :
      (done more : List Action)
      → ((term : ℕ) → length (ballots slot term (done ++ more)) ≤ 1)
      → (ts : List ℕ) → All (Won done) ts
      → All (Won (done ++ more)) ts
  Won-more done more once [] all = tt
  Won-more done more once (t ∷ ts) all = (
    record {
      votes = all.0.votes;
      size = all.0.size;
      enough = all.0.enough;
      others = all.0.others;
      own =
          ballots-append slot t done more
          ∙ stays slot (ballots slot t done) (ballots slot t more) all.0.own
              (subst (λ cs. length cs ≤ 1) (ballots-append slot t done more) (once t));
    },
    Won-more done more once ts all.1,
  )

  pub Sound-quiet :
      (s : Status)
      → (done more : List Action) → IsQuiet more
      → Sound s done
      → Sound s (done ++ more)
  Sound-quiet s done more q h =
      let same = quiet-ballots done more q in
      let once : (term : ℕ) → length (ballots slot term (done ++ more)) ≤ 1 =
        λ term. rw (same term) (h.once term) in
      record {
        current = rw (same s.term) h.current;
        future = λ term later. same term ∙ h.future term later;
        once = once;
        size = h.size;
        votes = h.votes;
        won = rw (quiet-starts done more q) (Won-more done more once (starts done) h.won);
      }

  -- The timeout, the server's event and term play no part.
  pub Sound-other :
      (s u : Status)
      → (done : List Action) → s.role ≡ u.role
      → s.term ≡ u.term
      → s.vote_for ≡ u.vote_for
      → s.vote_bits ≡ u.vote_bits
      → Sound s done
      → Sound u done
  Sound-other s u done e₁ e₂ e₃ e₄ h = record {
    current = rw (sym e₁, sym e₂, sym e₃) h.current;
    future = rw (sym e₂) h.future;
    once = h.once;
    size = rw (sym e₄) h.size;
    votes = rw (sym e₁, sym e₂, sym e₄) h.votes;
    won = h.won;
  }

  -- A vote or a request in a term without one.
  pub Sound-vote :
      (s u : Status)
      → (done : List Action) → (a : Action) → (c : ℕ) → Sound s done
      → s.term ≤ u.term
      → ballots slot u.term done ≡ []
      → ((term : ℕ) → ballots slot term (a ∷ []) ≡ (if u.term == term then c ∷ [] else []))
      → starts (a ∷ []) ≡ []
      → Voted slot u.role u.vote_for (c ∷ [])
      → length u.vote_bits ≡ max_slots
      → (is_follower u.role ≡ false
          → (j : ℕ) → (j == slot) ≡ false
          → test_bit j u.vote_bits ≡ true
          → J j u.term)
      → Sound u (done ++ a ∷ [])
  Sound-vote s u done a c h rises blank now no_start voted size votes =
      let split : (term : ℕ)
          → ballots slot term (done ++ a ∷ [])
            ≡ ballots slot term done ++ (if u.term == term then c ∷ [] else []) =
        λ term.
          ballots-append slot term done (a ∷ [])
          ∙ ap (λ cs. ballots slot term done ++ cs) (now term) in
      let once : (term : ℕ) → length (ballots slot term (done ++ a ∷ [])) ≤ 1 =
        λ term. once_more term (split term) in
      record {
        current =
            subst (Voted slot u.role u.vote_for) (sym (split u.term ∙ blank_then u.term blank))
              voted;
        future = λ term later. split term ∙ later_blank term later (h.future term (omega arith));
        once = once;
        size = size;
        votes = votes;
        won =
            rw
              (starts-append done (a ∷ [])
                ∙ ap (λ ts. starts done ++ ts) no_start
                ∙ append-nil (starts done))
              (Won-more done (a ∷ []) once (starts done) h.won);
      }
    where
      here : (term : ℕ) → (u.term == term) ≡ true → u.term ≡ term
      here term same = ground arith

      once_more :
          (term : ℕ)
          → ballots slot term (done ++ a ∷ [])
            ≡ ballots slot term done ++ (if u.term == term then c ∷ [] else [])
          → length (ballots slot term (done ++ a ∷ [])) ≤ 1
      once_more term e = rw e (
          vote_once (ballots slot term done) u.term term c (h.once term)
            (λ same. subst (λ t. ballots slot t done ≡ []) (here term same) blank))

      blank_then :
          (term : ℕ)
          → ballots slot u.term done ≡ []
          → ballots slot u.term done ++ (if u.term == u.term then c ∷ [] else []) ≡ c ∷ []
      blank_then term e = vote_now (ballots slot u.term done) u.term c e

      later_blank :
          (term : ℕ)
          → u.term < term
          → ballots slot term done ≡ []
          → ballots slot term done ++ (if u.term == term then c ∷ [] else []) ≡ []
      later_blank term later e = vote_later (ballots slot term done) u.term term c later e
