-- ===== src/Quorum/Blocks/Greatest.antt =====
-- What the reads of all slots' blocks find: the greatest term, and the server.
use scoutfs.Quorum.{
  Event, begin_event, elect_event, end_event, fence_event, max_slots, stop_event, term_event,
}
use scoutfs.Quorum.Blocks.{
  Block, Mount, all_events, greatest_event, greatest_from, max, quorum_blkno, read_greatest_term,
  read_quorum_block,
}
use scoutfs.Prelude.{
  All, Bool-cases, List, Result-cases, [], arith, false, if◌then◌else◌, inl, inr, ltb, ok, refl,
  subst, suc, sym, true, zero, ℕ, ◌+◌, ◌<◌, ◌==◌, ◌∙◌, ◌∷◌, ◌≡◌, ◌≤◌, ◌⊎◌,
}

max-bounds : (a b : ℕ) → (a ≤ max a b) × (b ≤ max a b)
unfolding max
max-bounds a b = (ground arith, ground arith)

max-either : (a b : ℕ) → (max a b ≡ a) ⊎ (max a b ≡ b)
unfolding max
max-either a b = elim (Bool-cases (ltb a b)) [
  | inl less ↦ inr (rw less refl)
  | inr more ↦ inl (rw more refl)
]

module _ (mount : Mount) where
  rises : (es : List Event) → (blk : Block) → (term : ℕ) → term ≤ greatest_event mount es blk term
  unfolding greatest_event
  rises [] blk term = omega arith
  rises (e ∷ es) blk term = elim (Bool-cases ((blk.events e).rid == 0)) [
    | inl unused ↦ rw unused (rises es blk term)
    | inr used ↦
        let t = max term (blk.events e).term in
        rw used (omega (arith, (max-bounds term (blk.events e).term).0, rises es blk t))
  ]

  -- An event of some mount has a term of at most `t`.
  abbrev pub Below : Block → ℕ → Event → Type 0
  Below blk t e = ((blk.events e).rid == 0) ≡ false → (blk.events e).term ≤ t

  all_below :
      (es : List Event)
      → (blk : Block) → (term : ℕ) → All (Below blk (greatest_event mount es blk term)) es
  unfolding greatest_event
  all_below [] blk term = tt
  all_below (e ∷ es) blk term = (
    λ used.
        let t = max term (blk.events e).term in
        rw used (omega (arith, (max-bounds term (blk.events e).term).1, rises es blk t)),
    all_below es blk (if (blk.events e).rid == 0 then term else max term (blk.events e).term),
  )

  event_below :
      (blk : Block)
      → (term : ℕ) → (e : Event) → Below blk (greatest_event mount all_events blk term) e
  event_below blk term begin_event = (all_below all_events blk term).0
  event_below blk term term_event = (all_below all_events blk term).1.0
  event_below blk term elect_event = (all_below all_events blk term).1.1.0
  event_below blk term fence_event = (all_below all_events blk term).1.1.1.0
  event_below blk term stop_event = (all_below all_events blk term).1.1.1.1.0
  event_below blk term end_event = (all_below all_events blk term).1.1.1.1.1.0

  -- Some mount wrote an event with the term `t`.
  pub record Written (blk : Block) (t : ℕ) : Type 0 where
    pub event : Event
    pub used : ((blk.events event).rid == 0) ≡ false
    pub term : (blk.events event).term ≡ t

  written :
      (es : List Event)
      → (blk : Block) → (term : ℕ)
      → (greatest_event mount es blk term ≡ term) ⊎ Written blk (greatest_event mount es blk term)
  unfolding greatest_event
  written [] blk term = inl refl
  written (e ∷ es) blk term = elim (Bool-cases ((blk.events e).rid == 0)) [
    | inl unused ↦ rw unused (written es blk term)
    | inr used ↦
        let t = max term (blk.events e).term in
        rw used (elim (written es blk t) [
          | inr w ↦ inr w
          | inl kept ↦ elim (max-either term (blk.events e).term) [
            | inl same ↦ inl (kept ∙ same)
            | inr its ↦ inr (record { event = e; used = used; term = sym (kept ∙ its) })
          ]
        ])
  ]

  -- The block of a slot that is present and can be read
  pub record IsRead (s : ℕ) (blk : Block) : Type 0 where
    pub present : mount.present s ≡ true
    pub reads : read_quorum_block mount (quorum_blkno + s) false ≡ ok blk

  -- The greatest term in the blocks of the slots
  pub record IsGreatestTerm (t : ℕ) : Type 0 where
    pub bounds :
        (s : ℕ) → (blk : Block) → s < max_slots → IsRead s blk → (e : Event) → Below blk t e
    pub attained :
        (t ≡ 0) ⊎ (s : ℕ) × (s < max_slots) × (blk : Block) × IsRead s blk × Written blk t

  from_rises : (left s term : ℕ) → term ≤ greatest_from mount left s term
  unfolding greatest_from
  from_rises zero s term = omega arith
  from_rises (suc left) s term = elim (Bool-cases (mount.present s)) [
    | inr absent ↦ rw absent (from_rises left (s + 1) term)
    | inl here ↦ elim (Result-cases (read_quorum_block mount (quorum_blkno + s) false)) [
      | inr (e, fails) ↦ rw (here, fails) (from_rises left (s + 1) term)
      | inl (blk, reads) ↦
          let t = greatest_event mount all_events blk term in
          rw (here, reads) (omega (arith, rises all_events blk term, from_rises left (s + 1) t))
    ]
  ]

  from_below :
      (left s term j : ℕ)
      → (blk : Block) → (e : Event) → s ≤ j
      → j < s + left
      → IsRead j blk
      → Below blk (greatest_from mount left s term) e
  unfolding greatest_from
  from_below zero s term j blk e low high r used = absurd (omega arith)
  from_below (suc left) s term j blk e low high r used = elim (Bool-cases (s == j)) [
    | inl same ↦
        let k : j ≡ s = ground arith in
        let here : mount.present s ≡ true = rw (sym k) r.present in
        let reads : read_quorum_block mount (quorum_blkno + s) false ≡ ok blk =
          rw (sym k) r.reads in
        let t = greatest_event mount all_events blk term in
        rw (here, reads) (omega (arith, event_below blk term e used, from_rises left (s + 1) t))
    | inr later ↦
        let above : s + 1 ≤ j = ground arith in
        elim (Bool-cases (mount.present s)) [
          | inr absent ↦ rw absent (from_below left (s + 1) term j blk e above (omega arith) r used)
          | inl here ↦ elim (Result-cases (read_quorum_block mount (quorum_blkno + s) false)) [
            | inr (x, fails) ↦
                rw (here, fails) (from_below left (s + 1) term j blk e above (omega arith) r used)
            | inl (other, reads) ↦
                rw (here, reads)
                  (from_below left (s + 1) (greatest_event mount all_events other term) j blk e
                    above (omega arith) r used)
          ]
        ]
  ]

  -- The term that a loop started with, or one that it found
  abbrev FoundTerm : (left s term t : ℕ) → Type 0
  FoundTerm left s term t =
      (t ≡ term) ⊎ (j : ℕ) × (j < s + left) × (blk : Block) × IsRead j blk × Written blk t

  found_later :
      (left s term u t : ℕ)
      → ((u ≡ term) ⊎ (blk : Block) × IsRead s blk × Written blk u)
      → FoundTerm left (s + 1) u t
      → FoundTerm (suc left) s term t
  found_later left s term u t h (inr (j, high, b, r, w)) = inr (j, omega arith, b, r, w)
  found_later left s term u t (inl same) (inl e) = inl (e ∙ same)
  found_later left s term u t (inr (blk, r, w)) (inl e) =
      inr (s, omega arith, blk, r, subst (Written blk) (sym e) w)

  from_found : (left s term : ℕ) → FoundTerm left s term (greatest_from mount left s term)
  unfolding greatest_from
  from_found zero s term = inl refl
  from_found (suc left) s term = elim (Bool-cases (mount.present s)) [
    | inr absent ↦ rw absent (
        found_later left s term term (greatest_from mount left (s + 1) term) (inl refl)
          (from_found left (s + 1) term))
    | inl here ↦ elim (Result-cases (read_quorum_block mount (quorum_blkno + s) false)) [
      | inr (x, fails) ↦
          rw (here, fails)
            (found_later left s term term (greatest_from mount left (s + 1) term) (inl refl)
              (from_found left (s + 1) term))
      | inl (blk, reads) ↦
          let u = greatest_event mount all_events blk term in
          rw (here, reads)
            (found_later left s term u (greatest_from mount left (s + 1) u)
              (elim (written all_events blk term) [
                | inl kept ↦ inl kept
                | inr w ↦ inr (blk, record { present = here; reads = reads }, w)
              ])
              (from_found left (s + 1) u))
    ]
  ]

-- A worker starts from a term that is at least that of each event that some mount has written to a block that can be
-- read, and it is one of these or 0.
pub read_greatest_term-IsGreatestTerm :
    (mount : Mount) → IsGreatestTerm mount (read_greatest_term mount)
unfolding read_greatest_term
read_greatest_term-IsGreatestTerm mount = record {
  bounds = λ s blk inside r e. from_below mount max_slots 0 0 s blk e (omega arith) (omega arith) r;
  attained = elim (from_found mount max_slots 0 0) [
    | inl zero_term ↦ inl zero_term
    | inr (s, inside, blk, r, w) ↦ inr (s, inside, blk, r, w)
  ];
}
