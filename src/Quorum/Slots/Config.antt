-- ===== src/Quorum/Slots/Config.antt =====
-- What the checks of the configured slots ensure.
use scoutfs.Spbm.{test_bit}
use scoutfs.Quorum.Majority.{votes_needed_of}
use scoutfs.Quorum.{weight}
use scoutfs.Quorum.Slots.{
  Ipv4, IsConfig, IsSlot, Slot, check_slots, has_same, members_of, quorum_slot_present,
  same_address, slot_at, valid_ipv4_port, valid_ipv4_unicast, verify_quorum_slots,
}
use scoutfs.Prelude.{
  Bool-cases, List, Result, Result-cases, [], ap, arith, einval, err, false, if◌then◌else◌, inl,
  inr, ltb, not, ok, refl, some, some_inj, subst, suc, sym, true, zero, ℕ, ◌+◌, ◌-◌, ◌/◌, ◌==◌, ◌∙◌,
  ◌∷◌, ◌≡◌,
}

present-members : (ss : List Slot) → (i : ℕ) → quorum_slot_present ss i ≡ test_bit i (members_of ss)
unfolding quorum_slot_present test_bit
present-members [] i = refl
present-members (s ∷ ss) i = ground (arith, present-members ss (i - 1))

counts :
    (ip : Ipv4)
    → (ss : List Slot) → (found n : ℕ) → check_slots ip ss found ≡ ok n
    → n ≡ found + weight (members_of ss)
unfolding check_slots weight
counts ip [] found n e = ground arith
counts ip (s ∷ ss) found n e = ground (arith, counts ip ss found n, counts ip ss (found + 1) n)

passes :
    (ip : Ipv4)
    → (s : Slot) → (ss : List Slot) → (found n : ℕ) → check_slots ip (s ∷ ss) found ≡ ok n
    → s.is_ipv4 ≡ true
    → (valid_ipv4_unicast ip s.addr ≡ true)
      × (valid_ipv4_port s.port ≡ true)
      × (has_same s ss ≡ false)
unfolding check_slots
passes ip s ss found n e here = (ground arith, ground arith, ground arith)

rest_passes :
    (ip : Ipv4)
    → (s : Slot) → (ss : List Slot) → (found n : ℕ) → check_slots ip (s ∷ ss) found ≡ ok n
    → (m : ℕ) × (check_slots ip ss m ≡ ok n)
unfolding check_slots
rest_passes ip s ss found n e = elim (Bool-cases s.is_ipv4) [
  | inl here ↦ (found + 1, ground arith)
  | inr absent ↦ (found, ground arith)
]

slot_at-zero : (s : Slot) → (ss : List Slot) → slot_at 0 (s ∷ ss) ≡ some s
unfolding slot_at
slot_at-zero s ss = refl

slot_at-suc : (i : ℕ) → (s : Slot) → (ss : List Slot) → slot_at (suc i) (s ∷ ss) ≡ slot_at i ss
unfolding slot_at
slot_at-suc i s ss = ground arith

no_same :
    (s t : Slot)
    → (ss : List Slot) → (i : ℕ) → has_same s ss ≡ false
    → IsSlot ss i t
    → same_address s t ≡ false
unfolding has_same slot_at
no_same s t [] i e slot = let h = slot.0 in absurd cc
no_same s t (u ∷ ss) zero e slot =
    let k : u ≡ t = some_inj slot.0 in
    subst (λ v. same_address s v ≡ false) k
      (let here : u.is_ipv4 ≡ true = subst (λ v. v.is_ipv4 ≡ true) (sym k) slot.1 in ground arith)
no_same s t (u ∷ ss) (suc i) e slot =
    no_same s t ss i (ground arith) (sym (slot_at-suc i u ss) ∙ slot.0, slot.1)

module _ (ip : Ipv4) where
  -- A list that the loop passes, from some count
  record IsPassed (ss : List Slot) : Type 0 where
    start : ℕ
    count : ℕ
    passed : check_slots ip ss start ≡ ok count

  tail-IsPassed : (s : Slot) → (ss : List Slot) → IsPassed (s ∷ ss) → IsPassed ss
  tail-IsPassed s ss h =
      let (m, e) = rest_passes ip s ss h.start h.count h.passed in
      record { start = m; count = h.count; passed = e }

  tail_slot : (i : ℕ) → (u s : Slot) → (ss : List Slot) → IsSlot (u ∷ ss) (suc i) s → IsSlot ss i s
  tail_slot i u s ss h = (sym (slot_at-suc i u ss) ∙ h.0, h.1)

  head_slot : (u s : Slot) → (ss : List Slot) → IsSlot (u ∷ ss) 0 s → u ≡ s
  head_slot u s ss h = some_inj (sym (slot_at-zero u ss) ∙ h.0)

  head_passes :
      (u s : Slot)
      → (ss : List Slot) → IsPassed (u ∷ ss)
      → IsSlot (u ∷ ss) 0 s
      → (valid_ipv4_unicast ip s.addr ≡ true)
        × (valid_ipv4_port s.port ≡ true)
        × (has_same s ss ≡ false)
  head_passes u s ss h slot =
      let k = head_slot u s ss slot in
      subst
        (λ v.
          (valid_ipv4_unicast ip v.addr ≡ true)
          × (valid_ipv4_port v.port ≡ true)
          × (has_same v ss ≡ false))
        k (passes ip u ss h.start h.count h.passed (subst (λ v. v.is_ipv4 ≡ true) (sym k) slot.1))

  all_valid :
      (ss : List Slot)
      → IsPassed ss
      → (i : ℕ) → (s : Slot) → IsSlot ss i s
      → (valid_ipv4_unicast ip s.addr ≡ true) × (valid_ipv4_port s.port ≡ true)
  unfolding slot_at
  all_valid [] h i s slot = let e = slot.0 in absurd cc
  all_valid (u ∷ ss) h zero s slot = let (a, b, c) = head_passes u s ss h slot in (a, b)
  all_valid (u ∷ ss) h (suc i) s slot =
      all_valid ss (tail-IsPassed u ss h) i s (tail_slot i u s ss slot)

  swap_address : (s t : Slot) → same_address s t ≡ true → same_address t s ≡ true
  swap_address s t e = ground arith

  all_distinct :
      (ss : List Slot)
      → IsPassed ss
      → (i j : ℕ) → (s t : Slot) → IsSlot ss i s
      → IsSlot ss j t
      → same_address s t ≡ true
      → i ≡ j
  unfolding slot_at
  all_distinct [] h i j s t p q e = let f = p.0 in absurd cc
  all_distinct (u ∷ ss) h zero zero s t p q e = refl
  all_distinct (u ∷ ss) h zero (suc j) s t p q e =
      let (a, b, c) = head_passes u s ss h p in
      let other = no_same s t ss j c (tail_slot j u t ss q) in absurd cc
  all_distinct (u ∷ ss) h (suc i) zero s t p q e =
      let (a, b, c) = head_passes u t ss h q in
      let other = no_same t s ss i c (tail_slot i u s ss p) in
      let swapped = swap_address s t e in absurd cc
  all_distinct (u ∷ ss) h (suc i) (suc j) s t p q e =
      ap (λ n. suc n)
        (all_distinct ss (tail-IsPassed u ss h) i j s t (tail_slot i u s ss p)
          (tail_slot j u t ss q) e)

  count_needed :
      (slots : List Slot)
      → (nr found needed : ℕ)
      → (if found == 0
          then err einval
          else (if not (quorum_slot_present slots nr)
              then err einval
              else (if ltb found 3 then ok 1 else ok (found / 2 + 1))))
        ≡ ok needed
      → (quorum_slot_present slots nr ≡ true)
        × (needed ≡ (if ltb found 3 then 1 else found / 2 + 1))
  count_needed slots nr found needed e = (ground arith, ground arith)

-- What `verify_quorum_slots` makes of the loop's result.
abbrev decided : List Slot → ℕ → Result ℕ → Result ℕ
decided slots nr (err e) = err e
decided slots nr (ok found) =
    if found == 0
    then err einval
    else (if not (quorum_slot_present slots nr)
        then err einval
        else (if ltb found 3 then ok 1 else ok (found / 2 + 1)))

-- A configuration that the checks pass has the mount's own slot, no two slots of one address, and a port in each slot;
-- the votes needed are those of a majority of its slots, or one for one or two slots.
pub verify_quorum_slots-IsConfig :
    (ip : Ipv4)
    → (slots : List Slot) → (nr needed : ℕ) → verify_quorum_slots ip slots nr ≡ ok needed
    → IsConfig ip slots nr needed
unfolding verify_quorum_slots votes_needed_of
verify_quorum_slots-IsConfig ip slots nr needed e = elim (Result-cases (check_slots ip slots 0)) [
  | inr (x, fails) ↦
      let bad : err x ≡ ok needed = subst (λ r. decided slots nr r ≡ ok needed) fails e in absurd cc
  | inl (found, passed) ↦
      let h : IsPassed ip slots = record { start = 0; count = found; passed = passed } in
      let (there, f) =
        count_needed ip slots nr found needed
          (subst (λ r. decided slots nr r ≡ ok needed) passed e) in
      let total : found ≡ weight (members_of slots) =
        omega (arith, counts ip slots 0 found passed) in
      record {
        ours = sym (present-members slots nr) ∙ there;
        majority = f ∙ ap (λ n. if ltb n 3 then 1 else n / 2 + 1) total;
        valid = all_valid ip slots h;
        distinct = all_distinct ip slots h;
      }
]
