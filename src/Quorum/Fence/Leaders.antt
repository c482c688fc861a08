-- ===== src/Quorum/Fence/Leaders.antt =====
-- The second loop fences each old leader that is not skipped, and never the mount itself.
use scoutfs.Quorum.Fence.{Old, fence_olds, is_skipped}
use scoutfs.Quorum.Blocks.{Mount}
use scoutfs.Prelude.{
  ==_refl, All, Bool, Bool-cases, Errno, List, Option, Option-cases, [], arith, false, inl, inr,
  none, refl, some, subst, true, ℕ, ◌&&◌, ◌++◌, ◌==◌, ◌||◌, ◌∷◌, ◌≡◌, ◌⊎◌,
}

-- The slot and the mount are among those fenced.
abbrev pub has_fence : (s rid : ℕ) → List (ℕ × ℕ) → Bool
has_fence s rid [] = false
has_fence s rid (p ∷ ps) = (p.0 == s && p.1 == rid) || has_fence s rid ps

-- An old leader in a list of them
abbrev pub InOlds : Old → List Old → Type 0
InOlds old [] = ⊥
InOlds old (x ∷ xs) = (x ≡ old) ⊎ InOlds old xs

pub in_first : (old : Old) → (xs ys : List Old) → InOlds old xs → InOlds old (xs ++ ys)
in_first old [] ys h = absurd h
in_first old (x ∷ xs) ys (inl e) = inl e
in_first old (x ∷ xs) ys (inr h) = inr (in_first old xs ys h)

pub in_last : (old : Old) → (xs ys : List Old) → InOlds old ys → InOlds old (xs ++ ys)
in_last old [] ys h = h
in_last old (x ∷ xs) ys h = inr (in_last old xs ys h)

module _ (mount : Mount) (fence_start : ℕ → ℕ → Option Errno) (fenced term : ℕ) where
  pub not_self :
      (olds : List Old)
      → All (λ p. (p.1 == mount.rid) ≡ false) (fence_olds mount fence_start fenced term olds).0
  unfolding fence_olds
  not_self [] = tt
  not_self (old ∷ olds) = elim (Bool-cases (is_skipped mount fenced term old.event)) [
    | inl skipped ↦ rw skipped (not_self olds)
    | inr taken ↦ elim (Option-cases (fence_start old.slot old.event.rid)) [
      | inr (e, fails) ↦ rw (taken, fails) tt
      | inl started ↦ rw (taken, started) (ground arith, not_self olds)
    ]
  ]

  same_fence :
      (old x : Old)
      → (ps : List (ℕ × ℕ)) → x ≡ old
      → has_fence old.slot old.event.rid ((x.slot, x.event.rid) ∷ ps) ≡ true
  same_fence old x ps e = rw (e, ==_refl old.slot, ==_refl old.event.rid) refl

  more_fences :
      (s rid : ℕ)
      → (p : ℕ × ℕ) → (ps : List (ℕ × ℕ)) → has_fence s rid ps ≡ true
      → has_fence s rid (p ∷ ps) ≡ true
  more_fences s rid p ps h = ground arith

  pub olds_fenced :
      (olds : List Old)
      → (fence_olds mount fence_start fenced term olds).1 ≡ none
      → (old : Old) → InOlds old olds
      → is_skipped mount fenced term old.event ≡ false
      → has_fence old.slot old.event.rid (fence_olds mount fence_start fenced term olds).0 ≡ true
  unfolding fence_olds
  olds_fenced [] done old h taken = absurd h
  olds_fenced (x ∷ xs) done old h taken = elim (Bool-cases (is_skipped mount fenced term x.event)) [
    | inl skipped ↦ elim h [
      | inl e ↦
          let clash : is_skipped mount fenced term old.event ≡ true =
            subst (λ (y : Old). is_skipped mount fenced term y.event ≡ true) e skipped in
          absurd cc
      | inr later ↦
          rw (skipped, fence_olds)
            (olds_fenced xs (rw (skipped, fence_olds) at done) old later taken)
    ]
    | inr starts_it ↦ elim (Option-cases (fence_start x.slot x.event.rid)) [
      | inr (e, fails) ↦
          let bad : some e ≡ none = rw (starts_it, fails, fence_olds) at done in absurd cc
      | inl started ↦
          let rest = (fence_olds mount fence_start fenced term xs).0 in
          rw (starts_it, started, fence_olds)
            (elim h [
              | inl e ↦ same_fence old x rest e
              | inr later ↦
                  more_fences old.slot old.event.rid (x.slot, x.event.rid) rest
                    (olds_fenced xs (rw (starts_it, started, fence_olds) at done) old later taken)
            ])
    ]
  ]
