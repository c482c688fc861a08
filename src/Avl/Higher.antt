-- ===== src/Avl/Higher.antt =====
-- The taller of two heights, and the heights around a rotation.
use scoutfs.Prelude.{Bool-cases, arith, if◌then◌else◌, inl, inr, leb, ltb, ℕ, ◌+◌, ◌<◌, ◌≡◌, ◌≤◌}

unfoldable pub higher : ℕ → ℕ → ℕ
higher a b = if ltb a b then b else a

pub higher-right : (a b : ℕ) → a ≤ b → higher a b ≡ b
unfolding higher
higher-right a b h = ground arith

pub higher_comm : (a b : ℕ) → higher a b ≡ higher b a
unfolding higher
higher_comm a b = ground arith

pub higher-left : (a b : ℕ) → b ≤ a → higher a b ≡ a
unfolding higher
higher-left a b h = ground arith

pub once :
    (nl nd nc k : ℕ)
    → k ≡ 1 + higher nd nc
    → k ≡ nl + 2
    → nd ≤ nc
    → nc ≤ nd + 1
    → (nc ≡ nl + 1) × (nl ≤ nd) × (higher nl nd ≡ nd)
once nl nd nc k e h lean near =
    let c : nc ≡ nl + 1 = omega (arith, higher-right nd nc lean) in
    (c, omega arith, higher-right nl nd (omega arith))

pub twice :
    (nl na nb nc j k : ℕ)
    → j ≡ 1 + higher na nb
    → k ≡ 1 + higher j nc
    → k ≡ nl + 2
    → nc < j
    → j ≤ nc + 1
    → na ≤ nb + 1
    → nb ≤ na + 1
    → (nc ≡ nl)
      × (j ≡ nl + 1)
      × (higher nl na ≡ nl)
      × (higher nb nc ≡ nc)
      × (na ≤ nl)
      × (nl ≤ na + 1)
      × (nb ≤ nl)
      × (nl ≤ nb + 1)
twice nl na nb nc j k e f h lean near a_near b_near =
    let tj : higher j nc ≡ j = higher-left j nc (omega arith) in
    let jl : j ≡ nl + 1 = omega (arith, tj) in
    let bounds : (na ≤ nl) × (nl ≤ na + 1) × (nb ≤ nl) × (nl ≤ nb + 1) =
      elim (Bool-cases (leb na nb)) [
        | inl le ↦
            let m : na ≤ nb = ground arith in
            let t = higher-right na nb m in
            (omega (arith, t), omega (arith, t), omega (arith, t), omega (arith, t))
        | inr gt ↦
            let m : nb ≤ na = ground arith in
            let t = higher-left na nb m in
            (omega (arith, t), omega (arith, t), omega (arith, t), omega (arith, t))
      ] in
    (
      omega (arith, tj),
      jl,
      higher-left nl na bounds.0,
      higher-right nb nc (omega (arith, tj, bounds.2)),
      bounds.0,
      bounds.1,
      bounds.2,
      bounds.3,
    )
