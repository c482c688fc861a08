-- ===== src/Srch/Zigzag.antt =====
-- The integer coding of differences: signs, and how many bytes a value takes.
use scoutfs.Srch.{encoded_bytes, fls, fls64, unzigzag, zigzag}
use native.Mathlib.Nat.{pow-succ', pow-suc, pow-le-pow_right}
use scoutfs.Prelude.{
  Bool-cases, ap, arith, inl, inr, refl, suc, sym, zero, ℕ, ◌*◌, ◌-◌, ◌/◌, ◌<◌, ◌==◌, ◌^◌, ◌∙◌, ◌≡◌,
  ◌≤◌,
}

pub unzigzag-zigzag : (val : ℕ) → val < 2 ^ 64 → unzigzag (zigzag val) ≡ val
unfolding unzigzag zigzag
unzigzag-zigzag val h = ground arith

pub zigzag-lt : (val : ℕ) → val < 2 ^ 64 → zigzag val < 2 ^ 64
unfolding zigzag
zigzag-lt val h = ground arith

pub fls-le : (fuel n : ℕ) → fls fuel n ≤ fuel
unfolding fls
fls-le zero n = omega arith
fls-le (suc fuel) n = ground (arith, fls-le fuel (n / 2))

pub lt-fls : (fuel n : ℕ) → n < 2 ^ fuel → n < 2 ^ fls fuel n
unfolding fls
lt-fls zero n h = h
lt-fls (suc fuel) n h = elim (Bool-cases (n == 0)) [
  | inl none_set ↦ rw (none_set, fls) (ground arith)
  | inr some_set ↦ rw (some_set, fls) ground (arith, lt-fls fuel (n / 2) (ground arith))
]

pow_bytes : (n : ℕ) → 2 ^ (8 * n) ≡ 256 ^ n
pow_bytes zero = refl
pow_bytes (suc n) =
    let eight : 8 * suc n ≡ suc (suc (suc (suc (suc (suc (suc (suc (8 * n)))))))) = omega arith in
    rw (eight, pow-suc 256 n, sym (pow_bytes n)) (ground arith)

pub encoded_bytes-le : (val : ℕ) → encoded_bytes val ≤ 8
encoded_bytes-le val = ground (arith, fls-le 64 (zigzag val))

pub encoded_bytes-enough : (val : ℕ) → val < 2 ^ 64 → zigzag val < 256 ^ encoded_bytes val
encoded_bytes-enough val h =
    let bits : zigzag val < 2 ^ fls64 (zigzag val) = lt-fls 64 (zigzag val) (zigzag-lt val h) in
    let grows : 2 ^ fls64 (zigzag val) ≤ 2 ^ (8 * encoded_bytes val) =
      pow-le-pow_right (ground arith) (ground arith) in
    ground (arith, pow_bytes (encoded_bytes val))

pub fls-pos : (fuel n : ℕ) → 0 < n → n < 2 ^ fuel → 0 < fls fuel n
unfolding fls
fls-pos zero n h k = ground arith
fls-pos (suc fuel) n h k = ground arith

fls-zero : (fuel : ℕ) → fls fuel 0 ≡ 0
unfolding fls
fls-zero zero = refl
fls-zero (suc fuel) = refl

pub pow-fls : (fuel n : ℕ) → 0 < n → n < 2 ^ fuel → 2 ^ (fls fuel n - 1) ≤ n
unfolding fls
pow-fls zero n h k = ground arith
pow-fls (suc fuel) n h k = elim (Bool-cases (n == 0)) [
  | inl none_set ↦ absurd (ground arith)
  | inr some_set ↦ elim (Bool-cases (n / 2 == 0)) [
    | inl one ↦
        let half : n / 2 ≡ 0 = ground arith in
        rw (some_set, fls, half) (ground (arith, fls-le fuel 0, fls-zero fuel))
    | inr more ↦
        let low : 2 ^ (fls fuel (n / 2) - 1) ≤ n / 2 =
          pow-fls fuel (n / 2) (ground arith) (ground arith) in
        let step : fls fuel (n / 2) ≡ suc (fls fuel (n / 2) - 1) =
          omega (arith, fls-pos fuel (n / 2) (ground arith) (ground arith)) in
        let doubled : 2 ^ fls fuel (n / 2) ≡ 2 * 2 ^ (fls fuel (n / 2) - 1) =
          ap (λ e. 2 ^ e) step ∙ pow-succ' 2 (fls fuel (n / 2) - 1) in
        rw (some_set, fls) (ground (arith, low, doubled))
  ]
]
