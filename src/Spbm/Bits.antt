-- ===== src/Spbm/Bits.antt =====
-- The bits of one node.
use scoutfs.Spbm.{bitmap_empty, test_bit, write_bit, zero_bits}
use scoutfs.Prelude.{
  Bool, List, [], arith, false, if◌then◌else◌, length, refl, suc, true, zero, ℕ, ◌-◌, ◌<◌, ◌==◌,
  ◌∷◌, ◌≡◌,
}

pub test_bit-write_bit :
    (v : Bool)
    → (nr i : ℕ) → (bs : List Bool) → nr < length bs
    → test_bit i (write_bit v nr bs) ≡ (if i == nr then v else test_bit i bs)
unfolding test_bit write_bit
test_bit-write_bit v nr i [] h = absurd (omega (arith, h))
test_bit-write_bit v nr i (b ∷ bs) h = ground (arith, test_bit-write_bit v (nr - 1) (i - 1) bs)

pub length-write_bit :
    (v : Bool) → (nr : ℕ) → (bs : List Bool) → length (write_bit v nr bs) ≡ length bs
unfolding write_bit
length-write_bit v nr [] = refl
length-write_bit v nr (b ∷ bs) = ground (arith, length-write_bit v (nr - 1) bs)

pub length-zero_bits : (n : ℕ) → length (zero_bits n) ≡ n
unfolding zero_bits
length-zero_bits zero = refl
length-zero_bits (suc n) = ground (arith, length-zero_bits n)

pub test_bit-zero_bits : (n i : ℕ) → test_bit i (zero_bits n) ≡ false
unfolding zero_bits test_bit
test_bit-zero_bits zero i = refl
test_bit-zero_bits (suc n) i = ground (arith, test_bit-zero_bits n (i - 1))

pub bitmap_empty-test_bit :
    (bs : List Bool) → (i : ℕ) → bitmap_empty bs ≡ true → test_bit i bs ≡ false
unfolding bitmap_empty test_bit
bitmap_empty-test_bit [] i e = refl
bitmap_empty-test_bit (b ∷ bs) i e = ground (arith, bitmap_empty-test_bit bs (i - 1))

pub bitmap_empty-bit : (bs : List Bool) → (i : ℕ) → test_bit i bs ≡ true → bitmap_empty bs ≡ false
bitmap_empty-bit bs i t = ground (arith, bitmap_empty-test_bit bs i)

-- A bitmap that is not empty has a bit.
pub some_bit :
    (bs : List Bool) → bitmap_empty bs ≡ false → (i : ℕ) × (i < length bs) × (test_bit i bs ≡ true)
unfolding bitmap_empty test_bit
some_bit [] e = absurd cc
some_bit (true ∷ bs) e = (0, omega arith, refl)
some_bit (false ∷ bs) e =
    let (i, h, t) = some_bit bs e in (suc i, omega (arith, h), ground (arith, t))
