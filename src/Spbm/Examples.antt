-- ===== src/Spbm/Examples.antt =====
-- Tests and concrete instances for sparse bitmaps.
use scoutfs.Spbm.{
  Spbm, bitmap_empty, clear_at, find_alloc, spbm_clear, spbm_init, spbm_set, spbm_test, write_bit,
  zero_bits,
}
use scoutfs.Spbm.Nodes.{IsSpbm}
use scoutfs.Spbm.Sets.{AddsOrFails, spbm_clear-removes, spbm_set-Adds}
use scoutfs.Prelude.{[], not, ok, refl, true, ℕ, ◌&&◌, ◌==◌, ◌∷◌, ◌≡◌}

-- The number 300 alone: bit 44 of the node with index 2.
abbrev just_300 : Spbm
just_300 = record { index = 2; bits = write_bit true 44 (zero_bits 128) } ∷ []

just_300-IsSpbm : IsSpbm just_300
unfolding IsSpbm write_bit zero_bits bitmap_empty
just_300-IsSpbm = (refl, refl, tt, tt)

sets_300 : spbm_set true 300 spbm_init ≡ ok just_300
unfolding spbm_set find_alloc
sets_300 = refl

clears_300 : spbm_clear 300 just_300 ≡ spbm_init
unfolding spbm_clear clear_at write_bit zero_bits bitmap_empty
clears_300 = refl

spbm_set-Adds_example : AddsOrFails true 7 just_300 (spbm_set true 7 just_300)
spbm_set-Adds_example = spbm_set-Adds true 7 just_300 just_300-IsSpbm

spbm_clear-removes_example :
    IsSpbm (spbm_clear 300 just_300)
    × ((b : ℕ) → spbm_test b (spbm_clear 300 just_300) ≡ (not (b == 300) && spbm_test b just_300))
spbm_clear-removes_example = spbm_clear-removes 300 just_300 just_300-IsSpbm
