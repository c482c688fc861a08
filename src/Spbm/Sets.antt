-- ===== src/Spbm/Sets.antt =====
-- A sparse bitmap as a set of u64 numbers.
use scoutfs.Spbm.{Spbm, find_alloc, find_node, spbm_clear, spbm_empty, spbm_set, spbm_test}
use scoutfs.Spbm.Nodes.{IsSpbm, SetsBit, clear_at-BitClear, find_alloc-SetsBit}
use scoutfs.Spbm.Bits.{some_bit}
use scoutfs.Prelude.{
  Bool, Result, [], arith, enomem, err, false, not, ok, refl, true, ℕ, ◌%◌, ◌&&◌, ◌*◌, ◌+◌, ◌/◌,
  ◌==◌, ◌||◌, ◌↔◌, ◌∷◌, ◌≡◌,
}

pub record Adds (bit : ℕ) (s u : Spbm) : Type 0 where
  is : IsSpbm u
  tests : (b : ℕ) → spbm_test b u ≡ (b == bit || spbm_test b s)

unfoldable pub AddsOrFails : (allocates : Bool) (bit : ℕ) (s : Spbm) → Result Spbm → Type 0
AddsOrFails allocates bit s (err e) = (e ≡ enomem) × (allocates ≡ false)
AddsOrFails allocates bit s (ok u) = Adds bit s u

adds :
    (allocates : Bool)
    → (bit : ℕ) → (s : Spbm) → (r : Result Spbm) → SetsBit allocates (bit / 128) (bit % 128) s r
    → AddsOrFails allocates bit s r
unfolding SetsBit AddsOrFails spbm_test
adds allocates bit s (err e) h = h
adds allocates bit s (ok u) h = record {
  is = h.is;
  tests = λ b. ground (arith, h.bits (b / 128) (b % 128));
}

-- Setting a bit of a well-formed bitmap adds exactly that bit and keeps it well formed, or fails with ENOMEM if an
-- allocation fails.
pub spbm_set-Adds :
    (allocates : Bool)
    → (bit : ℕ) → (s : Spbm) → IsSpbm s
    → AddsOrFails allocates bit s (spbm_set allocates bit s)
unfolding spbm_set
spbm_set-Adds allocates bit s v =
    adds allocates bit s (find_alloc allocates (bit / 128) (bit % 128) s)
      (find_alloc-SetsBit allocates (bit / 128) (bit % 128) s (omega arith) v)

-- Clearing a bit of a well-formed bitmap removes exactly that bit and keeps it well formed, without a node for bits
-- that are all clear.
pub spbm_clear-removes :
    (bit : ℕ)
    → (s : Spbm) → IsSpbm s
    → IsSpbm (spbm_clear bit s)
      × ((b : ℕ) → spbm_test b (spbm_clear bit s) ≡ (not (b == bit) && spbm_test b s))
unfolding spbm_clear spbm_test
spbm_clear-removes bit s v =
    let r = clear_at-BitClear (bit / 128) (bit % 128) s (omega arith) v in
    (r.is, λ b. ground (arith, r.bits (b / 128) (b % 128)))

-- A well-formed bitmap is empty exactly if it holds no number.
pub spbm_empty_iff :
    (s : Spbm) → IsSpbm s → (spbm_empty s ≡ true) ↔ ((b : ℕ) → spbm_test b s ≡ false)
unfolding spbm_test IsSpbm find_node
spbm_empty_iff [] v = (λ e b. refl, λ h. refl)
spbm_empty_iff (n ∷ ns) v = (
  λ e. absurd cc,
  λ h.
      let (nr, lt, has) = some_bit n.bits v.1 in
      let index : (n.index * 128 + nr) / 128 ≡ n.index = ground arith in
      let number : (n.index * 128 + nr) % 128 ≡ nr = ground arith in
      absurd (ground (arith, has, h (n.index * 128 + nr), index, number)),
)
