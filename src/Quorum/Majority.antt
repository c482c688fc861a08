-- ===== src/Quorum/Majority.antt =====
-- Two majorities of the slots share one.
use scoutfs.Quorum.{weight}
use scoutfs.Spbm.{test_bit}
use scoutfs.Prelude.{
  Bool, List, [], arith, false, if◌then◌else◌, length, ltb, refl, suc, sym, true, ℕ, ◌+◌, ◌/◌, ◌<◌,
  ◌==◌, ◌∙◌, ◌∷◌, ◌≡◌,
}

-- The votes needed of a configuration with the slots `members`, as `verify_quorum_slots` sets them.
unfoldable pub votes_needed_of : List Bool → ℕ
votes_needed_of members = if ltb (weight members) 3 then 1 else weight members / 2 + 1

-- Each bit of the first is one of the second.
abbrev pub Within : List Bool → List Bool → Type 0
Within bs ms = (j : ℕ) → test_bit j bs ≡ true → test_bit j ms ≡ true

test_bit-suc : (j : ℕ) → (b : Bool) → (bs : List Bool) → test_bit (suc j) (b ∷ bs) ≡ test_bit j bs
unfolding test_bit
test_bit-suc j b bs = ground arith

Within-tail : (b m : Bool) → (bs ms : List Bool) → Within (b ∷ bs) (m ∷ ms) → Within bs ms
Within-tail b m bs ms h j t = sym (test_bit-suc j m ms) ∙ h (suc j) (test_bit-suc j b bs ∙ t)

pub record Common (xs ys : List Bool) : Type 0 where
  pub at : ℕ
  pub first : test_bit at xs ≡ true
  pub second : test_bit at ys ≡ true

later_bit : (x y : Bool) → (xs ys : List Bool) → Common xs ys → Common (x ∷ xs) (y ∷ ys)
later_bit x y xs ys c = record {
  at = suc c.at;
  first = test_bit-suc c.at x xs ∙ c.first;
  second = test_bit-suc c.at y ys ∙ c.second;
}

pub shared_bit :
    (xs ys ms : List Bool)
    → length xs ≡ length ms
    → length ys ≡ length ms
    → Within xs ms
    → Within ys ms
    → weight ms < weight xs + weight ys
    → Common xs ys
unfolding weight test_bit
shared_bit [] [] [] e f p q h = absurd (omega arith)
shared_bit [] (y ∷ ys) [] e f p q h = absurd (omega arith)
shared_bit (x ∷ xs) ys [] e f p q h = absurd (omega arith)
shared_bit [] ys (m ∷ ms) e f p q h = absurd (omega arith)
shared_bit (x ∷ xs) [] (m ∷ ms) e f p q h = absurd (omega arith)
shared_bit (true ∷ xs) (true ∷ ys) (m ∷ ms) e f p q h = record {
  at = 0;
  first = refl;
  second = refl;
}
shared_bit (true ∷ xs) (false ∷ ys) (m ∷ ms) e f p q h =
    let there : m ≡ true = p 0 refl in
    later_bit true false xs ys (
      shared_bit xs ys ms (omega arith) (omega arith) (Within-tail true m xs ms p)
        (Within-tail false m ys ms q) (ground arith))
shared_bit (false ∷ xs) (true ∷ ys) (m ∷ ms) e f p q h =
    let there : m ≡ true = q 0 refl in
    later_bit false true xs ys (
      shared_bit xs ys ms (omega arith) (omega arith) (Within-tail false m xs ms p)
        (Within-tail true m ys ms q) (ground arith))
shared_bit (false ∷ xs) (false ∷ ys) (m ∷ ms) e f p q h = later_bit false false xs ys (
    shared_bit xs ys ms (omega arith) (omega arith) (Within-tail false m xs ms p)
      (Within-tail false m ys ms q) (ground arith))

pub votes_needed-majority :
    (members : List Bool)
    → (weight members == 2) ≡ false
    → weight members < votes_needed_of members + votes_needed_of members
unfolding votes_needed_of
votes_needed-majority members other = ground arith
