-- ===== src/Recov/Next.antt =====
-- `scoutfs_recov_next_pending` and `scoutfs_recov_is_pending`.
use scoutfs.Recov.Order.{lookup_pending-is_waiting}
use scoutfs.Recov.{
  Pending, Recov, Which, find_first, is_after, is_pending, next_pending, recov_next_pending,
}
use scoutfs.Recov.Waiting.{All-lt_trans, IsRecov, Ordered, count_below, is_waiting}
use scoutfs.Prelude.{
  Bool-cases, List, Option, Option-cases, [], arith, false, inl, inr, none, refl, some, subst, true,
  ℕ, ◌<◌, ◌^◌, ◌∷◌, ◌≡◌, ◌⊎◌,
}

abbrev NextOf : List Pending → ℕ → Which → Option Pending → Type 0
NextOf ps rid which none = (r : ℕ) → rid < r → is_waiting ps r which ≡ false
NextOf ps rid which (some p) =
    (rid < p.rid)
    × (is_waiting ps p.rid which ≡ true)
    × ((r : ℕ) → rid < r → r < p.rid → is_waiting ps r which ≡ false)

-- An item that the walk passes by, in front of the others.
NextOf-cons :
    (p : Pending) (ps : List Pending) (rid : ℕ) (which : Which) (o : Option Pending)
    → Ordered (p ∷ ps)
    → is_after rid which p ≡ false
    → NextOf ps rid which o
    → NextOf (p ∷ ps) rid which o
NextOf-cons p ps rid which none ord miss h = λ r lt. ground (arith, h r lt)
NextOf-cons p ps rid which (some q) ord miss h =
    (h.0, ground (arith, h.1), λ r lt lt'. ground (arith, h.2 r lt lt'))

find_first-NextOf :
    (ps : List Pending) (rid : ℕ) (which : Which)
    → Ordered ps
    → NextOf ps rid which (find_first (is_after rid which) ps)
unfolding find_first
find_first-NextOf [] rid which o = λ r lt. refl
find_first-NextOf (p ∷ ps) rid which o = elim (Bool-cases (is_after rid which p)) [
  | inl hit ↦
      rw (hit, find_first)
        (
          ground arith,
          ground arith,
          λ r lt lt'. ground (arith, count_below r which ps, All-lt_trans r p.rid ps),
        )
  | inr miss ↦
      rw (miss, find_first)
        (NextOf-cons p ps rid which (find_first (is_after rid which) ps) o miss
          (find_first-NextOf ps rid which o.1))
]

-- Starting from `rid`, the result is the least client above it for which the server waits, or 0 if there is none.
-- Holds of a list of well-formed items in order.
pub recov_next_pending-least :
    (r : Recov) (rid : ℕ) (which : Which)
    → IsRecov r.pending
    → let n = recov_next_pending rid which r in
      ((n ≡ 0) × ((k : ℕ) → rid < k → is_waiting r.pending k which ≡ false))
      ⊎ ((rid < n)
          × (is_waiting r.pending n which ≡ true)
          × ((k : ℕ) → rid < k → k < n → is_waiting r.pending k which ≡ false))
unfolding recov_next_pending
recov_next_pending-least r rid which v = elim (Option-cases (next_pending r.pending rid which)) [
  | inl e ↦
      rw (e, recov_next_pending)
        (inl (
          refl,
          subst (NextOf r.pending rid which) e (find_first-NextOf r.pending rid which v.ordered),
        ))
  | inr (p, e) ↦
      rw (e, recov_next_pending)
        (inr
          (subst (NextOf r.pending rid which) e (find_first-NextOf r.pending rid which v.ordered)))
]

-- `is_pending` answers whether the server waits. Holds of a list in order, and a rid that is a nonzero u64.
pub is_pending-is_waiting :
    (r : Recov) (rid : ℕ) (which : Which)
    → IsRecov r.pending
    → 0 < rid
    → rid < 2 ^ 64
    → is_pending rid which r ≡ is_waiting r.pending rid which
unfolding is_pending
is_pending-is_waiting r rid which v pos fits =
    lookup_pending-is_waiting r.pending rid which v.ordered pos fits
