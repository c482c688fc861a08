-- ===== src/Recov/Order.antt =====
-- Lookups on an ordered list.
use scoutfs.Recov.{Pending, Which, count, find_first, is_after, lookup_pending, rid_before}
use scoutfs.Recov.Waiting.{All-lt_trans, Ordered, count_below, is_for, is_waiting}
use scoutfs.Prelude.{
  All, List, Option, [], arith, false, if◌then◌else◌, none, refl, some, true, ℕ, ◌+◌, ◌<◌, ◌==◌,
  ◌^◌, ◌∷◌, ◌≡◌,
}

-- The lookup with its test of the found rid, by recursion on the list.
lookup_from : List Pending → ℕ → ℕ → Which → Option Pending
lookup_from ps before rid which = elim (find_first (is_after before which) ps) [
  | none ↦ none
  | some p ↦ if p.rid == rid then some p else none
]

lookup_above :
    (ps : List Pending) (before rid : ℕ) (which : Which)
    → All (λ q. rid < q.rid) ps
    → lookup_from ps before rid which ≡ none
unfolding lookup_from find_first
lookup_above [] before rid which h = refl
lookup_above (p ∷ ps) before rid which h = ground (arith, lookup_above ps before rid which h.1)

lookup_from-is_waiting :
    (ps : List Pending) (before rid : ℕ) (which : Which)
    → Ordered ps
    → before + 1 ≡ rid
    → elim (lookup_from ps before rid which) [ none ↦ false | some p ↦ true ]
      ≡ is_waiting ps rid which
unfolding lookup_from find_first
lookup_from-is_waiting [] before rid which o e = refl
lookup_from-is_waiting (p ∷ ps) before rid which o e = ground (
  arith,
  lookup_from-is_waiting ps before rid which o.1 e,
  lookup_above ps before rid which,
  count_below rid which ps,
  All-lt_trans rid p.rid ps,
)

-- `lookup_pending` finds an item exactly if the server waits for that client and bit.
pub lookup_pending-is_waiting :
    (ps : List Pending) (rid : ℕ) (which : Which)
    → Ordered ps
    → 0 < rid
    → rid < 2 ^ 64
    → elim (lookup_pending ps rid which) [ none ↦ false | some p ↦ true ] ≡ is_waiting ps rid which
unfolding lookup_pending lookup_from
lookup_pending-is_waiting ps rid which o pos fits =
    let e : rid_before rid + 1 ≡ rid = omega arith in
    lookup_from-is_waiting ps (rid_before rid) rid which o e

-- All that an ordered list holds for a client is in the item that the lookup finds.
count-lookup_from :
    (ps : List Pending) (before rid : ℕ) (which w : Which) (p : Pending)
    → Ordered ps
    → before + 1 ≡ rid
    → lookup_from ps before rid which ≡ some p
    → count (is_for rid w) ps ≡ count (is_for rid w) (p ∷ [])
unfolding lookup_from find_first
count-lookup_from [] before rid which w p o e found = cc
count-lookup_from (q ∷ ps) before rid which w p o e found = ground (
  arith,
  count-lookup_from ps before rid which w p o.1 e,
  lookup_above ps before rid which,
  count_below rid w ps,
  All-lt_trans rid q.rid ps,
)

-- What a lookup finds is what `edit_pending` changes.
pub record Found (ps : List Pending) (rid : ℕ) (which : Which) (p : Pending) : Type 0 where
  pub here : find_first (is_after (rid_before rid) which) ps ≡ some p
  pub rid_eq : p.rid ≡ rid
  pub only : (w : Which) → count (is_for rid w) ps ≡ count (is_for rid w) (p ∷ [])

pub lookup_pending-Found :
    (ps : List Pending) (rid : ℕ) (which : Which) (p : Pending)
    → Ordered ps
    → 0 < rid
    → rid < 2 ^ 64
    → lookup_pending ps rid which ≡ some p
    → Found ps rid which p
unfolding lookup_pending lookup_from
lookup_pending-Found ps rid which p o pos fits e = record {
  here = ground arith;
  rid_eq = ground arith;
  only = λ w. count-lookup_from ps (rid_before rid) rid which w p o (omega arith) e;
}
