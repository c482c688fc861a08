-- ===== src/Recov/Edit.antt =====
-- What a change of one item does to the counts and to the order of the list.
use scoutfs.Recov.{Pending, count, edit_first, find_first}
use scoutfs.Recov.Waiting.{All-lt_trans, IsItem, IsRecov, Ordered}
use scoutfs.Prelude.{
  All, All-append, Bool, Bool-cases, List, [], arith, inl, inr, some, ℕ, ◌++◌, ◌+◌, ◌<◌, ◌∷◌, ◌≡◌,
  ◌⊎◌,
}

pub count-append :
    (test : Pending → Bool) (ps qs : List Pending)
    → count test (ps ++ qs) ≡ count test ps + count test qs
count-append test [] qs = omega arith
count-append test (p ∷ ps) qs = omega (arith, count-append test ps qs)

pub count-edit_first :
    (test t : Pending → Bool) (f : Pending → List Pending) (ps : List Pending) (p : Pending)
    → find_first t ps ≡ some p
    → count test (edit_first t f ps) + count test (p ∷ []) ≡ count test ps + count test (f p)
unfolding find_first edit_first
count-edit_first test t f [] p e = cc
count-edit_first test t f (q ∷ ps) p e =
    ground (arith, count-edit_first test t f ps p, count-append test (f q) ps)

-- `f` keeps an item with its rid, or drops it, and makes no bad item of a good one.
pub record Keeps (f : Pending → List Pending) : Type 0 where
  pub one : (p : Pending) → (f p ≡ []) ⊎ ((q : Pending) × (f p ≡ q ∷ []) × (q.rid ≡ p.rid))
  pub good : (p : Pending) → IsItem p → All IsItem (f p)

module _ (t : Pending → Bool) (f : Pending → List Pending) (keep : Keeps f) where
  All-lt-edit :
      (n : ℕ) (ps : List Pending)
      → All (λ q. n < q.rid) ps
      → All (λ q. n < q.rid) (edit_first t f ps)
  unfolding edit_first
  All-lt-edit n [] h = tt
  All-lt-edit n (p ∷ ps) h = ground (arith, All-lt-edit n ps h.1, keep.one p)

  Ordered-edit : (ps : List Pending) → Ordered ps → Ordered (edit_first t f ps)
  unfolding edit_first
  Ordered-edit [] o = tt
  Ordered-edit (p ∷ ps) o = elim (Bool-cases (t p)) [
    | inl hit ↦ elim (keep.one p) [
      | inl gone ↦ rw (hit, edit_first, gone) o.1
      | inr (q, kept, same) ↦
          rw (hit, edit_first, kept) (All-lt_trans q.rid p.rid ps (omega arith) o.0, o.1)
    ]
    | inr miss ↦ rw (miss, edit_first) (All-lt-edit p.rid ps o.0, Ordered-edit ps o.1)
  ]

  All-IsItem-edit : (ps : List Pending) → All IsItem ps → All IsItem (edit_first t f ps)
  unfolding edit_first
  All-IsItem-edit [] h = tt
  All-IsItem-edit (p ∷ ps) h = elim (Bool-cases (t p)) [
    | inl hit ↦ rw (hit, edit_first) (All-append IsItem (f p) ps (keep.good p h.0) h.1)
    | inr miss ↦ rw (miss, edit_first) (h.0, All-IsItem-edit ps h.1)
  ]

  pub edit_first-IsRecov : (ps : List Pending) → IsRecov ps → IsRecov (edit_first t f ps)
  edit_first-IsRecov ps r = record {
    ordered = Ordered-edit ps r.ordered;
    items = All-IsItem-edit ps r.items;
  }
