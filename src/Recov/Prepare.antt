-- ===== src/Recov/Prepare.antt =====
-- `scoutfs_recov_prepare`.
use scoutfs.Recov.Order.{Found, lookup_pending-Found, lookup_pending-is_waiting}
use scoutfs.Recov.Edit.{Keeps, count-append, count-edit_first, edit_first-IsRecov}
use scoutfs.Recov.{
  ListSort, Pending, Recov, Sorted, Which, count, edit_pending, is_after, lookup_pending, meets,
  nonzero, prepare, recov_all, rid_before, union,
}
use scoutfs.Recov.Waiting.{All-lt_trans, IsItem, IsRecov, Ordered, is_for, is_waiting}
use scoutfs.Prelude.{
  All, Bool, List, Option-cases, [], arith, false, inl, inr, ltb, not, ok, refl, true, ℕ, ◌&&◌,
  ◌++◌, ◌+◌, ◌<◌, ◌==◌, ◌^◌, ◌||◌, ◌∙◌, ◌∷◌, ◌≡◌, ◌≤◌,
}

abbrev is_rid : ℕ → Pending → Bool
is_rid rid p = p.rid == rid

count_rid-below :
    (rid : ℕ) (ps : List Pending) → All (λ q. rid < q.rid) ps → count (is_rid rid) ps ≡ 0
count_rid-below rid [] h = refl
count_rid-below rid (p ∷ ps) h = ground (arith, count_rid-below rid ps h.1)

-- A client has at most one item.
count_rid-le : (rid : ℕ) (ps : List Pending) → Ordered ps → count (is_rid rid) ps ≤ 1
count_rid-le rid [] o = omega arith
count_rid-le rid (p ∷ ps) o =
    ground (arith, count_rid-le rid ps o.1, count_rid-below rid ps, All-lt_trans rid p.rid ps)

count_rid-All :
    (rid : ℕ) (ps : List Pending)
    → All IsItem ps
    → count (is_for rid recov_all) ps ≡ count (is_rid rid) ps
count_rid-All rid [] h = refl
count_rid-All rid (p ∷ ps) h = ground (arith, count_rid-All rid ps h.1)

-- Back from counts, which the sort keeps, to the order and the items.
All-lt_of_le :
    (n : ℕ) (ps : List Pending)
    → All (λ q. n ≤ q.rid) ps
    → count (is_rid n) ps ≡ 0
    → All (λ q. n < q.rid) ps
All-lt_of_le n [] h c = tt
All-lt_of_le n (p ∷ ps) h c = ground (arith, All-lt_of_le n ps h.1)

count_tail-le :
    (p : Pending) (ps : List Pending)
    → ((rid : ℕ) → count (is_rid rid) (p ∷ ps) ≤ 1)
    → (rid : ℕ) → count (is_rid rid) ps ≤ 1
count_tail-le p ps h rid = omega (arith, h rid)

Sorted-Ordered :
    (ps : List Pending) → Sorted ps → ((rid : ℕ) → count (is_rid rid) ps ≤ 1) → Ordered ps
Sorted-Ordered [] s h = tt
Sorted-Ordered (p ∷ ps) s h = (
  All-lt_of_le p.rid ps s.0 (ground (arith, h p.rid)),
  Sorted-Ordered ps s.1 (count_tail-le p ps h),
)

abbrev is_bad : Pending → Bool
is_bad p = not (ltb p.rid (2 ^ 64)) || p.rid == 0 || not (nonzero p.which) || p.which.invalid

IsItem-count : (ps : List Pending) → All IsItem ps → count is_bad ps ≡ 0
IsItem-count [] h = refl
IsItem-count (p ∷ ps) h = ground (arith, IsItem-count ps h.1)

count-IsItem : (ps : List Pending) → count is_bad ps ≡ 0 → All IsItem ps
count-IsItem [] c = tt
count-IsItem (p ∷ ps) c = ground (arith, count-IsItem ps)

union_item-Keeps :
    (which : Which)
    → which.invalid ≡ false
    → Keeps (λ q. record q { which = union q.which which } ∷ [])
union_item-Keeps which h = record {
  one = λ p. inr (record p { which = union p.which which }, refl, refl);
  good = λ p v. ground arith;
}

module _ (s : ListSort) (ps : List Pending) (rid : ℕ) (which : Which) (v : IsRecov ps) where
  abbrev item : Pending
  item = record { rid = rid; which = which }

  abbrev sorted : List Pending
  sorted = s.sort (ps ++ item ∷ [])

  sorted-count :
      (test : Pending → Bool) → count test sorted ≡ count test ps + count test (item ∷ [])
  sorted-count test = s.sort-count test (ps ++ item ∷ []) ∙ count-append test ps (item ∷ [])

  inserted-IsRecov : count (is_rid rid) ps ≡ 0 → IsItem item → IsRecov sorted
  inserted-IsRecov absent good = record {
    ordered =
        Sorted-Ordered sorted (s.sort-Sorted (ps ++ item ∷ []))
          (λ k. ground (arith, sorted-count (is_rid k), count_rid-le k ps v.ordered));
    items = count-IsItem sorted (ground (arith, sorted-count is_bad, IsItem-count ps v.items));
  }

nonempty_item-absent :
    (ps : List Pending) (rid : ℕ)
    → IsRecov ps
    → is_waiting ps rid recov_all ≡ false
    → count (is_rid rid) ps ≡ 0
nonempty_item-absent ps rid v h = ground (arith, count_rid-All rid ps v.items)

-- The item that `lookup_pending` finds gets the new bits.
united-is_waiting :
    (ps : List Pending) (rid : ℕ) (which : Which) (rid' : ℕ) (w : Which) (p : Pending)
    → Found ps rid recov_all p
    → is_waiting
        (edit_pending ps rid recov_all (λ q. record q { which = union q.which which } ∷ []))
        rid'
        w
      ≡ (rid == rid' && meets which w || is_waiting ps rid' w)
united-is_waiting ps rid which rid' w p f = ground (
  arith,
  count-edit_first (is_for rid' w) (is_after (rid_before rid) recov_all)
      (λ q. record q { which = union q.which which } ∷ []) ps p f.here,
  f.only w,
)

-- Preparing `which` for a client adds those bits to what the server waits for, and touches no other client.
-- Holds when memory is given, `which` is a nonzero set of valid bits, the list holds well-formed items in
-- order, and the rid is a nonzero u64; the list stays so. The kernel's sort is a parameter.
pub prepare-is_waiting :
    (s : ListSort) (r : Recov) (rid : ℕ) (which : Which) (rid' : ℕ) (w : Which)
    → IsRecov r.pending
    → 0 < rid
    → rid < 2 ^ 64
    → nonzero which ≡ true
    → which.invalid ≡ false
    → (r' : Recov) × (prepare s true rid which r ≡ ok r')
      × IsRecov r'.pending
      × (is_waiting r'.pending rid' w
          ≡ (rid == rid' && meets which w || is_waiting r.pending rid' w))
unfolding prepare
prepare-is_waiting s r rid which rid' w v pos fits some_bit valid =
    elim (Option-cases (lookup_pending r.pending rid recov_all)) [
      | inl e ↦ (
        record r { pending = sorted s r.pending rid which v },
        rw (e, valid, prepare),
        inserted-IsRecov s r.pending rid which v
            (nonempty_item-absent r.pending rid v (
              ground (arith, lookup_pending-is_waiting r.pending rid recov_all v.ordered pos fits)))
            (fits, pos, some_bit, valid),
        ground (arith, sorted-count s r.pending rid which v (is_for rid' w)),
      )
      | inr (p, e) ↦ (
        record r {
          pending =
              edit_pending r.pending rid recov_all
                (λ q. record q { which = union q.which which } ∷ []);
        },
        rw (e, valid, prepare),
        edit_first-IsRecov _ _ (union_item-Keeps which valid) r.pending v,
        united-is_waiting r.pending rid which rid' w p
            (lookup_pending-Found r.pending rid recov_all p v.ordered pos fits e),
      )
    ]
