-- ===== src/Recov/Finish.antt =====
-- `scoutfs_recov_begin` and `scoutfs_recov_finish`.
use scoutfs.Recov.{
  Pending, Recov, Which, count, edit_first, edit_pending, find_first, finish, finished_item,
  is_after, is_empty, lookup_pending, next_pending, nonzero, rid_before, stop_timer_if, without,
}
use scoutfs.Recov.Waiting.{IsRecov, is_for, is_waiting}
use scoutfs.Recov.Order.{Found, lookup_pending-Found, lookup_pending-is_waiting}
use scoutfs.Recov.Edit.{Keeps, count-edit_first, edit_first-IsRecov}
use scoutfs.Prelude.{
  Bool, Bool-cases, List, Option-cases, [], arith, false, if◌then◌else◌, inl, inr, none, refl, some,
  true, ℕ, ◌++◌, ◌<◌, ◌==◌, ◌^◌, ◌↔◌, ◌∷◌, ◌≡◌, ◌≢◌, ◌⊎◌,
}

finished_item-Keeps : (which : Which) → Keeps (finished_item which)
finished_item-Keeps which = record {
  one = λ p. one p (Bool-cases (nonzero (without p.which which)));
  good = λ p h. ground arith;
}
  where
    one :
        (p : Pending)
        → (nonzero (without p.which which) ≡ true) ⊎ (nonzero (without p.which which) ≡ false)
        → (finished_item which p ≡ [])
          ⊎ ((q : Pending) × (finished_item which p ≡ q ∷ []) × (q.rid ≡ p.rid))
    one p (inl e) = inr (record p { which = without p.which which }, rw e, refl)
    one p (inr e) = inl (rw e)

stop_timer_if-pending : (done : Bool) (r : Recov) → (stop_timer_if done r).pending ≡ r.pending
stop_timer_if-pending done r = ground arith

count-without :
    (rid : ℕ) (which w : Which) (ps : List Pending)
    → count (is_for rid which) ps ≡ 0
    → count (is_for rid (without w which)) ps ≡ count (is_for rid w) ps
count-without rid which w [] h = refl
count-without rid which w (p ∷ ps) h = ground (arith, count-without rid which w ps)

-- The waiting after the edit, from the counts before it.
edited-is_waiting :
    (ps : List Pending) (rid : ℕ) (which : Which) (rid' : ℕ) (w : Which) (p : Pending)
    → Found ps rid which p
    → is_waiting (edit_pending ps rid which (finished_item which)) rid' w
      ≡ (if rid == rid' then is_waiting ps rid' (without w which) else is_waiting ps rid' w)
edited-is_waiting ps rid which rid' w p f = ground (
  arith,
  count-edit_first (is_for rid' w) (is_after (rid_before rid) which) (finished_item which) ps p
      f.here,
  f.only w,
  f.only (without w which),
)

-- Finishing `which` for a client takes those bits off what the server waits for, and touches no other client.
-- Holds of a list of well-formed items in order, and a rid that is a nonzero u64; the list stays so.
pub finish-is_waiting :
    (r : Recov) (rid : ℕ) (which : Which) (rid' : ℕ) (w : Which)
    → IsRecov r.pending
    → 0 < rid
    → rid < 2 ^ 64
    → IsRecov (finish rid which r).0.pending
      × (is_waiting (finish rid which r).0.pending rid' w ≡ (
          if rid == rid'
          then is_waiting r.pending rid' (without w which)
          else is_waiting r.pending rid' w))
unfolding finish
finish-is_waiting r rid which rid' w v pos fits =
    elim (Option-cases (lookup_pending r.pending rid which)) [
      | inl e ↦
          rw (e, finish)
            (
              v,
              ground (
                arith,
                lookup_pending-is_waiting r.pending rid which v.ordered pos fits,
                count-without rid which w r.pending,
              ),
            )
      | inr (p, e) ↦
          rw (e, finish, stop_timer_if-pending)
            (
              edit_first-IsRecov _ _ (finished_item-Keeps which) r.pending v,
              edited-is_waiting r.pending rid which rid' w p
                  (lookup_pending-Found r.pending rid which p v.ordered pos fits e),
            )
    ]

append-eq_nil : (xs ys : List Pending) → xs ++ ys ≡ [] → xs ≡ []
append-eq_nil [] ys e = refl
append-eq_nil (x ∷ xs) ys e = cc

edit_first-eq_nil :
    (t : Pending → Bool) (f : Pending → List Pending) (ps : List Pending) (p : Pending)
    → find_first t ps ≡ some p
    → edit_first t f ps ≡ []
    → f p ≡ []
unfolding find_first edit_first
edit_first-eq_nil t f [] p e h = cc
edit_first-eq_nil t f (q ∷ ps) p e h = elim (Bool-cases (t q)) [
  | inl hit ↦ append-eq_nil (f p) ps (ground arith)
  | inr miss ↦ ground arith
]

is_empty-eq_nil : (ps : List Pending) → is_empty ps ≡ true → ps ≡ []
unfolding is_empty
is_empty-eq_nil [] e = refl
is_empty-eq_nil (p ∷ ps) e = cc

finish-nil : (s : Recov) (rid : ℕ) (which : Which) → s.pending ≡ [] → (finish rid which s).1 ≡ false
unfolding finish lookup_pending
finish-nil s rid which e = rw (e, finish, lookup_pending, next_pending, find_first)

lookup_pending-ne_nil :
    (ps : List Pending) (rid : ℕ) (which : Which) (p : Pending)
    → lookup_pending ps rid which ≡ some p
    → ps ≢ []
unfolding lookup_pending
lookup_pending-ne_nil [] rid which p e n = cc
lookup_pending-ne_nil (q ∷ ps) rid which p e n = cc

-- The result of `finish` when there is an item: whether it was the last, and `begin` has been called.
finish-done :
    (r : Recov) (rid : ℕ) (which : Which) (p : Pending)
    → lookup_pending r.pending rid which ≡ some p
    → Found r.pending rid which p
    → (((finish rid which r).1 ≡ true)
        ↔ ((r.timeout_fn ≢ none) × (r.pending ≢ []) × ((finish rid which r).0.pending ≡ [])))
      × ((finish rid which r).1 ≡ true → (finish rid which r).0.timer ≡ none)
unfolding finish
finish-done r rid which p e f = (
  (
    λ h. ground (
      arith,
      e,
      is_empty-eq_nil (edit_pending r.pending rid which (finished_item which)),
      lookup_pending-ne_nil r.pending rid which p e,
      edit_first-eq_nil (is_after (rid_before rid) which) (finished_item which) r.pending p f.here,
    ),
    λ h. ground (
      arith,
      e,
      is_empty-eq_nil (edit_pending r.pending rid which (finished_item which)),
      lookup_pending-ne_nil r.pending rid which p e,
      edit_first-eq_nil (is_after (rid_before rid) which) (finished_item which) r.pending p f.here,
    ),
  ),
  λ h. ground (
    arith,
    e,
    is_empty-eq_nil (edit_pending r.pending rid which (finished_item which)),
    lookup_pending-ne_nil r.pending rid which p e,
    edit_first-eq_nil (is_after (rid_before rid) which) (finished_item which) r.pending p f.here,
  ),
)

-- A positive result says that this call removed the last item, after `begin`; it says so exactly then.
-- It leaves the timer stopped, and no further call of `finish` can return it on that state.
-- Holds of a list of well-formed items in order, and a rid that is a nonzero u64.
pub finish_once :
    (r : Recov) (rid : ℕ) (which : Which)
    → IsRecov r.pending
    → 0 < rid
    → rid < 2 ^ 64
    → (((finish rid which r).1 ≡ true)
        ↔ ((r.timeout_fn ≢ none) × (r.pending ≢ []) × ((finish rid which r).0.pending ≡ [])))
      × ((finish rid which r).1 ≡ true
          → ((finish rid which r).0.timer ≡ none)
            × ((rid' : ℕ) (which' : Which) → (finish rid' which' (finish rid which r).0).1 ≡ false))
unfolding finish
finish_once r rid which v pos fits = elim (Option-cases (lookup_pending r.pending rid which)) [
  | inl e ↦ rw (e, finish) ((λ h. cc, λ h. absurd (h.1 h.2)), λ h. cc)
  | inr (p, e) ↦
      (let d =
          finish-done r rid which p e
            (lookup_pending-Found r.pending rid which p v.ordered pos fits e) in
        (d.0, λ h. (d.1 h, λ rid' which'. finish-nil _ rid' which' ((d.0.0 h).2))))
]
