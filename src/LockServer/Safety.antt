-- ===== src/LockServer/Safety.antt =====
-- `process_waiting_requests` keeps the modes that clients hold together compatible.
use scoutfs.LockServer.Rules.{round, left, process_requests_cases}
use scoutfs.Recov.{Recov, recov_locks, recov_next_pending}
use scoutfs.Key.{Key}
use scoutfs.LockServer.{
  Entry, Invalidation, Net, Send, Snode, client_entries_compatible, invalidate_grants, invalidation,
  lock_null, nonempty, process_requests, process_waiting_requests, remove_entry, track,
}
use scoutfs.LockServer.Held.{
  All-remove_entry, Cross-nil, Cross-snoc, Exclusive, Exclusive-remove_entry, Exclusive-snoc,
  IsHeld, SharesAll, remove_entry-ne, shares,
}
use scoutfs.Prelude.{
  All, All-append, Bool-cases, List, Option-cases, [], arith, false, inl, inr, none, not, refl,
  true, ℕ, ◌++◌, ◌==◌, ◌||◌, ◌∷◌, ◌≡◌,
}

module _ (send : Send) (key : Key) (req : Entry) where
  -- What holds of all entries before the inner loop holds of them after it.
  All-invalidate_grants {κ} :
      (P : Entry → Type κ) (grs inv : List Entry) (net : Net)
      → All P grs
      → All P inv
      → let i = invalidate_grants send key req grs inv net in All P i.granted × All P i.invalidated
  unfolding invalidate_grants
  All-invalidate_grants P [] inv net hg hi = (tt, hi)
  All-invalidate_grants P (gr ∷ grs) inv net hg hi =
      elim (Bool-cases (client_entries_compatible gr req)) [
        | inl fits ↦
            let (a, b) = All-invalidate_grants P grs inv net hg.1 hi in
            rw (fits, invalidate_grants) ((hg.0, a), b)
        | inr clash ↦ elim (Option-cases (send net.sent (invalidation send key gr req))) [
          | inl sent ↦
              rw (clash, sent, invalidate_grants)
                (All-invalidate_grants P grs (inv ++ gr ∷ []) _ hg.1
                  (All-append P inv (gr ∷ []) hi (hg.0, tt)))
          | inr (e, fails) ↦ rw (clash, fails, invalidate_grants) (hg, hi)
        ]
      ]

  IsHeld-invalidate_grants :
      (grs inv : List Entry) (net : Net)
      → IsHeld grs inv
      → let i = invalidate_grants send key req grs inv net in IsHeld i.granted i.invalidated
  unfolding invalidate_grants
  IsHeld-invalidate_grants [] inv net h = h
  IsHeld-invalidate_grants (gr ∷ grs) inv net h =
      elim (Bool-cases (client_entries_compatible gr req)) [
        | inl fits ↦
            let ih = IsHeld-invalidate_grants grs inv net (record {
              among_granted = h.among_granted.1;
              among_invalidated = h.among_invalidated;
              across = h.across.1;
            }) in
            let (a, b) =
              All-invalidate_grants (λ f. shares gr f ≡ true) grs inv net h.among_granted.0
                h.across.0 in
            rw (fits, invalidate_grants)
              (record {
                among_granted = (a, ih.among_granted);
                among_invalidated = ih.among_invalidated;
                across = (b, ih.across);
              })
        | inr clash ↦ elim (Option-cases (send net.sent (invalidation send key gr req))) [
          | inl sent ↦
              rw (clash, sent, invalidate_grants)
                (IsHeld-invalidate_grants grs (inv ++ gr ∷ []) _ (record {
                  among_granted = h.among_granted.1;
                  among_invalidated = Exclusive-snoc inv gr h.among_invalidated h.across.0;
                  across = Cross-snoc grs inv gr h.across.1 h.among_granted.0;
                }))
          | inr (e, fails) ↦ rw (clash, fails, invalidate_grants) h
        ]
      ]

  -- Without an error every grant that is left is compatible with the request.
  invalidate_grants-compatible :
      (grs inv : List Entry) (net : Net)
      → let i = invalidate_grants send key req grs inv net in
        i.result ≡ none → All (λ g. client_entries_compatible g req ≡ true) i.granted
  unfolding invalidate_grants
  invalidate_grants-compatible [] inv net = λ _. tt
  invalidate_grants-compatible (gr ∷ grs) inv net =
      elim (Bool-cases (client_entries_compatible gr req)) [
        | inl fits ↦
            rw (fits, invalidate_grants) (λ h. (fits, invalidate_grants-compatible grs inv net h))
        | inr clash ↦ elim (Option-cases (send net.sent (invalidation send key gr req))) [
          | inl sent ↦
              rw (clash, sent, invalidate_grants)
                (invalidate_grants-compatible grs (inv ++ gr ∷ []) _)
          | inr (e, fails) ↦ rw (clash, fails, invalidate_grants) (λ h. cc)
        ]
      ]

compatible-shares :
    (req : Entry) (gs : List Entry)
    → All (λ g. client_entries_compatible g req ≡ true) gs
    → All (λ g. (g.rid == req.rid) ≡ false) gs
    → SharesAll req gs
unfolding client_entries_compatible
compatible-shares req [] c n = tt
compatible-shares req (g ∷ gs) c n = (ground (arith, c.0, n.0), compatible-shares req gs c.1 n.1)

track-Exclusive :
    (send : Send) (key : Key) (req : Entry) (left : List Entry)
    → Exclusive left
    → SharesAll req left
    → Exclusive (track send key req left)
track-Exclusive send key req left x s = elim (Bool-cases (req.mode == lock_null)) [
  | inl is_null ↦ rw is_null x
  | inr tracked ↦ rw tracked (Exclusive-snoc left req x s)
]

nonempty-eq_nil : (es : List Entry) → nonempty es ≡ false → es ≡ []
nonempty-eq_nil [] h = refl
nonempty-eq_nil (e ∷ es) h = cc

pub IsHeld-nil : (es : List Entry) → Exclusive es → IsHeld es []
IsHeld-nil es x = record { among_granted = x; among_invalidated = tt; across = Cross-nil es }

IsHeld-remove : (es fs : List Entry) (rid : ℕ) → IsHeld es fs → IsHeld (remove_entry es rid) fs
IsHeld-remove es fs rid h = record {
  among_granted = Exclusive-remove_entry es rid h.among_granted;
  among_invalidated = h.among_invalidated;
  across = All-remove_entry _ es rid h.across;
}

module _ (send : Send) (key : Key) where
  process_requests-IsHeld :
      (reqs granted inv : List Entry) (net : Net)
      → IsHeld granted inv
      → let p = process_requests send key reqs granted inv net in IsHeld p.granted p.invalidated
  unfolding process_requests
  process_requests-IsHeld [] granted inv net h = h
  process_requests-IsHeld (req ∷ reqs) granted inv net h =
      process_requests_cases send key (λ p. IsHeld p.granted p.invalidated) req reqs granted inv net
        (λ e fails. held) (λ waits. held) (λ e. IsHeld-remove i.granted i.invalidated req.rid held)
        (λ fine clear.
          process_requests-IsHeld reqs (track send key req (left send key req i)) i.invalidated _
            (next fine clear))
    where
      i : Invalidation
      i = round send key req granted inv net

      held : IsHeld i.granted i.invalidated
      held = IsHeld-invalidate_grants send key req granted inv net h

      next :
          i.result ≡ none
          → nonempty i.invalidated ≡ false
          → IsHeld (track send key req (left send key req i)) i.invalidated
      next fine clear = rw (nonempty-eq_nil i.invalidated clear) (
          IsHeld-nil _ (
            track-Exclusive send key req (left send key req i)
              (Exclusive-remove_entry i.granted req.rid held.among_granted)
              (compatible-shares req (left send key req i)
                (All-remove_entry _ i.granted req.rid
                  (invalidate_grants-compatible send key req granted inv net fine))
                (remove_entry-ne i.granted req.rid held.among_granted))))

abbrev pub IsSnode : Snode → Type 0
IsSnode s = IsHeld s.granted s.invalidated

-- Whatever requests wait, and wherever a send fails, the clients that hold the lock after the
-- requests are processed, granted or under invalidation, may hold it together if those before could.
pub process_waiting_requests-IsSnode :
    (send : Send) (recov : Recov) (s : Snode) (net : Net)
    → IsSnode s
    → IsSnode (process_waiting_requests send recov s net).snode
unfolding process_waiting_requests
process_waiting_requests-IsSnode send recov s net h =
    elim (Bool-cases
      (nonempty s.invalidated || not (recov_next_pending 0 recov_locks recov == 0))) [
        | inl waits ↦ rw (waits, process_waiting_requests) h
        | inr runs ↦
            rw (runs, process_waiting_requests)
              (process_requests-IsHeld send s.key s.requested s.granted s.invalidated net h)
      ]
