-- ===== src/LockServer/Rules.antt =====
-- Proof rules for the two loops of `process_waiting_requests`: one case for each way through a round.
use scoutfs.LockServer.{
  Entry, Invalidation, Message, Net, Progress, Send, client_entries_compatible, invalidate_grants,
  invalidation, nonempty, process_requests, remove_entry, response, send_message, seq_for, stopped,
  track,
}
use scoutfs.Key.{Key}
use scoutfs.Prelude.{
  Bool-cases, Errno, List, Option-cases, [], false, inl, inr, none, some, true, ◌++◌, ◌∷◌, ◌≡◌,
}

module _ {κ} (send : Send) (key : Key) (req : Entry) (P : Invalidation → Type κ) where
  pub invalidate_grants_cases :
      (gr : Entry) (grs inv : List Entry) (net : Net)
      → (client_entries_compatible gr req ≡ true
          → P (record (invalidate_grants send key req grs inv net) {
            granted = gr ∷ (invalidate_grants send key req grs inv net).granted;
          }))
      → ((e : Errno)
          → client_entries_compatible gr req ≡ false
          → P (record { granted = gr ∷ grs; invalidated = inv; net = net; result = some e }))
      → (client_entries_compatible gr req ≡ false
          → P (
              invalidate_grants send key req grs
                (inv ++ gr ∷ [])
                (send_message net (invalidation send key gr req))))
      → P (invalidate_grants send key req (gr ∷ grs) inv net)
  unfolding invalidate_grants
  invalidate_grants_cases gr grs inv net keeps fails moves =
      elim (Bool-cases (client_entries_compatible gr req)) [
        | inl fits ↦ rw (fits, invalidate_grants) (keeps fits)
        | inr clash ↦ elim (Option-cases (send net.sent (invalidation send key gr req))) [
          | inl sent ↦ rw (clash, sent, invalidate_grants) (moves clash)
          | inr (e, broken) ↦ rw (clash, broken, invalidate_grants) (fails e clash)
        ]
      ]

module _ (send : Send) (key : Key) where
  -- What one round of the outer loop computes.
  abbrev pub round : Entry → List Entry → List Entry → Net → Invalidation
  round req granted inv net = invalidate_grants send key req granted inv net

  abbrev pub left : Entry → Invalidation → List Entry
  left req i = remove_entry i.granted req.rid

  abbrev pub after_seq : Entry → Invalidation → Net
  after_seq req i = seq_for send key req i.net

  abbrev pub answer : Entry → Invalidation → Message
  answer req i = response send key req i.granted (after_seq req i)

  abbrev pub after_grant : Entry → Invalidation → Net
  after_grant req i = send_message (after_seq req i) (answer req i)

  module _ {κ} (P : Progress → Type κ) (req : Entry) (reqs granted inv : List Entry)
      (net : Net) where
    pub process_requests_cases :
        let i = round req granted inv net in
        ((e : Errno)
          → i.result ≡ some e
          → P (stopped send key i (req ∷ reqs) i.granted i.net (some e)))
        → (nonempty i.invalidated ≡ true → P (stopped send key i (req ∷ reqs) i.granted i.net none))
        → ((e : Errno)
            → P (stopped send key i (req ∷ reqs) (left req i) (after_seq req i) (some e)))
        → (i.result ≡ none
            → nonempty i.invalidated ≡ false
            → P (
                process_requests send key reqs
                  (track send key req (left req i))
                  i.invalidated
                  (after_grant req i)))
        → P (process_requests send key (req ∷ reqs) granted inv net)
    unfolding process_requests
    process_requests_cases broken waits unsent granted_next = elim (Option-cases i.result) [
      | inr (e, fails) ↦ rw (fails, process_requests) (broken e fails)
      | inl fine ↦ elim (Bool-cases (nonempty i.invalidated)) [
        | inl some_left ↦ rw (fine, some_left, process_requests) (waits some_left)
        | inr clear ↦ elim (Option-cases (send (after_seq req i).sent (answer req i))) [
          | inr (e, fails) ↦ rw (fine, clear, fails, process_requests) (unsent e)
          | inl sent ↦ rw (fine, clear, sent, process_requests) (granted_next fine clear)
        ]
      ]
    ]
      where
        i : Invalidation
        i = round req granted inv net
