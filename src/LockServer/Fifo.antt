-- ===== src/LockServer/Fifo.antt =====
-- The messages that `process_waiting_requests` sends, against the lists that it leaves.
use scoutfs.Recov.{Recov, recov_next_pending, recov_locks}
use scoutfs.Key.{Key}
use scoutfs.LockServer.{
  Entry, Invalidation, Message, Net, Send, Snode, grant, invalidate, invalidate_grants, nonempty,
  process_requests, process_waiting_requests, recover, seq_for,
}
use scoutfs.LockServer.Rules.{after_grant, invalidate_grants_cases, process_requests_cases, round}
use scoutfs.Prelude.{
  Bool-cases, List, [], ap, append-nil, append_assoc, arith, inl, inr, not, refl, ℕ, ◌++◌, ◌==◌,
  ◌||◌, ◌∙◌, ◌∷◌, ◌≡◌,
}

-- Who is answered, to which request and in which mode; and who asks.
abbrev pub answers : List Message → List (ℕ × ℕ × ℕ)
answers [] = []
answers (grant rid net_id nl ∷ ms) = (rid, net_id, nl.new_mode) ∷ answers ms
answers (invalidate rid nl ∷ ms) = answers ms
answers (recover rid key ∷ ms) = answers ms

abbrev pub asks : List Entry → List (ℕ × ℕ × ℕ)
asks [] = []
asks (e ∷ es) = (e.rid, e.net_id, e.mode) ∷ asks es

-- Whose grants are invalidated, by the messages and by the list.
abbrev pub notices : List Message → List (ℕ × ℕ)
notices [] = []
notices (grant rid net_id nl ∷ ms) = notices ms
notices (invalidate rid nl ∷ ms) = (rid, nl.old_mode) ∷ notices ms
notices (recover rid key ∷ ms) = notices ms

abbrev pub holders : List Entry → List (ℕ × ℕ)
holders [] = []
holders (e ∷ es) = (e.rid, e.mode) ∷ holders es

answers-append : (ms ns : List Message) → answers (ms ++ ns) ≡ answers ms ++ answers ns
answers-append [] ns = refl
answers-append (grant rid net_id nl ∷ ms) ns =
    ap (◌∷◌ (rid, net_id, nl.new_mode)) (answers-append ms ns)
answers-append (invalidate rid nl ∷ ms) ns = answers-append ms ns
answers-append (recover rid key ∷ ms) ns = answers-append ms ns

notices-append : (ms ns : List Message) → notices (ms ++ ns) ≡ notices ms ++ notices ns
notices-append [] ns = refl
notices-append (grant rid net_id nl ∷ ms) ns = notices-append ms ns
notices-append (invalidate rid nl ∷ ms) ns = ap (◌∷◌ (rid, nl.old_mode)) (notices-append ms ns)
notices-append (recover rid key ∷ ms) ns = notices-append ms ns

holders-append : (es fs : List Entry) → holders (es ++ fs) ≡ holders es ++ holders fs
holders-append [] fs = refl
holders-append (e ∷ es) fs = ap (◌∷◌ (e.rid, e.mode)) (holders-append es fs)

seq_for-sent :
    (send : Send) (key : Key) (req : Entry) (net : Net) → (seq_for send key req net).sent ≡ net.sent
seq_for-sent send key req net = ground arith

invalidate_grants-answers :
    (send : Send) (key : Key) (req : Entry) (grs inv : List Entry) (net : Net)
    → answers (invalidate_grants send key req grs inv net).net.sent ≡ answers net.sent
unfolding invalidate_grants
invalidate_grants-answers send key req [] inv net = refl
invalidate_grants-answers send key req (gr ∷ grs) inv net =
    invalidate_grants_cases send key req (λ i. answers i.net.sent ≡ answers net.sent) gr grs inv net
      (λ fits. invalidate_grants-answers send key req grs inv net) (λ e clash. refl)
      (λ clash.
        invalidate_grants-answers send key req grs (inv ++ gr ∷ []) _
        ∙ answers-append net.sent _
        ∙ append-nil (answers net.sent))

invalidate_grants-notices :
    (send : Send) (key : Key) (req : Entry) (grs inv : List Entry) (net : Net) (base : List (ℕ × ℕ))
    → notices net.sent ≡ base ++ holders inv
    → let i = invalidate_grants send key req grs inv net in
      notices i.net.sent ≡ base ++ holders i.invalidated
unfolding invalidate_grants
invalidate_grants-notices send key req [] inv net base h = h
invalidate_grants-notices send key req (gr ∷ grs) inv net base h =
    invalidate_grants_cases send key req (λ i. notices i.net.sent ≡ base ++ holders i.invalidated)
      gr grs inv net (λ fits. invalidate_grants-notices send key req grs inv net base h)
      (λ e clash. h)
      (λ clash.
        invalidate_grants-notices send key req grs (inv ++ gr ∷ []) _ base
          (notices-append net.sent _ ∙ rw (h, holders-append) (append_assoc base (holders inv) _)))

grant-answers :
    (send : Send) (key : Key) (req : Entry) (i : Invalidation)
    → answers (after_grant send key req i).sent ≡ answers i.net.sent ++ asks (req ∷ [])
grant-answers send key req i = rw (seq_for-sent send key req i.net) (answers-append i.net.sent _)

grant-notices :
    (send : Send) (key : Key) (req : Entry) (i : Invalidation)
    → notices (after_grant send key req i).sent ≡ notices i.net.sent
grant-notices send key req i =
    rw (seq_for-sent send key req i.net)
      (notices-append i.net.sent _ ∙ append-nil (notices i.net.sent))

module _ (send : Send) (key : Key) where
  process_requests-answers :
      (reqs granted inv : List Entry) (net : Net)
      → let p = process_requests send key reqs granted inv net in
        answers p.net.sent ++ asks p.requested ≡ answers net.sent ++ asks reqs
  unfolding process_requests
  process_requests-answers [] granted inv net = refl
  process_requests-answers (req ∷ reqs) granted inv net =
      process_requests_cases send key
        (λ p. answers p.net.sent ++ asks p.requested ≡ answers net.sent ++ asks (req ∷ reqs)) req
        reqs granted inv net (λ e fails. rw same) (λ waits. rw same)
        (λ e. rw (seq_for-sent send key req i.net, same))
        (λ fine clear.
          process_requests-answers reqs _ i.invalidated (after_grant send key req i)
          ∙ rw (grant-answers send key req i, same)
              (append_assoc (answers net.sent) (asks (req ∷ [])) (asks reqs)))
    where
      i : Invalidation
      i = round send key req granted inv net

      same : answers i.net.sent ≡ answers net.sent
      same = invalidate_grants-answers send key req granted inv net

  process_requests-notices :
      (reqs granted inv : List Entry) (net : Net) (base : List (ℕ × ℕ))
      → notices net.sent ≡ base ++ holders inv
      → let p = process_requests send key reqs granted inv net in
        notices p.net.sent ≡ base ++ holders p.invalidated
  unfolding process_requests
  process_requests-notices [] granted inv net base h = h
  process_requests-notices (req ∷ reqs) granted inv net base h =
      process_requests_cases send key (λ p. notices p.net.sent ≡ base ++ holders p.invalidated) req
        reqs granted inv net (λ e fails. told) (λ waits. told)
        (λ e. rw (seq_for-sent send key req i.net) told)
        (λ fine clear.
          process_requests-notices reqs _ i.invalidated (after_grant send key req i) base
            (grant-notices send key req i ∙ told))
    where
      i : Invalidation
      i = round send key req granted inv net

      told : notices i.net.sent ≡ base ++ holders i.invalidated
      told = invalidate_grants-notices send key req granted inv net base h

-- Requests are answered in the order they came, each once and in the mode it asks for: the grants sent, followed by
-- the requests that wait, are the grants sent before, followed by the requests that waited. This holds on every
-- branch, also where a send fails.
pub process_waiting_requests-answers :
    (send : Send) (recov : Recov) (s : Snode) (net : Net)
    → let p = process_waiting_requests send recov s net in
      answers p.net.sent ++ asks p.snode.requested ≡ answers net.sent ++ asks s.requested
unfolding process_waiting_requests
process_waiting_requests-answers send recov s net =
    elim (Bool-cases
      (nonempty s.invalidated || not (recov_next_pending 0 recov_locks recov == 0))) [
        | inl waits ↦ rw (waits, process_waiting_requests)
        | inr runs ↦
            rw (runs, process_waiting_requests)
              (process_requests-answers send s.key s.requested s.granted s.invalidated net)
      ]

-- The entries under invalidation are those that a message has told to give way, in the same order and with the mode
-- that the message names as held: if that is so after the messages `base`, processing keeps it, on every branch.
pub process_waiting_requests-notices :
    (send : Send) (recov : Recov) (s : Snode) (net : Net) (base : List (ℕ × ℕ))
    → notices net.sent ≡ base ++ holders s.invalidated
    → let p = process_waiting_requests send recov s net in
      notices p.net.sent ≡ base ++ holders p.snode.invalidated
unfolding process_waiting_requests
process_waiting_requests-notices send recov s net base h =
    elim (Bool-cases
      (nonempty s.invalidated || not (recov_next_pending 0 recov_locks recov == 0))) [
        | inl waits ↦ rw (waits, process_waiting_requests) h
        | inr runs ↦
            rw (runs, process_waiting_requests)
              (process_requests-notices send s.key s.requested s.granted s.invalidated net base h)
      ]
