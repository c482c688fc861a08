-- ===== src/LockServer/Restore.antt =====
-- What the responses of clients in lock recovery leave: locks that are held together as before, and a core seq that
-- no recovered write lock has passed.
use scoutfs.Recov.{is_pending, recov_locks}
use scoutfs.Key.{Key, key_set_zeros}
use scoutfs.LockServer.{Entry, Net, Send, Snode, find_entry, recover}
use scoutfs.LockServer.Handlers.{Server, alloc_server_lock, get_server_lock, new_lock}
use scoutfs.LockServer.Recover.{
  Recovered, lock_recover_request, lock_server_greeting, lock_server_recover_response,
  next_recover_key, recover_lock, recover_locks, recovered_entry,
}
use scoutfs.LockServer.Held.{Exclusive-snoc, IsHeld, SharesAll}
use scoutfs.LockServer.Safety.{IsHeld-nil, IsSnode}
use scoutfs.LockServer.Index.{All-get_server_lock, All-put_server_lock}
use scoutfs.Prelude.{
  All, All-append, Bool, Bool-cases, List, Option-cases, [], arith, false, inl, inr, refl, some,
  subst, ℕ, ◌++◌, ◌∷◌, ◌≡◌, ◌≤◌,
}

-- Each lock of the response may be held together with the holders that the server knows when it reaches the lock.
unfoldable pub Restores : ℕ → List Recovered → Server → Type 0
Restores rid [] srv = Unit
Restores rid (r ∷ rs) srv =
    (s : Snode)
    → alloc_server_lock r.lock_allocated srv.locks r.lock.key ≡ some s
    → SharesAll (recovered_entry rid r.lock) s.granted
      × SharesAll (recovered_entry rid r.lock) s.invalidated
      × Restores rid rs (recover_lock rid r.lock s srv)

pub new_lock-IsSnode : (key : Key) → IsSnode (new_lock key)
new_lock-IsSnode key = IsHeld-nil [] tt

pub alloc-IsSnode :
    (allocated : Bool) (ss : List Snode) (key : Key) (s : Snode)
    → All IsSnode ss
    → alloc_server_lock allocated ss key ≡ some s
    → IsSnode s
unfolding alloc_server_lock
alloc-IsSnode allocated ss key s all e = elim (Option-cases (get_server_lock ss key false)) [
  | inl absent ↦ subst IsSnode {x = new_lock key} {y = s} (ground arith) (new_lock-IsSnode key)
  | inr (t, there) ↦
      subst IsSnode {x = t} {y = s} (ground arith)
        (All-get_server_lock IsSnode ss key false t all there)
]

recovered-IsSnode :
    (s : Snode)
    → (e : Entry) → IsSnode s
    → SharesAll e s.granted
    → SharesAll e s.invalidated
    → IsHeld (s.granted ++ e ∷ []) s.invalidated
recovered-IsSnode s e v among across = record {
  among_granted = Exclusive-snoc s.granted e v.among_granted among;
  among_invalidated = v.among_invalidated;
  across = All-append (λ f. SharesAll f s.invalidated) s.granted (e ∷ []) v.across (across, tt);
}

pub recover_locks-IsSnode :
    (rid : ℕ)
    → (rs : List Recovered) → (srv : Server) → All IsSnode srv.locks
    → Restores rid rs srv
    → All IsSnode (recover_locks rid rs srv).0.locks
unfolding recover_locks Restores
recover_locks-IsSnode rid [] srv all fits = all
recover_locks-IsSnode rid (r ∷ rs) srv all fits = elim (Bool-cases r.entry_allocated) [
  | inr none_left ↦ rw (none_left, recover_locks) all
  | inl given ↦ elim (Option-cases (alloc_server_lock r.lock_allocated srv.locks r.lock.key)) [
    | inl none_left ↦ rw (given, none_left, recover_locks) all
    | inr (s, there) ↦
        let v = alloc-IsSnode r.lock_allocated srv.locks r.lock.key s all there in
        elim (Option-cases (find_entry s.granted rid)) [
          | inr (old, found) ↦
              rw (given, there, found, recover_locks)
                (All-put_server_lock IsSnode s srv.locks v all)
          | inl new ↦
              let (among, across, rest) = fits s there in
              rw (given, there, new, recover_locks)
                (recover_locks-IsSnode rid rs (recover_lock rid r.lock s srv)
                  (All-put_server_lock IsSnode _ srv.locks
                    (recovered-IsSnode s (recovered_entry rid r.lock) v among across) all)
                  rest)
        ]
  ]
]

-- The recovered write seqs are at most the core seq, which only grows; and nothing is sent.
record Passed (rs : List Recovered) (n m : Net) : Type 0 where
  seqs : All (λ r. r.lock.write_seq ≤ m.seq) rs
  grows : n.seq ≤ m.seq
  silent : m.sent ≡ n.sent

-- After a response with locks: no recovered write seq is above the core seq, and one message is sent, for the locks
-- from the key after the last one on.
pub record AsksNext (rid : ℕ) (q : Recovered) (qs : List Recovered) (n m : Net) : Type 0 where
  pub seqs : All (λ r. r.lock.write_seq ≤ m.seq) (q ∷ qs)
  pub asks : m.sent ≡ n.sent ++ recover rid (next_recover_key q qs) ∷ []

pub recover_response-IsSnode :
    (send : Send)
    → (finish_locks : ℕ → Server → Server) → (rid : ℕ) → (q : Recovered) → (qs : List Recovered)
    → (srv : Server) → All IsSnode srv.locks
    → Restores rid (q ∷ qs) srv
    → All IsSnode (lock_server_recover_response send finish_locks rid (q ∷ qs) srv).0.locks
unfolding lock_server_recover_response
recover_response-IsSnode send finish_locks rid q qs srv all fits =
    let kept = recover_locks-IsSnode rid (q ∷ qs) srv all fits in
    elim (Bool-cases (is_pending rid recov_locks srv.recov)) [
      | inr over ↦ rw (over, lock_server_recover_response) all
      | inl pending ↦ elim (Option-cases ((recover_locks rid (q ∷ qs) srv).1)) [
        | inr (e, fails) ↦ rw (pending, fails, lock_server_recover_response) kept
        | inl taken ↦
            elim (Option-cases (
              send (recover_locks rid (q ∷ qs) srv).0.net.sent
                (recover rid (next_recover_key q qs)))) [
                  | inr (e, fails) ↦
                      rw (pending, taken, fails, lock_recover_request, lock_server_recover_response)
                        kept
                  | inl sent ↦
                      rw (pending, taken, sent, lock_recover_request, lock_server_recover_response)
                        kept
                ]
      ]
    ]

pub greeting-locks :
    (send : Send)
    → (rid : ℕ) → (srv : Server) → (lock_server_greeting send rid srv).0.locks ≡ srv.locks
unfolding lock_server_greeting
greeting-locks send rid srv = elim (Bool-cases (is_pending rid recov_locks srv.recov)) [
  | inr over ↦ rw (over, lock_server_greeting) refl
  | inl pending ↦ elim (Option-cases (send srv.net.sent (recover rid key_set_zeros))) [
    | inr (e, fails) ↦ rw (pending, fails, lock_recover_request, lock_server_greeting) refl
    | inl sent ↦ rw (pending, sent, lock_recover_request, lock_server_greeting) refl
  ]
]
