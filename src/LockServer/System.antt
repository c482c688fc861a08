-- ===== src/LockServer/System.antt =====
-- The lock server as a state machine: any handlers in any order, from a server with no locks.
use scoutfs.LockServer.{Entry, NetLock, Send, Snode, find_entry, invalid_mode, nonempty}
use scoutfs.LockServer.Handlers.{
  Server, alloc_server_lock, farewell_step, finished_step, get_server_lock, holds_client,
  lock_server_farewell, lock_server_finished_recovery, lock_server_request, lock_server_response,
  process_and_put, walk_locks,
}
use scoutfs.LockServer.Safety.{IsSnode, process_waiting_requests-IsSnode}
use scoutfs.LockServer.Client.{Obeys, answered-IsSnode, without_client-IsSnode}
use scoutfs.LockServer.Index.{All-get_server_lock, All-put_server_lock}
use scoutfs.LockServer.Recover.{Recovered, lock_server_greeting, lock_server_recover_response}
use scoutfs.LockServer.Restore.{Restores, alloc-IsSnode, greeting-locks, recover_response-IsSnode}
use scoutfs.Key.{Key, key_inc, key_set_zeros}
use scoutfs.Recov.{Recov, setup}
use scoutfs.Prelude.{
  All, Bool, Bool-cases, Errno, List, Option, Option-cases, [], ap, arith, false, inl, inr, none,
  some, some_inj, subst, suc, sym, true, zero, ℕ, ◌||◌, ◌∷◌, ◌≡◌,
}

-- The response obeys the invalidation that it answers, if there is one.
abbrev pub RespondsTo : Server → ℕ → NetLock → Type 0
RespondsTo srv rid nl =
    (s : Snode) (c : Entry)
    → get_server_lock srv.locks nl.key false ≡ some s
    → find_entry s.invalidated rid ≡ some c
    → Obeys c nl

-- What may happen: a message of a client, a greeting, locks that a client restores, a client that leaves, the end of
-- recovery, and any change of the recovery state, such as that by a client's last response.
pub data Step (send : Send) (srv : Server) : Server → Type 0 where
  requests :
      (entry_allocated lock_allocated : Bool) (rid net_id : ℕ) (nl : NetLock)
      → Step send srv (lock_server_request send entry_allocated lock_allocated rid net_id nl srv).0
  responds :
      (rid : ℕ) (nl : NetLock)
      → RespondsTo srv rid nl
      → Step send srv (lock_server_response send rid nl srv).0
  leaves :
      (fuel rid : ℕ) {srv' : Server} (r : Option Errno)
      → lock_server_farewell send fuel rid srv ≡ some (srv', r)
      → Step send srv srv'
  resumes :
      (fuel : ℕ) {srv' : Server} (r : Option Errno)
      → lock_server_finished_recovery send fuel srv ≡ some (srv', r)
      → Step send srv srv'
  greets : (rid : ℕ) → Step send srv (lock_server_greeting send rid srv).0
  restores :
      (finish_locks : ℕ → Server → Server) (rid : ℕ) (q : Recovered) (qs : List Recovered)
      → Restores rid (q ∷ qs) srv
      → Step send srv (lock_server_recover_response send finish_locks rid (q ∷ qs) srv).0
  recovers : (recov : Recov) → Step send srv (record srv { recov = recov })

abbrev pub start : Server
start = record { locks = []; net = record { sent = []; seq = 0 }; recov = setup; stopping = false }

pub data Reach (send : Send) : Server → Type 0 where
  here : Reach send start
  next : {s t : Server} → Reach send s → Step send s t → Reach send t

-- All holders of each lock may hold it together.
abbrev pub IsServer : Server → Type 0
IsServer srv = All IsSnode srv.locks

process_and_put-IsServer :
    (send : Send) (s : Snode) (srv : Server)
    → IsSnode s
    → IsServer srv
    → IsServer (process_and_put send s srv).0
unfolding process_and_put
process_and_put-IsServer send s srv h all =
    All-put_server_lock IsSnode _ srv.locks
      (process_waiting_requests-IsSnode send srv.recov s srv.net h) all

request-IsServer :
    (send : Send) (entry_allocated lock_allocated : Bool) (rid net_id : ℕ) (nl : NetLock)
    (srv : Server)
    → IsServer srv
    → IsServer (lock_server_request send entry_allocated lock_allocated rid net_id nl srv).0
unfolding lock_server_request
request-IsServer send entry_allocated lock_allocated rid net_id nl srv h =
    elim (Bool-cases (invalid_mode nl.old_mode || invalid_mode nl.new_mode)) [
      | inl bad ↦ rw (bad, lock_server_request) h
      | inr good ↦ elim (Bool-cases entry_allocated) [
        | inr none_left ↦ rw (good, none_left, lock_server_request) h
        | inl given ↦ elim (Option-cases (alloc_server_lock lock_allocated srv.locks nl.key)) [
          | inl none_left ↦ rw (good, given, none_left, lock_server_request) h
          | inr (s, e) ↦
              rw (good, given, e, lock_server_request)
                (process_and_put-IsServer send _ srv
                  (let v = alloc-IsSnode lock_allocated srv.locks nl.key s h e in
                    record {
                      among_granted = v.among_granted;
                      among_invalidated = v.among_invalidated;
                      across = v.across;
                    })
                  h)
        ]
      ]
    ]

response-IsServer :
    (send : Send) (rid : ℕ) (nl : NetLock) (srv : Server)
    → RespondsTo srv rid nl
    → IsServer srv
    → IsServer (lock_server_response send rid nl srv).0
unfolding lock_server_response
response-IsServer send rid nl srv obeys h =
    elim (Bool-cases (invalid_mode nl.old_mode || invalid_mode nl.new_mode)) [
      | inl bad ↦ rw (bad, lock_server_response) h
      | inr good ↦ elim (Option-cases (get_server_lock srv.locks nl.key false)) [
        | inl absent ↦ rw (good, absent, lock_server_response) h
        | inr (s, there) ↦
            let v : IsSnode s = All-get_server_lock IsSnode srv.locks nl.key false s h there in
            elim (Option-cases (find_entry s.invalidated rid)) [
              | inl unknown ↦
                  rw (good, there, unknown, lock_server_response)
                    (All-put_server_lock IsSnode s srv.locks v h)
              | inr (c, e) ↦
                  rw (good, there, e, lock_server_response)
                    (process_and_put-IsServer send _ srv
                      (answered-IsSnode s c rid nl v e (obeys s c there e)) h)
            ]
      ]
    ]

-- A property of servers that each step of a walk keeps holds after the walk.
walk_locks-keeps {κ} :
    (Q : Server → Type κ) (step : Snode → Server → Server × Option Errno)
    → ((s : Snode) (key : Key) (srv : Server)
        → get_server_lock srv.locks key true ≡ some s
        → Q srv
        → Q (step s srv).0)
    → (fuel : ℕ) (key : Key) (srv srv' : Server) (r : Option Errno) → Q srv
    → walk_locks step fuel key srv ≡ some (srv', r)
    → Q srv'
unfolding walk_locks
walk_locks-keeps Q step keep zero key srv srv' r q e = absurd cc
walk_locks-keeps Q step keep (suc fuel) key srv srv' r q e =
    elim (Option-cases (get_server_lock srv.locks key true)) [
      | inl done ↦
          subst Q (ap (λ (p : Server × Option Errno). p.0) (some_inj (rw (done, walk_locks) at e)))
            q
      | inr (s, there) ↦ elim (Option-cases ((step s srv).1)) [
        | inr (x, fails) ↦
            subst Q
              (ap (λ (p : Server × Option Errno). p.0)
                (some_inj (rw (there, fails, walk_locks) at e)))
              (keep s key srv there q)
        | inl fine ↦
            walk_locks-keeps Q step keep fuel (key_inc s.key) (step s srv).0 srv' r
              (keep s key srv there q) (rw (there, fine, walk_locks) at e)
      ]
    ]

farewell_step-IsServer :
    (send : Send) (rid : ℕ) (s : Snode) (srv : Server)
    → IsSnode s
    → IsServer srv
    → IsServer (farewell_step send rid s srv).0
unfolding farewell_step
farewell_step-IsServer send rid s srv v h =
    elim (Bool-cases (
      holds_client rid s.granted
      || holds_client rid s.requested
      || holds_client rid s.invalidated)) [
        | inl held ↦
            rw (held, farewell_step)
              (process_and_put-IsServer send _ srv (without_client-IsSnode rid s v) h)
        | inr free ↦ rw (free, farewell_step) (All-put_server_lock IsSnode s srv.locks v h)
      ]

finished_step-IsServer :
    (send : Send) (s : Snode) (srv : Server)
    → IsSnode s
    → IsServer srv
    → IsServer (finished_step send s srv).0
unfolding finished_step
finished_step-IsServer send s srv v h = elim (Bool-cases (nonempty s.requested)) [
  | inl waits ↦ rw (waits, finished_step) (process_and_put-IsServer send s srv v h)
  | inr quiet ↦ rw (quiet, finished_step) (All-put_server_lock IsSnode s srv.locks v h)
]

walked-IsServer :
    (send : Send) (fuel rid : ℕ) (srv w : Server) (r : Option Errno)
    → IsServer srv
    → walk_locks (farewell_step send rid) fuel key_set_zeros srv ≡ some (w, r)
    → IsServer w
walked-IsServer send fuel rid srv w r h walked =
    walk_locks-keeps IsServer (farewell_step send rid)
      (λ s key srv there q.
        farewell_step-IsServer send rid s srv
          (All-get_server_lock IsSnode srv.locks key true s q there) q)
      fuel key_set_zeros srv w r h walked

farewell-IsServer :
    (send : Send) (fuel rid : ℕ) (srv srv' : Server) (r : Option Errno)
    → lock_server_farewell send fuel rid srv ≡ some (srv', r)
    → IsServer srv
    → IsServer srv'
unfolding lock_server_farewell
farewell-IsServer send fuel rid srv srv' r e h =
    elim (Option-cases (walk_locks (farewell_step send rid) fuel key_set_zeros srv)) [
      | inl spent ↦ absurd (cc (rw (spent, lock_server_farewell) at e))
      | inr ((w, none), walked) ↦
          subst (All IsSnode) {x = w.locks} {y = srv'.locks} (ground arith)
            (walked-IsServer send fuel rid srv w none h walked)
      | inr ((w, some x), walked) ↦
          subst (All IsSnode) {x = w.locks} {y = srv'.locks} (ground arith)
            (walked-IsServer send fuel rid srv w (some x) h walked)
    ]

Step-IsServer : (send : Send) {s t : Server} → Step send s t → IsServer s → IsServer t
unfolding lock_server_finished_recovery
Step-IsServer send {s} (requests entry_allocated lock_allocated rid net_id nl) h =
    request-IsServer send entry_allocated lock_allocated rid net_id nl s h
Step-IsServer send {s} (responds rid nl obeys) h = response-IsServer send rid nl s obeys h
Step-IsServer send {s} {t} (leaves fuel rid r e) h = farewell-IsServer send fuel rid s t r e h
Step-IsServer send {s} {t} (resumes fuel r e) h =
    walk_locks-keeps IsServer (finished_step send)
      (λ k key srv there q.
        finished_step-IsServer send k srv (All-get_server_lock IsSnode srv.locks key true k q there)
          q)
      fuel key_set_zeros s t r h e
Step-IsServer send {s} (greets rid) h = subst (All IsSnode) (sym (greeting-locks send rid s)) h
Step-IsServer send {s} (restores finish_locks rid q qs fits) h =
    recover_response-IsSnode send finish_locks rid q qs s h fits
Step-IsServer send {s} (recovers recov) h = h

-- In every state that the server reaches by any handlers in any order, with any sends failing, all clients that hold
-- a lock may hold it together: two different clients hold it only in one mode, which is read or write-only. Holds
-- where clients answer an invalidation as it asks, and restore only locks that may be held together with those that
-- the server knows.
pub Reach-IsServer : (send : Send) {s : Server} → Reach send s → IsServer s
Reach-IsServer send here = tt
Reach-IsServer send (next r st) = Step-IsServer send st (Reach-IsServer send r)
