-- ===== src/LockServer/Recover.antt =====
-- kmod/src/lock_server.c: what the lock server does with a client in lock recovery.
use scoutfs.LockServer.{Entry, Net, NetLock, Send, Snode, find_entry, recover, send_message}
use scoutfs.LockServer.Handlers.{Server, alloc_server_lock, put_only, put_server_lock}
use scoutfs.Key.{Key, key_inc, key_set_zeros}
use scoutfs.Recov.{is_pending, recov_locks}
use scoutfs.Prelude.{
  Bool, Errno, List, Option, [], eexist, einval, enomem, false, if◌then◌else◌, ltb, none, some,
  true, ℕ, ◌++◌, ◌∷◌,
}

-- `scoutfs_server_lock_recover_request`
abbrev pub lock_recover_request : Send → ℕ → Key → Server → Server × Option Errno
lock_recover_request send rid key srv = elim (send srv.net.sent (recover rid key)) [
  | some e ↦ (srv, some e)
  | none ↦ (record srv { net = send_message srv.net (recover rid key) }, none)
]

unfoldable pub lock_server_greeting : Send → ℕ → Server → Server × Option Errno
lock_server_greeting send rid srv =
    if is_pending rid recov_locks srv.recov
    then lock_recover_request send rid key_set_zeros srv
    else (srv, none)

-- `scoutfs_server_set_seq_if_greater`
abbrev pub set_seq_if_greater : ℕ → Net → Net
set_seq_if_greater seq net = if ltb net.seq seq then record net { seq = seq } else net

-- A lock of a response, and whether `kzalloc` gives memory for its entry and for a new lock.
pub record Recovered : Type 0 where
  pub lock : NetLock
  pub entry_allocated : Bool
  pub lock_allocated : Bool

abbrev pub recovered_entry : ℕ → NetLock → Entry
recovered_entry rid nl = record { rid = rid; net_id = 0; mode = nl.new_mode }

-- The lock is granted again, and the next core seq is greater than its write seq.
abbrev pub recover_lock : ℕ → NetLock → Snode → Server → Server
recover_lock rid nl s srv =
    let granted = record s { granted = s.granted ++ recovered_entry rid nl ∷ [] } in
    record srv {
      locks = put_server_lock granted srv.locks;
      net = set_seq_if_greater nl.write_seq srv.net;
    }

-- The loop over the locks of a response.
unfoldable pub recover_locks : ℕ → List Recovered → Server → Server × Option Errno
recover_locks rid [] srv = (srv, none)
recover_locks rid (r ∷ rs) srv = elim r.entry_allocated [
  | false ↦ (srv, some enomem)
  | true ↦ elim (alloc_server_lock r.lock_allocated srv.locks r.lock.key) [
    | none ↦ (srv, some enomem)
    | some s ↦ elim (find_entry s.granted rid) [
      | some existing ↦ (put_only s srv, some eexist)
      | none ↦ recover_locks rid rs (recover_lock rid r.lock s srv)
    ]
  ]
]

-- The key after that of the last lock.
unfoldable pub next_recover_key : Recovered → List Recovered → Key
next_recover_key r [] = key_inc r.lock.key
next_recover_key r (q ∷ rs) = next_recover_key q rs

-- `finish_locks` is `scoutfs_server_recov_finish` for the locks of the client, which may go on to
-- `lock_server_finished_recovery`.
unfoldable pub lock_server_recover_response :
    Send → (ℕ → Server → Server) → ℕ → List Recovered → Server → Server × Option Errno
lock_server_recover_response send finish_locks rid rs srv =
    elim (is_pending rid recov_locks srv.recov) [
      | false ↦ (srv, some einval)
      | true ↦ elim rs [
        | [] ↦ (finish_locks rid srv, none)
        | q ∷ qs ↦ elim ((recover_locks rid (q ∷ qs) srv).1) [
          | some e ↦ recover_locks rid (q ∷ qs) srv
          | none ↦
              lock_recover_request send rid (next_recover_key q qs)
                (recover_locks rid (q ∷ qs) srv).0
        ]
      ]
    ]
