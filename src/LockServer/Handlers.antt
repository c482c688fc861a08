-- ===== src/LockServer/Handlers.antt =====
-- kmod/src/lock_server.c: the index of locks and the message handlers. The red-black tree of locks,
-- the kernel's, is a list in key order. A handler keeps a lock's mutex and reference until it is put, so
-- handlers of one lock follow one another, and the reference that it puts is the last.
use scoutfs.LockServer.{
  Entry, Net, NetLock, Send, Snode, find_entry, invalid_mode, lock_null, nonempty,
  process_waiting_requests, remove_entry,
}
use scoutfs.Key.{Key, key_compare, key_inc, key_set_zeros}
use scoutfs.Recov.{Recov}
use scoutfs.Prelude.{
  Bool, Errno, List, Option, Ordering, [], einval, enomem, false, if◌then◌else◌, none, not, some,
  suc, true, zero, ℕ, ◌++◌, ◌==◌, ◌||◌, ◌∷◌,
}

-- `struct lock_server_info`, with what the handlers use of the server: its messages, its recovery
-- state, and whether `scoutfs_server_stop` has been called.
pub record Server : Type 0 where
  pub locks : List Snode
  pub net : Net
  pub recov : Recov
  pub stopping : Bool

-- The search of the tree: the lock of the key or, with `or_next`, the first above it.
unfoldable pub get_server_lock : List Snode → Key → Bool → Option Snode
get_server_lock [] key or_next = none
get_server_lock (s ∷ ss) key or_next = elim (key_compare key s.key) [
  | Ordering.lt ↦ if or_next then some s else none
  | Ordering.eq ↦ some s
  | Ordering.gt ↦ get_server_lock ss key or_next
]

abbrev pub new_lock : Key → Snode
new_lock key = record { key = key; granted = []; requested = []; invalidated = [] }

-- `allocated` says whether `kzalloc` gave memory for a lock.
unfoldable pub alloc_server_lock : Bool → List Snode → Key → Option Snode
alloc_server_lock allocated ss key = elim (get_server_lock ss key false) [
  | some s ↦ some s
  | none ↦ if allocated then some (new_lock key) else none
]

abbrev pub is_unused : Snode → Bool
is_unused s = not (nonempty s.granted || nonempty s.requested || nonempty s.invalidated)

-- The lock as the handler leaves it goes back to its place, a new lock included; one with no entries is freed.
unfoldable pub put_server_lock : Snode → List Snode → List Snode
put_server_lock s [] = if is_unused s then [] else s ∷ []
put_server_lock s (t ∷ ts) = elim (key_compare s.key t.key) [
  | Ordering.lt ↦ if is_unused s then t ∷ ts else s ∷ t ∷ ts
  | Ordering.eq ↦ if is_unused s then ts else s ∷ ts
  | Ordering.gt ↦ t ∷ put_server_lock s ts
]

-- `process_waiting_requests` with the put that ends it.
unfoldable pub process_and_put : Send → Snode → Server → Server × Option Errno
process_and_put send s srv =
    let p = process_waiting_requests send srv.recov s srv.net in
    (record srv { locks = put_server_lock p.snode srv.locks; net = p.net }, p.result)

abbrev pub put_only : Snode → Server → Server
put_only s srv = record srv { locks = put_server_lock s srv.locks }

-- `entry_allocated` and `lock_allocated` say whether `kzalloc` gave memory.
unfoldable pub lock_server_request :
    Send → Bool → Bool → ℕ → ℕ → NetLock → Server → Server × Option Errno
unfolding invalid_mode
lock_server_request send entry_allocated lock_allocated rid net_id nl srv =
    if invalid_mode nl.old_mode || invalid_mode nl.new_mode
    then (srv, some einval)
    else if entry_allocated
    then elim (alloc_server_lock lock_allocated srv.locks nl.key) [
      | none ↦ (srv, some enomem)
      | some s ↦
          let c_ent : Entry = record { rid = rid; net_id = net_id; mode = nl.new_mode } in
          process_and_put send (record s { requested = s.requested ++ c_ent ∷ [] }) srv
    ]
    else (srv, some enomem)

-- The lock when the entry under invalidation is freed, or moved to the grants in its new mode.
unfoldable pub answered : Snode → Entry → NetLock → Snode
answered s c_ent nl =
    if nl.new_mode == lock_null
    then record s { invalidated = remove_entry s.invalidated c_ent.rid }
    else record s {
      granted = s.granted ++ record c_ent { mode = nl.new_mode } ∷ [];
      invalidated = remove_entry s.invalidated c_ent.rid;
    }

unfoldable pub lock_server_response : Send → ℕ → NetLock → Server → Server × Option Errno
unfolding invalid_mode
lock_server_response send rid nl srv =
    if invalid_mode nl.old_mode || invalid_mode nl.new_mode
    then (srv, some einval)
    else elim (get_server_lock srv.locks nl.key false) [
      | none ↦ (srv, some einval)
      | some s ↦ elim (find_entry s.invalidated rid) [
        | none ↦ (put_only s srv, some einval)
        | some c_ent ↦ process_and_put send (answered s c_ent nl) srv
      ]
    ]

-- The loop over the locks by `get_server_lock(key, or_next)`, `step` on each and the key after it,
-- until a step fails. `none` means that the fuel ran out.
unfoldable pub walk_locks :
    (Snode → Server → Server × Option Errno) → ℕ → Key → Server → Option (Server × Option Errno)
walk_locks step zero key srv = none
walk_locks step (suc fuel) key srv = elim (get_server_lock srv.locks key true) [
  | none ↦ some (srv, none)
  | some s ↦ elim ((step s srv).1) [
    | some e ↦ some (step s srv)
    | none ↦ walk_locks step fuel (key_inc s.key) (step s srv).0
  ]
]

unfoldable pub finished_step : Send → Snode → Server → Server × Option Errno
finished_step send s srv =
    if nonempty s.requested then process_and_put send s srv else (put_only s srv, none)

unfoldable pub lock_server_finished_recovery : Send → ℕ → Server → Option (Server × Option Errno)
lock_server_finished_recovery send fuel srv = walk_locks (finished_step send) fuel key_set_zeros srv

unfoldable pub drop_client : ℕ → List Entry → List Entry
drop_client rid [] = []
drop_client rid (e ∷ es) = if e.rid == rid then drop_client rid es else e ∷ drop_client rid es

unfoldable pub holds_client : ℕ → List Entry → Bool
holds_client rid [] = false
holds_client rid (e ∷ es) = e.rid == rid || holds_client rid es

abbrev pub without_client : ℕ → Snode → Snode
without_client rid s = record s {
  granted = drop_client rid s.granted;
  requested = drop_client rid s.requested;
  invalidated = drop_client rid s.invalidated;
}

unfoldable pub farewell_step : Send → ℕ → Snode → Server → Server × Option Errno
farewell_step send rid s srv =
    if holds_client rid s.granted || holds_client rid s.requested || holds_client rid s.invalidated
    then process_and_put send (without_client rid s) srv
    else (put_only s srv, none)

-- An error stops the server.
unfoldable pub lock_server_farewell : Send → ℕ → ℕ → Server → Option (Server × Option Errno)
lock_server_farewell send fuel rid srv =
    elim (walk_locks (farewell_step send rid) fuel key_set_zeros srv) [
      | none ↦ none
      | some (srv', none) ↦ some (srv', none)
      | some (srv', some e) ↦ some (record srv' { stopping = true }, some e)
    ]
