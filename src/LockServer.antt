-- ===== src/LockServer.antt =====
-- kmod/src/lock_server.c: the lock server, which grants lock modes to clients and invalidates the
-- grants that stand in the way of a request. A handler holds the lock's mutex while it works on the
-- lock, so it is one step from a state to the next. Statistics, tracing and the tseq listings of
-- entries have no effect on this state and are left out.
pub mod Handlers
mod Recover
mod Walk
mod Ends
mod Restore
mod Held
mod Client
mod Index
mod System
mod Examples
mod Rules
mod Safety
mod Fifo
mod Seqs
use scoutfs.Key.{Key}
use scoutfs.Recov.{Recov, recov_locks, recov_next_pending}
use scoutfs.Prelude.{
  Bool, Errno, List, Option, [], false, if◌then◌else◌, leb, none, not, some, true, ℕ, ◌%◌, ◌&&◌,
  ◌++◌, ◌+◌, ◌==◌, ◌^◌, ◌||◌, ◌∷◌,
}

-- `enum scoutfs_lock_mode`
abbrev pub lock_null : ℕ
lock_null = 0

abbrev pub lock_read : ℕ
lock_read = 1

abbrev pub lock_write : ℕ
lock_write = 2

abbrev pub lock_write_only : ℕ
lock_write_only = 3

abbrev pub lock_invalid : ℕ
lock_invalid = 4

-- `struct client_lock_entry`
pub record Entry : Type 0 where
  pub rid : ℕ
  pub net_id : ℕ
  pub mode : ℕ

-- `struct server_lock_node`
pub record Snode : Type 0 where
  pub key : Key
  pub granted : List Entry
  pub requested : List Entry
  pub invalidated : List Entry

-- `struct scoutfs_net_lock`
pub record NetLock : Type 0 where
  pub key : Key
  pub write_seq : ℕ
  pub old_mode : ℕ
  pub new_mode : ℕ

-- What the server sends to a client: an invalidation request, a grant response to the request
-- `net_id`, and a recovery request.
pub data Message : Type 0 where
  invalidate : (rid : ℕ) → NetLock → Message
  grant : (rid net_id : ℕ) → NetLock → Message
  recover : (rid : ℕ) → Key → Message

-- The messages sent so far, oldest first, and `seq_atomic` of the server.
pub record Net : Type 0 where
  pub sent : List Message
  pub seq : ℕ

-- `scoutfs_net_submit_request_node` and `scoutfs_net_response_node`: whether a message fails.
abbrev pub Send : Type 0
Send = List Message → Message → Option Errno

abbrev pub send_message : Net → Message → Net
send_message n m = record n { sent = n.sent ++ m ∷ [] }

pub invalid_mode : ℕ → Bool
invalid_mode mode = leb lock_invalid mode

unfoldable pub invalidation_mode : ℕ → ℕ → ℕ
invalidation_mode granted requested =
    if granted == lock_write && requested == lock_read then lock_read else lock_null

unfoldable pub client_entries_compatible : Entry → Entry → Bool
client_entries_compatible granted requested =
    granted.mode == requested.mode && (granted.mode == lock_read || granted.mode == lock_write_only)
    || granted.rid == requested.rid && granted.mode == lock_read && requested.mode == lock_write

unfoldable pub find_entry : List Entry → ℕ → Option Entry
find_entry [] rid = none
find_entry (e ∷ es) rid = if e.rid == rid then some e else find_entry es rid

-- `free_client_entry` of the entry that `find_entry` returns.
unfoldable pub remove_entry : List Entry → ℕ → List Entry
remove_entry [] rid = []
remove_entry (e ∷ es) rid = if e.rid == rid then es else e ∷ remove_entry es rid

abbrev pub nonempty : List Entry → Bool
nonempty [] = false
nonempty (e ∷ es) = true

-- Where the inner loop over the grants stands when it ends; `result` is an error of a send.
pub record Invalidation : Type 0 where
  pub granted : List Entry
  pub invalidated : List Entry
  pub net : Net
  pub result : Option Errno

-- Where the outer loop over the requests stands when it ends.
pub record Progress : Type 0 where
  pub granted : List Entry
  pub requested : List Entry
  pub invalidated : List Entry
  pub net : Net
  pub result : Option Errno

module _ (send : Send) (key : Key) where
  abbrev pub invalidation : Entry → Entry → Message
  invalidation gr req = invalidate gr.rid (record {
    key = key;
    write_seq = 0;
    old_mode = gr.mode;
    new_mode = invalidation_mode gr.mode req.mode;
  })

  -- The inner loop of `process_waiting_requests`.
  unfoldable pub invalidate_grants : Entry → List Entry → List Entry → Net → Invalidation
  invalidate_grants req [] inv net = record {
    granted = [];
    invalidated = inv;
    net = net;
    result = none;
  }
  invalidate_grants req (gr ∷ grs) inv net = elim (client_entries_compatible gr req) [
    | true ↦
        let rest = invalidate_grants req grs inv net in record rest { granted = gr ∷ rest.granted }
    | false ↦ elim (send net.sent (invalidation gr req)) [
      | some e ↦ record { granted = gr ∷ grs; invalidated = inv; net = net; result = some e }
      | none ↦ invalidate_grants req grs (inv ++ gr ∷ []) (send_message net (invalidation gr req))
    ]
  ]

  abbrev pub is_write : ℕ → Bool
  is_write mode = mode == lock_write || mode == lock_write_only

  -- The seq that a write grant takes, `scoutfs_server_next_seq`.
  abbrev pub seq_for : Entry → Net → Net
  seq_for req net = if is_write req.mode then record net { seq = (net.seq + 1) % 2 ^ 64 } else net

  abbrev pub response : Entry → List Entry → Net → Message
  response req granted net = grant req.rid req.net_id (record {
    key = key;
    write_seq = if is_write req.mode then net.seq else 0;
    old_mode = elim (find_entry granted req.rid) [ none ↦ lock_null | some gr ↦ gr.mode ];
    new_mode = req.mode;
  })

  -- `granted` once the response is sent: null is not tracked.
  abbrev pub track : Entry → List Entry → List Entry
  track req granted = if req.mode == lock_null then granted else granted ++ req ∷ []

  -- The outer loop left at `break` or `goto out`, with the requests from the current one on.
  abbrev pub stopped : Invalidation → List Entry → List Entry → Net → Option Errno → Progress
  stopped i requested granted net result = record {
    granted = granted;
    requested = requested;
    invalidated = i.invalidated;
    net = net;
    result = result;
  }

  -- The outer loop of `process_waiting_requests`.
  unfoldable pub process_requests : List Entry → List Entry → List Entry → Net → Progress
  process_requests [] granted inv net = record {
    granted = granted;
    requested = [];
    invalidated = inv;
    net = net;
    result = none;
  }
  process_requests (req ∷ reqs) granted inv net =
      let i = invalidate_grants req granted inv net in
      let left = remove_entry i.granted req.rid in
      let net' = seq_for req i.net in
      let m = response req i.granted net' in
      elim i.result [
        | some e ↦ stopped i (req ∷ reqs) i.granted i.net (some e)
        | none ↦ elim (nonempty i.invalidated) [
          | true ↦ stopped i (req ∷ reqs) i.granted i.net none
          | false ↦ elim (send net'.sent m) [
            | some e ↦ stopped i (req ∷ reqs) left net' (some e)
            | none ↦ process_requests reqs (track req left) i.invalidated (send_message net' m)
          ]
        ]
      ]

-- The result of a step on one lock: the lock before it is put, the messages, and the error if any.
pub record Processed : Type 0 where
  pub snode : Snode
  pub net : Net
  pub result : Option Errno

unfoldable pub process_waiting_requests : Send → Recov → Snode → Net → Processed
process_waiting_requests send recov s net =
    let p = process_requests send s.key s.requested s.granted s.invalidated net in
    elim (nonempty s.invalidated || not (recov_next_pending 0 recov_locks recov == 0)) [
      | true ↦ record { snode = s; net = net; result = none }
      | false ↦ record {
        snode = record s {
          granted = p.granted;
          requested = p.requested;
          invalidated = p.invalidated;
        };
        net = p.net;
        result = p.result;
      }
    ]
