-- ===== src/LockServer/Examples.antt =====
-- Tests and concrete instances of the lock server.
use scoutfs.LockServer.{
  Entry, Net, NetLock, Send, Snode, client_entries_compatible, find_entry, invalidate_grants,
  lock_null, lock_read, lock_write, process_requests, process_waiting_requests, remove_entry,
}
use scoutfs.LockServer.Handlers.{
  Server, alloc_server_lock, answered, get_server_lock, lock_server_farewell,
  lock_server_finished_recovery, lock_server_request, lock_server_response, process_and_put,
  put_server_lock,
}
use scoutfs.LockServer.Fifo.{
  answers, asks, holders, notices, process_waiting_requests-answers,
  process_waiting_requests-notices,
}
use scoutfs.LockServer.System.{
  IsServer, Reach-IsServer, RespondsTo, here, next, requests, responds, start,
}
use scoutfs.LockServer.Recover.{Recovered, lock_server_recover_response, recover_locks}
use scoutfs.LockServer.Ends.{AllNext, walks_return}
use scoutfs.Key.{Key, key_compare}
use scoutfs.Recov.{
  find_first, is_pending, lookup_pending, next_pending, recov_locks, recov_next_pending, setup,
}
use scoutfs.Prelude.{
  Errno, Option, [], ap, arith, length, none, refl, some, true, ℕ, ◌++◌, ◌<◌, ◌∷◌, ◌≡◌,
}

abbrev all_sent : Send
all_sent sent m = none

abbrev root_key : Key
root_key = record { zone = 1; first = 1; type = 0; second = 0; third = 0; fourth = 0 }

abbrev ask_for : ℕ → NetLock
ask_for mode = record { key = root_key; write_seq = 0; old_mode = lock_null; new_mode = mode }

-- Client 1 takes a write lock.
abbrev one_writer : Server
one_writer = (lock_server_request all_sent true true 1 10 (ask_for lock_write) start).0

-- Client 2 asks for a read lock: client 1 is told to keep a read lock.
abbrev reader_waits : Server
reader_waits = (lock_server_request all_sent true true 2 20 (ask_for lock_read) one_writer).0

abbrev read_kept : NetLock
read_kept = record { key = root_key; write_seq = 0; old_mode = lock_write; new_mode = lock_read }

-- Client 1 answers, and both read.
abbrev two_readers : Server
two_readers = (lock_server_response all_sent 1 read_kept reader_waits).0

abbrev held : ℕ → ℕ → ℕ → Entry
held rid net_id mode = record { rid = rid; net_id = net_id; mode = mode }

reader_waits_locks :
    reader_waits.locks
    ≡ record {
      key = root_key;
      granted = [];
      requested = held 2 20 lock_read ∷ [];
      invalidated = held 1 10 lock_write ∷ [];
    }
      ∷ []
unfolding lock_server_request lock_server_response get_server_lock alloc_server_lock process_and_put
    put_server_lock process_waiting_requests recov_next_pending process_requests invalidate_grants
    remove_entry key_compare client_entries_compatible find_entry answered
reader_waits_locks = refl

two_readers_locks :
    two_readers.locks
    ≡ record {
      key = root_key;
      granted = held 1 10 lock_read ∷ held 2 20 lock_read ∷ [];
      requested = [];
      invalidated = [];
    }
      ∷ []
unfolding lock_server_request lock_server_response get_server_lock alloc_server_lock process_and_put
    put_server_lock process_waiting_requests recov_next_pending process_requests invalidate_grants
    remove_entry key_compare client_entries_compatible find_entry answered
two_readers_locks = refl

abbrev waiting_lock : Snode
waiting_lock = record {
  key = root_key;
  granted = held 1 10 lock_write ∷ [];
  requested = held 2 20 lock_read ∷ held 3 30 lock_write ∷ [];
  invalidated = [];
}

abbrev quiet_net : Net
quiet_net = record { sent = []; seq = 5 }

-- The entry under invalidation is that of client 1, which wrote.
read_kept-Obeys : RespondsTo reader_waits 1 read_kept
unfolding lock_server_request lock_server_response get_server_lock alloc_server_lock process_and_put
    put_server_lock process_waiting_requests recov_next_pending process_requests invalidate_grants
    remove_entry key_compare client_entries_compatible find_entry answered
read_kept-Obeys s c there found = ground arith

Reach-IsServer_example : IsServer two_readers
Reach-IsServer_example = Reach-IsServer all_sent (
    next
      (next (next here (requests true true 1 10 (ask_for lock_write)))
        (requests true true 2 20 (ask_for lock_read)))
      (responds 1 read_kept read_kept-Obeys))

process_waiting_requests-answers_example :
    let p = process_waiting_requests all_sent setup waiting_lock quiet_net in
    answers p.net.sent ++ asks p.snode.requested ≡ answers [] ++ asks waiting_lock.requested
process_waiting_requests-answers_example =
    process_waiting_requests-answers all_sent setup waiting_lock quiet_net

process_waiting_requests-notices_example :
    let p = process_waiting_requests all_sent setup waiting_lock quiet_net in
    notices p.net.sent ≡ [] ++ holders p.snode.invalidated
process_waiting_requests-notices_example =
    process_waiting_requests-notices all_sent setup waiting_lock quiet_net [] refl

-- Client 7 still has to restore its locks.
abbrev recovering : Server
recovering = record start {
  recov = record setup { pending = record { rid = 7; which = recov_locks } ∷ [] };
}

abbrev old_write : Recovered
old_write = record {
  lock = record (ask_for lock_write) { write_seq = 41 };
  entry_allocated = true;
  lock_allocated = true;
}

abbrev nothing_finished : ℕ → Server → Server
nothing_finished rid srv = srv

restored_locks :
    (lock_server_recover_response all_sent nothing_finished 7 (old_write ∷ []) recovering).0.locks
    ≡ record {
      key = root_key;
      granted = held 7 0 lock_write ∷ [];
      requested = [];
      invalidated = [];
    }
      ∷ []
unfolding lock_server_recover_response is_pending lookup_pending next_pending find_first
    recover_locks alloc_server_lock get_server_lock find_entry put_server_lock
restored_locks = refl

two_readers-AllNext : AllNext two_readers.locks
two_readers-AllNext =
    rw two_readers_locks
      ((omega arith, λ e. absurd (omega (arith, ap (λ (k : Key). k.zone) e))), tt)

length-two_readers : length two_readers.locks < 2
length-two_readers = rw two_readers_locks (omega arith)

walks_return_example :
    ((r : Server × Option Errno) × (lock_server_finished_recovery all_sent 2 two_readers ≡ some r))
    × ((r : Server × Option Errno) × (lock_server_farewell all_sent 2 1 two_readers ≡ some r))
walks_return_example = walks_return all_sent 2 1 two_readers two_readers-AllNext length-two_readers
