-- ===== src/LockServer/Ends.antt =====
-- The walks over all locks return, with one turn of fuel for each lock and one more.
use scoutfs.Recov.{Recov, recov_locks, recov_next_pending}
use scoutfs.LockServer.{Net, Send, Snode, nonempty, process_waiting_requests}
use scoutfs.LockServer.Handlers.{
  Server, farewell_step, finished_step, get_server_lock, holds_client, lock_server_farewell,
  lock_server_finished_recovery, process_and_put, put_only, put_server_lock, walk_locks,
  without_client,
}
use scoutfs.LockServer.Index.{All-get_server_lock, All-put_server_lock}
use scoutfs.LockServer.Walk.{
  is_higher, is_lower, locks_above, locks_above-get, locks_above-put, locks_from,
}
use scoutfs.Key.{IsKey, Key, key_compare, key_inc, key_set_ones, key_set_zeros}
use scoutfs.Key.Succ.{key_inc-IsKey, key_inc-value}
use scoutfs.Key.Order.{key_compare-value, key_value-injective}
use scoutfs.Prelude.{
  All, Bool-cases, Errno, List, Option, Option-cases, [], arith, inl, inr, length, none, not, refl,
  some, subst, suc, sym, true, zero, ℕ, ◌<◌, ◌==◌, ◌||◌, ◌∷◌, ◌≡◌, ◌≢◌, ◌≤◌,
}

-- Each key is within its widths and has a next one.
abbrev pub HasNext : Key → Type 0
HasNext key = IsKey key × (key ≢ key_set_ones)

abbrev pub AllNext : List Snode → Type 0
AllNext ss = All (λ t. HasNext t.key) ss

inc_above :
    (a b : Key)
    → HasNext a
    → IsKey b
    → is_higher (key_compare (key_inc a) b) ≡ not (is_lower (key_compare a b))
inc_above a b (va, below) vb = ground (
  arith,
  key_compare-value a b va vb,
  key_compare-value (key_inc a) b (key_inc-IsKey a va) vb,
  key_inc-value a va,
  key_value-injective a key_set_ones va (omega arith),
)

locks_from-inc :
    (ss : List Snode)
    → (a : Key) → HasNext a
    → AllNext ss
    → locks_from (key_inc a) ss ≡ locks_above a ss
unfolding locks_from locks_above
locks_from-inc [] a n all = refl
locks_from-inc (t ∷ ts) a n all =
    ground (arith, inc_above a t.key n all.0.0, locks_from-inc ts a n all.1)

All-IsKey : (ss : List Snode) → AllNext ss → All (λ t. IsKey t.key) ss
All-IsKey [] all = tt
All-IsKey (s ∷ ss) all = (all.0.0, All-IsKey ss all.1)

-- A step that puts back a lock with the key it got.
record Stays (key : Key) (srv srv' : Server) : Type 0 where
  keys : AllNext srv'.locks
  above : locks_above key srv'.locks ≡ locks_above key srv.locks

walk_locks_ends :
    (step : Snode → Server → Server × Option Errno)
    → ((s : Snode) (srv : Server)
        → HasNext s.key
        → AllNext srv.locks
        → Stays s.key srv (step s srv).0)
    → (fuel : ℕ) → (key : Key) → (srv : Server) → IsKey key
    → AllNext srv.locks
    → locks_from key srv.locks < fuel
    → (r : Server × Option Errno) × (walk_locks step fuel key srv ≡ some r)
unfolding walk_locks
walk_locks_ends step stays zero key srv vk all enough = absurd (omega arith)
walk_locks_ends step stays (suc fuel) key srv vk all enough =
    elim (Option-cases (get_server_lock srv.locks key true)) [
      | inl done ↦ rw (done, walk_locks) ((srv, none), refl)
      | inr (s, there) ↦ elim (Option-cases ((step s srv).1)) [
        | inr (e, fails) ↦ rw (there, fails, walk_locks) (step s srv, refl)
        | inl fine ↦
            let n : HasNext s.key =
              All-get_server_lock (λ t. HasNext t.key) srv.locks key true s all there in
            let kept = stays s srv n all in
            let less = locks_above-get srv.locks key s vk (All-IsKey srv.locks all) there in
            let from = locks_from-inc (step s srv).0.locks s.key n kept.keys in
            rw (there, fine, walk_locks)
              (walk_locks_ends step stays fuel (key_inc s.key) (step s srv).0
                (key_inc-IsKey s.key n.0) kept.keys (omega (arith, less, from, kept.above, enough)))
      ]
    ]

put-Stays :
    (s : Snode)
    → (srv : Server) → HasNext s.key
    → AllNext srv.locks
    → Stays s.key srv (put_only s srv)
put-Stays s srv n all = record {
  keys = All-put_server_lock (λ t. HasNext t.key) s srv.locks n all;
  above = locks_above-put s srv.locks;
}

process-key :
    (send : Send)
    → (recov : Recov) → (s : Snode) → (net : Net)
    → (process_waiting_requests send recov s net).snode.key ≡ s.key
unfolding process_waiting_requests
process-key send recov s net =
    elim (Bool-cases
      (nonempty s.invalidated || not (recov_next_pending 0 recov_locks recov == 0))) [
        | inl waits ↦ rw (waits, process_waiting_requests) refl
        | inr goes ↦ rw (goes, process_waiting_requests) refl
      ]

process_and_put-Stays :
    (send : Send)
    → (s : Snode) → (srv : Server) → HasNext s.key
    → AllNext srv.locks
    → Stays s.key srv (process_and_put send s srv).0
unfolding process_and_put
process_and_put-Stays send s srv n all =
    let p = process_waiting_requests send srv.recov s srv.net in
    let key = process-key send srv.recov s srv.net in
    let kept = put-Stays p.snode srv (subst HasNext (sym key) n) all in
    record {
      keys = kept.keys;
      above =
          subst (λ k. locks_above k (put_server_lock p.snode srv.locks) ≡ locks_above k srv.locks)
            key kept.above;
    }

finished_step-Stays :
    (send : Send)
    → (s : Snode) → (srv : Server) → HasNext s.key
    → AllNext srv.locks
    → Stays s.key srv (finished_step send s srv).0
unfolding finished_step
finished_step-Stays send s srv n all = elim (Bool-cases (nonempty s.requested)) [
  | inl waits ↦ rw (waits, finished_step) (process_and_put-Stays send s srv n all)
  | inr quiet ↦ rw (quiet, finished_step) (put-Stays s srv n all)
]

farewell_step-Stays :
    (send : Send)
    → (rid : ℕ) → (s : Snode) → (srv : Server) → HasNext s.key
    → AllNext srv.locks
    → Stays s.key srv (farewell_step send rid s srv).0
unfolding farewell_step
farewell_step-Stays send rid s srv n all =
    elim (Bool-cases (
      holds_client rid s.granted
      || holds_client rid s.requested
      || holds_client rid s.invalidated)) [
        | inl held ↦
            rw (held, farewell_step) (process_and_put-Stays send (without_client rid s) srv n all)
        | inr free ↦ rw (free, farewell_step) (put-Stays s srv n all)
      ]

locks_from-le : (ss : List Snode) → (key : Key) → locks_from key ss ≤ length ss
unfolding locks_from
locks_from-le [] key = omega arith
locks_from-le (s ∷ ss) key = ground (arith, locks_from-le ss key)

farewell_ends :
    (send : Send)
    → (fuel rid : ℕ) → (srv w : Server) → (r : Option Errno)
    → walk_locks (farewell_step send rid) fuel key_set_zeros srv ≡ some (w, r)
    → (q : Server × Option Errno) × (lock_server_farewell send fuel rid srv ≡ some q)
unfolding lock_server_farewell
farewell_ends send fuel rid srv w none walked = rw (walked, lock_server_farewell) ((w, none), refl)
farewell_ends send fuel rid srv w (some e) walked =
    rw (walked, lock_server_farewell) ((record w { stopping = true }, some e), refl)

-- The end of recovery and a client's farewell both return, with fuel for one turn more than there are locks, whatever
-- sends fail. Each lock's key is within its widths and is not the last key of all, behind which the walk would start
-- from the first key again.
pub walks_return :
    (send : Send)
    → (fuel rid : ℕ) → (srv : Server) → AllNext srv.locks
    → length srv.locks < fuel
    → ((r : Server × Option Errno) × (lock_server_finished_recovery send fuel srv ≡ some r))
      × ((r : Server × Option Errno) × (lock_server_farewell send fuel rid srv ≡ some r))
unfolding lock_server_finished_recovery lock_server_farewell
walks_return send fuel rid srv all enough =
    let turns : locks_from key_set_zeros srv.locks < fuel =
      omega (arith, locks_from-le srv.locks key_set_zeros) in
    let zeros : IsKey key_set_zeros = omega arith in
    let ((w, r), walked) =
      walk_locks_ends (farewell_step send rid) (farewell_step-Stays send rid) fuel key_set_zeros srv
        zeros all turns in
    (
      walk_locks_ends (finished_step send) (finished_step-Stays send) fuel key_set_zeros srv zeros
          all turns,
      farewell_ends send fuel rid srv w r walked,
    )
