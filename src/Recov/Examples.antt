-- ===== src/Recov/Examples.antt =====
-- Tests and concrete instances, with an insertion sort in the place of the kernel's `list_sort`.
use scoutfs.Recov.{
  ListSort, Pending, Recov, Sorted, Which, count, edit_first, find_first, finish, is_pending,
  lookup_pending, prepare, recov_all, recov_finished, recov_greeting, recov_locks,
  recov_next_pending,
}
use scoutfs.Recov.Waiting.{IsRecov, is_waiting}
use scoutfs.Recov.Prepare.{prepare-is_waiting}
use scoutfs.Recov.Finish.{finish-is_waiting, finish_once}
use scoutfs.Recov.Next.{is_pending-is_waiting, recov_next_pending-least}
use scoutfs.Prelude.{
  All, Bool, Bool-cases, List, [], arith, false, if◌then◌else◌, inl, inr, ltb, none, ok, refl, some,
  true, ℕ, ◌<◌, ◌↔◌, ◌∷◌, ◌≡◌, ◌≢◌, ◌≤◌, ◌⊎◌,
}

insert : Pending → List Pending → List Pending
insert p [] = p ∷ []
insert p (q ∷ ps) = if ltb p.rid q.rid then p ∷ q ∷ ps else q ∷ insert p ps

insertion_sort : List Pending → List Pending
insertion_sort [] = []
insertion_sort (p ∷ ps) = insert p (insertion_sort ps)

insert-count :
    (test : Pending → Bool) (p : Pending) (ps : List Pending)
    → count test (insert p ps) ≡ count test (p ∷ ps)
unfolding insert
insert-count test p [] = refl
insert-count test p (q ∷ ps) = ground (arith, insert-count test p ps)

insertion_sort-count :
    (test : Pending → Bool) (ps : List Pending) → count test (insertion_sort ps) ≡ count test ps
unfolding insertion_sort
insertion_sort-count test [] = refl
insertion_sort-count test (p ∷ ps) =
    omega (arith, insert-count test p (insertion_sort ps), insertion_sort-count test ps)

All-le-insert :
    (n : ℕ) (p : Pending) (ps : List Pending)
    → n ≤ p.rid
    → All (λ q. n ≤ q.rid) ps
    → All (λ q. n ≤ q.rid) (insert p ps)
unfolding insert
All-le-insert n p [] h all = (h, tt)
All-le-insert n p (q ∷ ps) h all = ground (arith, All-le-insert n p ps h all.1)

All-le_mono :
    (a b : ℕ) (ps : List Pending) → a ≤ b → All (λ q. b ≤ q.rid) ps → All (λ q. a ≤ q.rid) ps
All-le_mono a b [] h all = tt
All-le_mono a b (p ∷ ps) h all = (omega arith, All-le_mono a b ps h all.1)

insert-Sorted : (p : Pending) (ps : List Pending) → Sorted ps → Sorted (insert p ps)
unfolding insert
insert-Sorted p [] s = (tt, tt)
insert-Sorted p (q ∷ ps) s = elim (Bool-cases (ltb p.rid q.rid)) [
  | inl lower ↦
      rw (lower, insert) ((ground arith, All-le_mono p.rid q.rid ps (ground arith) s.0), s)
  | inr higher ↦
      rw (higher, insert) (All-le-insert q.rid p ps (ground arith) s.0, insert-Sorted p ps s.1)
]

insertion_sort-Sorted : (ps : List Pending) → Sorted (insertion_sort ps)
unfolding insertion_sort
insertion_sort-Sorted [] = tt
insertion_sort-Sorted (p ∷ ps) = insert-Sorted p (insertion_sort ps) (insertion_sort-Sorted ps)

abbrev by_insertion : ListSort
by_insertion = record {
  sort = insertion_sort;
  sort-Sorted = insertion_sort-Sorted;
  sort-count = insertion_sort-count;
}

abbrev two_clients : Recov
two_clients = record {
  pending = record { rid = 5; which = recov_locks } ∷ record { rid = 9; which = recov_all } ∷ [];
  timeout_fn = some 1;
  timer = some 100;
}

abbrev last_client : Recov
last_client = record {
  pending = record { rid = 9; which = recov_locks } ∷ [];
  timeout_fn = some 1;
  timer = some 100;
}

two_clients-IsRecov : IsRecov two_clients.pending
two_clients-IsRecov = record { ordered = omega arith; items = ground arith }

last_client-IsRecov : IsRecov last_client.pending
last_client-IsRecov = record { ordered = omega arith; items = ground arith }

-- A third client goes between the two.
prepare_third :
    prepare by_insertion true 7 recov_greeting two_clients
    ≡ ok (record two_clients {
      pending =
          record { rid = 5; which = recov_locks }
          ∷ record { rid = 7; which = recov_greeting }
          ∷ record { rid = 9; which = recov_all }
          ∷ [];
    })
unfolding prepare lookup_pending find_first insertion_sort insert
prepare_third = refl

finish_last : (finish 9 recov_locks last_client).1 ≡ true
unfolding finish lookup_pending find_first edit_first recov_finished
finish_last = refl

prepare-is_waiting_example :
    (r' : Recov) × (prepare by_insertion true 7 recov_greeting two_clients ≡ ok r')
    × IsRecov r'.pending
    × (is_waiting r'.pending 7 recov_all ≡ true)
prepare-is_waiting_example =
    prepare-is_waiting by_insertion two_clients 7 recov_greeting 7 recov_all two_clients-IsRecov
      (omega arith) (omega arith) refl refl

finish-is_waiting_example :
    IsRecov (finish 9 recov_greeting two_clients).0.pending
    × (is_waiting (finish 9 recov_greeting two_clients).0.pending 9 recov_all ≡ true)
finish-is_waiting_example =
    finish-is_waiting two_clients 9 recov_greeting 9 recov_all two_clients-IsRecov (omega arith)
      (omega arith)

finish_once_example :
    (((finish 9 recov_locks last_client).1 ≡ true) ↔ (
      (last_client.timeout_fn ≢ none)
      × (last_client.pending ≢ [])
      × ((finish 9 recov_locks last_client).0.pending ≡ [])))
    × ((finish 9 recov_locks last_client).1 ≡ true
        → ((finish 9 recov_locks last_client).0.timer ≡ none)
          × ((rid' : ℕ) (which' : Which)
              → (finish rid' which' (finish 9 recov_locks last_client).0).1 ≡ false))
finish_once_example =
    finish_once last_client 9 recov_locks last_client-IsRecov (omega arith) (omega arith)

recov_next_pending-least_example :
    let n = recov_next_pending 5 recov_locks two_clients in
    ((n ≡ 0) × ((k : ℕ) → 5 < k → is_waiting two_clients.pending k recov_locks ≡ false))
    ⊎ ((5 < n)
        × (is_waiting two_clients.pending n recov_locks ≡ true)
        × ((k : ℕ) → 5 < k → k < n → is_waiting two_clients.pending k recov_locks ≡ false))
recov_next_pending-least_example =
    recov_next_pending-least two_clients 5 recov_locks two_clients-IsRecov

is_pending-is_waiting_example : is_pending 9 recov_greeting two_clients ≡ true
is_pending-is_waiting_example =
    is_pending-is_waiting two_clients 9 recov_greeting two_clients-IsRecov (omega arith)
      (omega arith)
