-- ===== src/Recov.antt =====
-- kmod/src/recov.c: the server's list of clients that still have to recover their state.
-- The spin lock makes each function atomic, so a function takes a state and returns the next one.
-- `list_sort` is the kernel's: it enters as the parameter `ListSort`.
mod Waiting
mod Order
mod Edit
pub mod Finish
pub mod Prepare
pub mod Next
mod Examples
use scoutfs.Prelude.{
  All, Bool, List, Option, Result, [], einval, enomem, err, false, if◌then◌else◌, ltb, none, not,
  ok, some, true, ℕ, ◌%◌, ◌&&◌, ◌++◌, ◌+◌, ◌-◌, ◌==◌, ◌^◌, ◌||◌, ◌∷◌, ◌≡◌, ◌≤◌,
}

-- The bits of the int `which`: GREETING, LOCKS, and whether any bit of INVALID is set.
pub record Which : Type 0 where
  pub greeting : Bool
  pub locks : Bool
  pub invalid : Bool

-- `SCOUTFS_RECOV_ALL`
abbrev pub recov_all : Which
recov_all = record { greeting = true; locks = true; invalid = false }

-- `SCOUTFS_RECOV_LOCKS`
abbrev pub recov_locks : Which
recov_locks = record { greeting = false; locks = true; invalid = false }

-- `SCOUTFS_RECOV_GREETING`
abbrev pub recov_greeting : Which
recov_greeting = record { greeting = true; locks = false; invalid = false }

-- `a & b` as a condition, `a | b`, and `a & ~b`.
abbrev pub meets : Which → Which → Bool
meets a b = a.greeting && b.greeting || a.locks && b.locks || a.invalid && b.invalid

abbrev pub union : Which → Which → Which
union a b = record {
  greeting = a.greeting || b.greeting;
  locks = a.locks || b.locks;
  invalid = a.invalid || b.invalid;
}

abbrev pub without : Which → Which → Which
without a b = record {
  greeting = a.greeting && not b.greeting;
  locks = a.locks && not b.locks;
  invalid = a.invalid && not b.invalid;
}

-- `which` as a condition.
abbrev pub nonzero : Which → Bool
nonzero a = a.greeting || a.locks || a.invalid

-- `struct recov_pending`
pub record Pending : Type 0 where
  pub rid : ℕ
  pub which : Which

-- `struct recov_info`: `timeout_fn` is NULL or some callback, `timer` is armed with its expiry.
pub record Recov : Type 0 where
  pub pending : List Pending
  pub timeout_fn : Option ℕ
  pub timer : Option ℕ

abbrev pub count : (Pending → Bool) → List Pending → ℕ
count test [] = 0
count test (p ∷ ps) = (if test p then 1 else 0) + count test ps

-- Each item's rid is at most those behind it.
abbrev pub Sorted : List Pending → Type 0
Sorted [] = Unit {0}
Sorted (p ∷ ps) = All (λ q. p.rid ≤ q.rid) ps × Sorted ps

-- The kernel's `list_sort` by `cmp_pending_rid`: the same items, as often, with rids that do not fall.
pub record ListSort : Type 0 where
  pub sort : List Pending → List Pending
  pub sort-Sorted : (ps : List Pending) → Sorted (sort ps)
  pub sort-count :
      (test : Pending → Bool) (ps : List Pending) → count test (sort ps) ≡ count test ps

unfoldable pub find_first : (Pending → Bool) → List Pending → Option Pending
find_first test [] = none
find_first test (p ∷ ps) = if test p then some p else find_first test ps

-- A change through the pointer to the item that `find_first` returns: it is replaced in its place.
pub edit_first : (Pending → Bool) → (Pending → List Pending) → List Pending → List Pending
edit_first test f [] = []
edit_first test f (p ∷ ps) = if test p then f p ++ ps else p ∷ edit_first test f ps

-- The condition of the loop in `next_pending`.
abbrev pub is_after : ℕ → Which → Pending → Bool
is_after rid which p = ltb rid p.rid && meets p.which which

unfoldable pub next_pending : List Pending → ℕ → Which → Option Pending
unfolding find_first
next_pending ps rid which = find_first (is_after rid which) ps

-- `rid - 1` on u64.
abbrev pub rid_before : ℕ → ℕ
rid_before rid = (rid + (2 ^ 64 - 1)) % 2 ^ 64

unfoldable pub lookup_pending : List Pending → ℕ → Which → Option Pending
unfolding next_pending
lookup_pending ps rid which = elim (next_pending ps (rid_before rid) which) [
  | none ↦ none
  | some p ↦ if p.rid == rid then some p else none
]

abbrev pub edit_pending : List Pending → ℕ → Which → (Pending → List Pending) → List Pending
edit_pending ps rid which f = edit_first (is_after (rid_before rid) which) f ps

-- `allocated` says whether `kmalloc` gave memory.
unfoldable pub prepare : ListSort → Bool → ℕ → Which → Recov → Result Recov
prepare s allocated rid which r =
    if which.invalid
    then err einval
    else if allocated
    then ok (record r {
      pending = elim (lookup_pending r.pending rid recov_all) [
        | some p ↦
            edit_pending r.pending rid recov_all
              (λ q. record q { which = union q.which which } ∷ [])
        | none ↦ s.sort (r.pending ++ record { rid = rid; which = which } ∷ [])
      ];
    })
    else err enomem

pub is_empty : List Pending → Bool
is_empty [] = true
is_empty (p ∷ ps) = false

unfoldable pub recov_finished : Recov → Bool
unfolding is_empty
recov_finished r = elim r.timeout_fn [ none ↦ false | some f ↦ is_empty r.pending ]

-- `del_timer_sync` when the result is positive.
abbrev pub stop_timer_if : Bool → Recov → Recov
stop_timer_if done r = if done then record r { timer = none } else r

-- `expires` is `jiffies + msecs_to_jiffies(timeout_ms)`. The result is `ret > 0`.
unfoldable pub begin : ℕ → ℕ → Recov → Recov × Bool
unfolding recov_finished
begin timeout_fn expires r =
    let started = record r { timeout_fn = some timeout_fn; timer = some expires } in
    let done = recov_finished started in (stop_timer_if done started, done)

-- The item behind the pointer after `pend->which &= ~which`: kept, or deleted when no bit is left.
abbrev pub finished_item : Which → Pending → List Pending
finished_item which q =
    let left = without q.which which in if nonzero left then record q { which = left } ∷ [] else []

unfoldable pub finish : ℕ → Which → Recov → Recov × Bool
unfolding recov_finished
finish rid which r = elim (lookup_pending r.pending rid which) [
  | none ↦ (r, false)
  | some p ↦
      let r' = record r { pending = edit_pending r.pending rid which (finished_item which) } in
      let done = not (nonzero (without p.which which)) && recov_finished r' in
      (stop_timer_if done r', done)
]

unfoldable pub is_pending : ℕ → Which → Recov → Bool
is_pending rid which r = elim (lookup_pending r.pending rid which) [ none ↦ false | some p ↦ true ]

unfoldable pub recov_next_pending : ℕ → Which → Recov → ℕ
unfolding next_pending
recov_next_pending rid which r = elim (next_pending r.pending rid which) [
  | none ↦ 0
  | some p ↦ p.rid
]

unfoldable pub shutdown : Recov → Recov
shutdown r = record { pending = []; timeout_fn = none; timer = none }

-- `scoutfs_recov_setup`, where the allocation succeeds.
abbrev pub setup : Recov
setup = record { pending = []; timeout_fn = none; timer = none }
