-- ===== src/Trans.antt =====
-- kmod/src/trans.c: the tasks that hold the open transaction, and the work that writes it. A wait is a step that
-- changes nothing.
pub mod Holders
pub mod Exclusion
pub mod Writer
mod Examples
use scoutfs.Prelude.{
  Bool, List, Option, [], false, if◌then◌else◌, length, ltb, none, not, some, suc, true, zero, ℕ,
  ◌%◌, ◌&&◌, ◌+◌, ◌-◌, ◌/◌, ◌<◌, ◌==◌, ◌^◌, ◌∷◌, ◌≡◌,
}

abbrev pub write_func_bit : ℕ
write_func_bit = 2 ^ 30

-- TRANS_JI_MAGIC
abbrev pub ji_magic : ℕ
ji_magic = 3580887040

-- Where `scoutfs_trans_write_func` is
pub data Phase : Type 0 where
  idle draining writing : Phase

-- The holders, the phase, and the journal_info of each task
pub record Trans : Type 0 where
  pub holders : ℕ
  pub phase : Phase
  pub journals : List ℕ
  pub write_count : ℕ

abbrev pub has_writer : ℕ → Bool
has_writer holders = (holders / write_func_bit) % 2 == 1

unfoldable pub drained_holders : Trans → Bool
drained_holders tri = tri.holders % write_func_bit == 0

-- The new journal_info, and whether the task was a holder before
unfoldable pub inc_journal_info_holders : ℕ → ℕ × Bool
inc_journal_info_holders ji =
    let holders = (if ji == 0 then ji_magic else ji) + 1 in (holders, ltb (ji_magic + 1) holders)

unfoldable pub dec_journal_info_holders : ℕ → ℕ
dec_journal_info_holders ji = if ji - 1 == ji_magic then 0 else ji - 1

unfoldable pub inc_holders_unless_writer : ℕ → Option ℕ
inc_holders_unless_writer holders = if has_writer holders then none else some (holders + 1)

unfoldable pub journal : ℕ → List ℕ → ℕ
journal t [] = 0
journal t (j ∷ js) = if t == 0 then j else journal (t - 1) js

unfoldable pub set_journal : (t ji : ℕ) → List ℕ → List ℕ
set_journal t ji [] = []
set_journal t ji (j ∷ js) = if t == 0 then ji ∷ js else j ∷ set_journal (t - 1) ji js

-- `scoutfs_hold_trans` as far as the task is a holder, or has to wait
unfoldable pub acquire : ℕ → Trans → Bool × Trans
acquire t tri =
    let ji = inc_journal_info_holders (journal t tri.journals) in
    if ji.1
    then (
      true,
      record tri { holders = tri.holders + 1; journals = set_journal t ji.0 tri.journals },
    )
    else elim (inc_holders_unless_writer tri.holders) [
      | none ↦ (false, tri)
      | some n ↦ (true, record tri { holders = n; journals = set_journal t ji.0 tri.journals })
    ]

unfoldable pub release_holders : ℕ → Trans → Trans
release_holders t tri = record tri {
  holders = tri.holders - 1;
  journals = set_journal t (dec_journal_info_holders (journal t tri.journals)) tri.journals;
}

-- What a call of `scoutfs_hold_trans` comes to in one pass of its loop
pub data Hold : Type 0 where
  held waits no_space commits : Hold

-- A task that held before holds again; another one gives its hold up again when the allocator is low for one that
-- allocates, or when a commit is due.
unfoldable pub hold_trans : (t : ℕ) → (allocing is_low is_due : Bool) → Trans → Hold × Trans
hold_trans t allocing is_low is_due tri =
    let was_holder = (inc_journal_info_holders (journal t tri.journals)).1 in
    let r = acquire t tri in
    if not r.0
    then (waits, r.1)
    else (if was_holder
        then (held, r.1)
        else (if allocing && is_low
            then (no_space, release_holders t r.1)
            else (if is_due then (commits, release_holders t r.1) else (held, r.1))))

-- `scoutfs_trans_write_func`: its start, its wait for the holders, and its end
unfoldable pub write_start : Trans → Trans
write_start tri = record tri { holders = tri.holders + write_func_bit; phase = draining }

unfoldable pub write_drained : Trans → Trans
write_drained tri = if drained_holders tri then record tri { phase = writing } else tri

unfoldable pub write_end : Trans → Trans
write_end tri = record tri {
  holders = tri.holders - write_func_bit;
  phase = idle;
  write_count = (tri.write_count + 1) % 2 ^ 64;
}

abbrev pub is_idle : Phase → Bool
is_idle idle = true
is_idle _ = false

-- Tasks hold and release, with fewer than 2^19 holds of a task and 2^29 of all, and the work runs once at a time.
pub data Step : Trans → Trans → Type 0 where
  holds :
      {tri : Trans}
      → (t : ℕ) → (allocing is_low is_due : Bool) → t < length tri.journals
      → tri.holders % write_func_bit < 2 ^ 29
      → ltb (journal t tri.journals) (ji_magic + 2 ^ 19) ≡ true
      → Step tri (hold_trans t allocing is_low is_due tri).1
  releases :
      {tri : Trans}
      → (t : ℕ) → t < length tri.journals
      → (journal t tri.journals == 0) ≡ false
      → Step tri (release_holders t tri)
  write_starts : {tri : Trans} → is_idle tri.phase ≡ true → Step tri (write_start tri)
  drains : {tri : Trans} → is_idle tri.phase ≡ false → Step tri (write_drained tri)
  write_ends : {tri : Trans} → tri.phase ≡ writing → Step tri (write_end tri)

unfoldable pub no_journals : ℕ → List ℕ
no_journals zero = []
no_journals (suc n) = 0 ∷ no_journals n

pub data Reach : Trans → Type 0 where
  start :
      (tasks : ℕ)
      → Reach (record { holders = 0; phase = idle; journals = no_journals tasks; write_count = 0 })
  step : {tri k : Trans} → Reach tri → Step tri k → Reach k
