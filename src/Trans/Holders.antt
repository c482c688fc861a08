-- ===== src/Trans/Holders.antt =====
-- The holders of the transaction are the tasks' holds and the writer, and no task holds while it is written.
use scoutfs.Trans.{
  Trans, dec_journal_info_holders, inc_journal_info_holders, is_idle, ji_magic, journal,
  set_journal, write_func_bit, writing,
}
use scoutfs.Prelude.{
  All, Bool-cases, List, [], arith, if◌then◌else◌, inl, inr, length, not, refl, ℕ, ◌+◌, ◌-◌, ◌<◌,
  ◌==◌, ◌∷◌, ◌≡◌, ◌≤◌, ◌⊎◌,
}

-- The holds of all tasks
unfoldable pub total : List ℕ → ℕ
total [] = 0
total (j ∷ js) = (j - ji_magic) + total js

abbrev pub IsJournal : ℕ → Type 0
IsJournal ji = (ji ≡ 0) ⊎ (ji_magic < ji)

pub record IsTrans (tri : Trans) : Type 0 where
  pub balance : tri.holders ≡ total tri.journals + (if is_idle tri.phase then 0 else write_func_bit)
  pub bounded : total tri.journals < write_func_bit
  pub words : All IsJournal tri.journals
  pub drained : tri.phase ≡ writing → total tri.journals ≡ 0

pub total-set_journal :
    (t x : ℕ)
    → (js : List ℕ) → t < length js
    → total (set_journal t x js) + (journal t js - ji_magic) ≡ total js + (x - ji_magic)
unfolding total set_journal journal
total-set_journal t x [] h = absurd (omega (arith, h))
total-set_journal t x (j ∷ js) h = ground (arith, total-set_journal (t - 1) x js)

pub length-set_journal : (t x : ℕ) → (js : List ℕ) → length (set_journal t x js) ≡ length js
unfolding set_journal
length-set_journal t x [] = refl
length-set_journal t x (j ∷ js) = ground (arith, length-set_journal (t - 1) x js)

pub journal-set_journal :
    (t x : ℕ) → (js : List ℕ) → t < length js → journal t (set_journal t x js) ≡ x
unfolding set_journal journal
journal-set_journal t x [] h = absurd (omega (arith, h))
journal-set_journal t x (j ∷ js) h = ground (arith, journal-set_journal (t - 1) x js)

pub journal-total : (t : ℕ) → (js : List ℕ) → journal t js - ji_magic ≤ total js
unfolding journal total
journal-total t [] = omega arith
journal-total t (j ∷ js) = ground (arith, journal-total (t - 1) js)

pub journal-IsJournal : (t : ℕ) → (js : List ℕ) → All IsJournal js → IsJournal (journal t js)
unfolding journal
journal-IsJournal t [] w = inl refl
journal-IsJournal t (j ∷ js) w = elim (Bool-cases (t == 0)) [
  | inl here ↦ rw here w.0
  | inr later ↦ rw later (journal-IsJournal (t - 1) js w.1)
]

set_journal-IsJournal :
    (t x : ℕ) → (js : List ℕ) → IsJournal x → All IsJournal js → All IsJournal (set_journal t x js)
unfolding set_journal
set_journal-IsJournal t x [] v w = tt
set_journal-IsJournal t x (j ∷ js) v w = elim (Bool-cases (t == 0)) [
  | inl here ↦ rw here (v, w.1)
  | inr later ↦ rw later (w.0, set_journal-IsJournal (t - 1) x js v w.1)
]

-- One more hold of a task, whose journal_info was `ji`
pub more :
    (ji : ℕ)
    → IsJournal ji
    → ((inc_journal_info_holders ji).0 - ji_magic ≡ (ji - ji_magic) + 1)
      × (ji_magic < (inc_journal_info_holders ji).0)
      × ((inc_journal_info_holders ji).1 ≡ not (ji == 0))
unfolding inc_journal_info_holders
more ji (inl e) = rw e (refl, omega arith, refl)
more ji (inr up) = (ground arith, ground arith, ground arith)

pub fewer :
    (ji : ℕ)
    → ji_magic < ji
    → (dec_journal_info_holders ji - ji_magic + 1 ≡ ji - ji_magic)
      × IsJournal (dec_journal_info_holders ji)
unfolding dec_journal_info_holders
fewer ji up = elim (Bool-cases (ji - 1 == ji_magic)) [
  | inl last ↦ rw last (ground arith, inl refl)
  | inr others ↦ rw others (omega (arith, up), inr (ground arith))
]

-- A task whose journal_info becomes `x`
pub moved :
    (tri : Trans)
    → (h : IsTrans tri) → (t x n : ℕ) → t < length tri.journals
    → IsJournal x
    → n + (journal t tri.journals - ji_magic) ≡ tri.holders + (x - ji_magic)
    → total (set_journal t x tri.journals) < write_func_bit
    → (tri.phase ≡ writing → total (set_journal t x tri.journals) ≡ 0)
    → IsTrans (record tri { holders = n; journals = set_journal t x tri.journals })
moved tri h t x n inside word e bound drain = record {
  balance =
      (let a = h.balance in
        let b = total-set_journal t x tri.journals inside in
        omega (arith, e, a, b, journal-total t tri.journals));
  bounded = bound;
  words = set_journal-IsJournal t x tri.journals word h.words;
  drained = drain;
}
