-- ===== src/Trans/Exclusion.antt =====
-- No task holds the transaction while it is written.
use scoutfs.Trans.Holders.{
  IsJournal, IsTrans, fewer, journal-IsJournal, journal-set_journal, journal-total,
  length-set_journal, more, moved, total, total-set_journal,
}
use scoutfs.Trans.{
  Phase, Trans, acquire, dec_journal_info_holders, draining, has_writer, idle,
  inc_holders_unless_writer, inc_journal_info_holders, is_idle, ji_magic, journal, release_holders,
  set_journal, write_func_bit, writing,
}
use scoutfs.Prelude.{
  Bool, Bool-cases, ap, arith, false, if◌then◌else◌, inl, inr, length, not, refl, true, ℕ, ◌%◌, ◌+◌,
  ◌-◌, ◌/◌, ◌<◌, ◌==◌, ◌^◌, ◌∙◌, ◌≡◌,
}

pub low_bits :
    (n m : ℕ)
    → (b : Bool) → n < write_func_bit
    → m ≡ n + (if b then 0 else write_func_bit)
    → m % write_func_bit ≡ n
low_bits n m true h e = omega (arith, h, e)
low_bits n m false h e = omega (arith, h, e)

writer_bit :
    (n m : ℕ)
    → (b : Bool) → n < write_func_bit
    → m ≡ n + (if b then 0 else write_func_bit)
    → has_writer m ≡ not b
writer_bit n m true h e = let q : m / write_func_bit ≡ 0 = omega (arith, h, e) in rw q refl
writer_bit n m false h e = let q : m / write_func_bit ≡ 1 = omega (arith, h, e) in rw q refl

pub not_drained : (p : Phase) → is_idle p ≡ true → p ≡ writing → (A : Type 0) → A
not_drained idle e f A = absurd cc
not_drained draining e f A = absurd cc
not_drained writing e f A = absurd cc

module _ (tri : Trans) (h : IsTrans tri) (t : ℕ) (inside : t < length tri.journals) where
  abbrev ji : ℕ
  ji = journal t tri.journals

  word : IsJournal ji
  word = journal-IsJournal t tri.journals h.words

  pub release_holders-IsTrans : (ji == 0) ≡ false → IsTrans (release_holders t tri)
  unfolding release_holders
  release_holders-IsTrans used = elim word [
    | inl unused ↦ absurd (ground arith)
    | inr up ↦
        let (e, w) = fewer ji up in
        let b = total-set_journal t (dec_journal_info_holders ji) tri.journals inside in
        let low = journal-total t tri.journals in
        let a = h.balance in
        moved tri h t (dec_journal_info_holders ji) (tri.holders - 1) inside w
          (ground (arith, e, low, a)) (omega (arith, b, e, h.bounded))
          (λ p. let z = h.drained p in omega (arith, b, z))
  ]

  -- The task holds, and no writer was there or it held before.
  acquired :
      (n : ℕ)
      → n ≡ tri.holders + 1
      → total tri.journals + 1 < write_func_bit
      → (tri.phase ≡ writing → ji_magic < ji)
      → IsTrans (record tri {
        holders = n;
        journals = set_journal t (inc_journal_info_holders ji).0 tri.journals;
      })
  acquired n up room nested =
      let (e, w, k) = more ji word in
      let x = (inc_journal_info_holders ji).0 in
      let b = total-set_journal t x tri.journals inside in
      let low = journal-total t tri.journals in
      moved tri h t x n inside (inr w) (omega (arith, e, up)) (omega (arith, b, e, room))
        (λ p. let z = h.drained p in let v = nested p in absurd (omega (arith, z, v, low)))

  pub record IsAcquired (r : Bool × Trans) : Type 0 where
    pub kept : IsTrans r.1
    pub size : t < length r.1.journals
    pub taken : r.0 ≡ true → (journal t r.1.journals == 0) ≡ false

  taken-IsAcquired :
      (n : ℕ)
      → IsTrans (record tri {
        holders = n;
        journals = set_journal t (inc_journal_info_holders ji).0 tri.journals;
      })
      → IsAcquired (
        true,
        record tri {
          holders = n;
          journals = set_journal t (inc_journal_info_holders ji).0 tri.journals;
        },
      )
  taken-IsAcquired n k =
      let x = (inc_journal_info_holders ji).0 in
      let (e, w, b) = more ji word in
      record {
        kept = k;
        size = rw (length-set_journal t x tri.journals) inside;
        taken = λ _. rw (journal-set_journal t x tri.journals inside) (ground arith);
      }

  pub acquire-IsAcquired : tri.holders % write_func_bit < 2 ^ 29 → IsAcquired (acquire t tri)
  unfolding acquire inc_holders_unless_writer
  acquire-IsAcquired few =
      let idle_now = is_idle tri.phase in
      let bits = low_bits (total tri.journals) tri.holders idle_now h.bounded h.balance in
      let wrote = writer_bit (total tri.journals) tri.holders idle_now h.bounded h.balance in
      let room : total tri.journals + 1 < write_func_bit = omega (arith, bits, few) in
      let (e, w, b) = more ji word in
      elim word [
        | inr up ↦
            let used : (inc_journal_info_holders ji).1 ≡ true = ground arith in
            rw (used, acquire)
              (taken-IsAcquired (tri.holders + 1) (acquired (tri.holders + 1) refl room (λ p. up)))
        | inl unused ↦
            let fresh : (inc_journal_info_holders ji).1 ≡ false = ground arith in
            elim (Bool-cases idle_now) [
              | inl quiet ↦
                  let free : has_writer tri.holders ≡ false = wrote ∙ ap not quiet in
                  rw (fresh, free, acquire, inc_holders_unless_writer)
                    (taken-IsAcquired (tri.holders + 1) (
                      acquired (tri.holders + 1) refl room
                        (λ p. not_drained tri.phase quiet p (ji_magic < ji))))
              | inr busy ↦
                  let there : has_writer tri.holders ≡ true = wrote ∙ ap not busy in
                  rw (fresh, there, acquire, inc_holders_unless_writer)
                    (record { kept = h; size = inside; taken = λ f. absurd cc })
            ]
      ]
