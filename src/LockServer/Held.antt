-- ===== src/LockServer/Held.antt =====
-- Which modes clients may hold together, on the lists of granted and of invalidated entries. An
-- entry under invalidation is still held: its client has not answered yet.
use scoutfs.LockServer.{Entry, lock_read, lock_write_only, remove_entry}
use scoutfs.Prelude.{
  All, All-append, Bool, Bool-cases, List, [], arith, false, inl, inr, not, true, ℕ, ◌&&◌, ◌++◌,
  ◌==◌, ◌||◌, ◌∷◌, ◌≡◌,
}

-- Two different clients may hold the lock at once, in one mode that is read or write-only.
abbrev pub shares : Entry → Entry → Bool
shares a b =
    not (a.rid == b.rid) && a.mode == b.mode && (a.mode == lock_read || a.mode == lock_write_only)

abbrev pub SharesAll : Entry → List Entry → Type 0
SharesAll e = All (λ f. shares e f ≡ true)

abbrev pub Exclusive : List Entry → Type 0
Exclusive [] = Unit {0}
Exclusive (e ∷ es) = SharesAll e es × Exclusive es

abbrev pub Cross : List Entry → List Entry → Type 0
Cross es fs = All (λ e. SharesAll e fs) es

-- All holders of a lock, granted or under invalidation, may hold it together.
pub record IsHeld (granted invalidated : List Entry) : Type 0 where
  pub among_granted : Exclusive granted
  pub among_invalidated : Exclusive invalidated
  pub across : Cross granted invalidated

pub shares_symm : (a b : Entry) → shares a b ≡ true → shares b a ≡ true
shares_symm a b h = ground arith

pub SharesAll-symm :
    (e : Entry) (fs : List Entry) → SharesAll e fs → All (λ f. shares f e ≡ true) fs
SharesAll-symm e [] h = tt
SharesAll-symm e (f ∷ fs) h = (shares_symm e f h.0, SharesAll-symm e fs h.1)

pub Exclusive-snoc :
    (es : List Entry) (e : Entry) → Exclusive es → SharesAll e es → Exclusive (es ++ e ∷ [])
Exclusive-snoc [] e x h = (tt, tt)
Exclusive-snoc (f ∷ fs) e x h = (
  All-append (λ g. shares f g ≡ true) fs (e ∷ []) x.0 (shares_symm e f h.0, tt),
  Exclusive-snoc fs e x.1 h.1,
)

pub Cross-snoc :
    (es fs : List Entry) (e : Entry) → Cross es fs → SharesAll e es → Cross es (fs ++ e ∷ [])
Cross-snoc [] fs e c h = tt
Cross-snoc (g ∷ gs) fs e c h = (
  All-append (λ k. shares g k ≡ true) fs (e ∷ []) c.0 (shares_symm e g h.0, tt),
  Cross-snoc gs fs e c.1 h.1,
)

pub Cross-nil : (es : List Entry) → Cross es []
Cross-nil [] = tt
Cross-nil (e ∷ es) = (tt, Cross-nil es)

pub Cross-head : (es fs : List Entry) (f : Entry) → Cross es (f ∷ fs) → SharesAll f es × Cross es fs
Cross-head [] fs f c = (tt, tt)
Cross-head (e ∷ es) fs f c =
    let (h, t) = Cross-head es fs f c.1 in ((shares_symm e f c.0.0, h), (c.0.1, t))

-- Dropping the entries that `remove_entry` drops.
pub All-remove_entry {κ} :
    (P : Entry → Type κ) (es : List Entry) (rid : ℕ) → All P es → All P (remove_entry es rid)
unfolding remove_entry
All-remove_entry P [] rid h = tt
All-remove_entry P (e ∷ es) rid h = elim (Bool-cases (e.rid == rid)) [
  | inl hit ↦ rw (hit, remove_entry) h.1
  | inr miss ↦ rw (miss, remove_entry) (h.0, All-remove_entry P es rid h.1)
]

pub Exclusive-remove_entry :
    (es : List Entry) (rid : ℕ) → Exclusive es → Exclusive (remove_entry es rid)
unfolding remove_entry
Exclusive-remove_entry [] rid h = tt
Exclusive-remove_entry (e ∷ es) rid h = elim (Bool-cases (e.rid == rid)) [
  | inl hit ↦ rw (hit, remove_entry) h.1
  | inr miss ↦
      rw (miss, remove_entry) (All-remove_entry _ es rid h.0, Exclusive-remove_entry es rid h.1)
]

SharesAll-ne :
    (e : Entry) (es : List Entry) (rid : ℕ)
    → (e.rid == rid) ≡ true
    → SharesAll e es
    → All (λ f. (f.rid == rid) ≡ false) es
SharesAll-ne e [] rid h all = tt
SharesAll-ne e (f ∷ fs) rid h all = (ground arith, SharesAll-ne e fs rid h all.1)

-- A client holds a lock once, so nothing of it is left when its entry is removed.
pub remove_entry-ne :
    (es : List Entry) (rid : ℕ)
    → Exclusive es
    → All (λ f. (f.rid == rid) ≡ false) (remove_entry es rid)
unfolding remove_entry
remove_entry-ne [] rid h = tt
remove_entry-ne (e ∷ es) rid h = elim (Bool-cases (e.rid == rid)) [
  | inl hit ↦ rw (hit, remove_entry) (SharesAll-ne e es rid hit h.0)
  | inr miss ↦ rw (miss, remove_entry) (miss, remove_entry-ne es rid h.1)
]
