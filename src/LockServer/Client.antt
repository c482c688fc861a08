-- ===== src/LockServer/Client.antt =====
-- Single changes of a lock's entries: a response to an invalidation, and a client that leaves.
use scoutfs.LockServer.{
  Entry, NetLock, Snode, find_entry, lock_null, lock_read, lock_write, remove_entry,
}
use scoutfs.LockServer.Held.{
  All-remove_entry, Cross, Cross-head, Exclusive, Exclusive-remove_entry, IsHeld, SharesAll, shares,
  shares_symm,
}
use scoutfs.LockServer.Handlers.{answered, drop_client, without_client}
use scoutfs.LockServer.Safety.{IsHeld-nil, IsSnode}
use scoutfs.Prelude.{
  All, Bool-cases, List, [], arith, inl, inr, refl, some, some_inj, subst, true, ℕ, ◌++◌, ◌==◌, ◌∷◌,
  ◌≡◌, ◌⊎◌,
}

pub All-drop_client {κ} :
    (P : Entry → Type κ) (rid : ℕ) (es : List Entry) → All P es → All P (drop_client rid es)
unfolding drop_client
All-drop_client P rid [] h = tt
All-drop_client P rid (e ∷ es) h = elim (Bool-cases (e.rid == rid)) [
  | inl hit ↦ rw (hit, drop_client) (All-drop_client P rid es h.1)
  | inr miss ↦ rw (miss, drop_client) (h.0, All-drop_client P rid es h.1)
]

Exclusive-drop_client : (rid : ℕ) (es : List Entry) → Exclusive es → Exclusive (drop_client rid es)
unfolding drop_client
Exclusive-drop_client rid [] h = tt
Exclusive-drop_client rid (e ∷ es) h = elim (Bool-cases (e.rid == rid)) [
  | inl hit ↦ rw (hit, drop_client) (Exclusive-drop_client rid es h.1)
  | inr miss ↦
      rw (miss, drop_client) (All-drop_client _ rid es h.0, Exclusive-drop_client rid es h.1)
]

Cross-drop_client : (rid : ℕ) (es fs : List Entry) → Cross es fs → Cross es (drop_client rid fs)
Cross-drop_client rid [] fs h = tt
Cross-drop_client rid (e ∷ es) fs h =
    (All-drop_client _ rid fs h.0, Cross-drop_client rid es fs h.1)

pub without_client-IsSnode : (rid : ℕ) (s : Snode) → IsSnode s → IsSnode (without_client rid s)
without_client-IsSnode rid s h = record {
  among_granted = Exclusive-drop_client rid s.granted h.among_granted;
  among_invalidated = Exclusive-drop_client rid s.invalidated h.among_invalidated;
  across = All-drop_client _ rid s.granted (Cross-drop_client rid s.granted s.invalidated h.across);
}

-- A client answers as it was asked: it gives the lock up, or keeps a read lock of a write lock.
abbrev pub Obeys : Entry → NetLock → Type 0
Obeys c_ent nl = (nl.new_mode ≡ lock_null) ⊎ ((c_ent.mode ≡ lock_write) × (nl.new_mode ≡ lock_read))

-- A write lock is held alone.
write-alone : (e : Entry) (es : List Entry) → e.mode ≡ lock_write → SharesAll e es → es ≡ []
write-alone e [] w h = refl
write-alone e (f ∷ fs) w h = ground (arith, h.0)

Cross-remove_entry : (es fs : List Entry) (rid : ℕ) → Cross es fs → Cross es (remove_entry fs rid)
Cross-remove_entry [] fs rid h = tt
Cross-remove_entry (e ∷ es) fs rid h =
    (All-remove_entry _ fs rid h.0, Cross-remove_entry es fs rid h.1)

found-All {κ} :
    (P : Entry → Type κ) (es : List Entry) (rid : ℕ) (c : Entry)
    → All P es
    → find_entry es rid ≡ some c
    → P c
unfolding find_entry
found-All P [] rid c h e = absurd cc
found-All P (f ∷ fs) rid c h e = elim (Bool-cases (f.rid == rid)) [
  | inl hit ↦ subst P (some_inj (rw (hit, find_entry) at e)) h.0
  | inr miss ↦ found-All P fs rid c h.1 (rw (miss, find_entry) at e)
]

-- The entry that is found shares with all that are left when it is removed, and with the grants.
found-SharesAll :
    (es fs : List Entry) (rid : ℕ) (c : Entry)
    → Exclusive fs
    → Cross es fs
    → find_entry fs rid ≡ some c
    → SharesAll c (remove_entry fs rid) × SharesAll c es × (c.rid ≡ rid)
unfolding find_entry remove_entry
found-SharesAll es [] rid c x h e = cc
found-SharesAll es (f ∷ fs) rid c x h e = elim (Bool-cases (f.rid == rid)) [
  | inl hit ↦
      rw (hit, remove_entry)
        (subst (λ k. SharesAll k fs × SharesAll k es × (k.rid ≡ rid))
          (some_inj (rw (hit, find_entry) at e)) (x.0, (Cross-head es fs f h).0, ground arith))
  | inr miss ↦
      let found : find_entry fs rid ≡ some c = rw (miss, find_entry) at e in
      let (a, b, same) = found-SharesAll es fs rid c x.1 (Cross-head es fs f h).1 found in
      rw (miss, remove_entry)
        ((shares_symm f c (found-All (λ k. shares f k ≡ true) fs rid c x.0 found), a), b, same)
]

-- After a response that obeys, the lock is held as it should be.
pub answered-IsSnode :
    (s : Snode) (c : Entry) (rid : ℕ) (nl : NetLock)
    → IsSnode s
    → find_entry s.invalidated rid ≡ some c
    → Obeys c nl
    → IsSnode (answered s c nl)
unfolding answered
answered-IsSnode s c rid nl h e obeys = elim (Bool-cases (nl.new_mode == lock_null)) [
  | inl gone ↦ rw (gone, answered) left
  | inr kept ↦ rw (kept, answered) (alone (ground arith))
]
  where
    found : SharesAll c (remove_entry s.invalidated rid) × SharesAll c s.granted × (c.rid ≡ rid)
    found = found-SharesAll s.granted s.invalidated rid c h.among_invalidated h.across e

    left : IsHeld s.granted (remove_entry s.invalidated c.rid)
    left = record {
      among_granted = h.among_granted;
      among_invalidated = Exclusive-remove_entry s.invalidated c.rid h.among_invalidated;
      across = Cross-remove_entry s.granted s.invalidated c.rid h.across;
    }

    alone :
        c.mode ≡ lock_write
        → IsHeld
            (s.granted ++ record c { mode = nl.new_mode } ∷ [])
            (remove_entry s.invalidated c.rid)
    alone writes =
        rw (found.2, write-alone c _ writes found.0, write-alone c s.granted writes found.1)
          (IsHeld-nil _ (tt, tt))
