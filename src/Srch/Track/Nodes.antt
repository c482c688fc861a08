-- ===== src/Srch/Track/Nodes.antt =====
-- The nodes of the tracking tree: their order and which of them are tracked.
use scoutfs.Srch.Track.{
  Found, erase_node, found_cmp, insert_node, is_eq, is_lt, is_tracked, split_last,
}
use scoutfs.Prelude.{
  All, Bool-cases, List, [], arith, false, inl, inr, length, not, refl, true, ◌&&◌, ◌+◌, ◌||◌, ◌∷◌,
  ◌≡◌, ◌≤◌,
}

unfoldable pub IsSorted : List Found → Type 0
IsSorted [] = Unit
IsSorted (f ∷ fs) = All (λ g. is_lt (found_cmp f g) ≡ true) fs × IsSorted fs

All-after :
    (f g : Found)
    → (fs : List Found) → is_lt (found_cmp f g) ≡ true
    → All (λ h. is_lt (found_cmp g h) ≡ true) fs
    → All (λ h. is_lt (found_cmp f h) ≡ true) fs
All-after f g [] lt all = tt
All-after f g (h ∷ fs) lt all = (ground arith, All-after f g fs lt all.1)

pub is_tracked-same :
    (f g : Found)
    → (fs : List Found) → is_eq (found_cmp g f) ≡ true
    → All (λ h. is_lt (found_cmp f h) ≡ true) fs
    → is_tracked g fs ≡ false
unfolding is_tracked
is_tracked-same f g [] e all = refl
is_tracked-same f g (h ∷ fs) e all = ground (arith, is_tracked-same f g fs e all.1)

pub is_tracked-insert_node :
    (f g : Found)
    → (fs : List Found)
    → is_tracked g (insert_node f fs) ≡ (is_eq (found_cmp g f) || is_tracked g fs)
unfolding is_tracked insert_node
is_tracked-insert_node f g [] = ground arith
is_tracked-insert_node f g (h ∷ fs) = ground (arith, is_tracked-insert_node f g fs)

pub is_tracked-erase_node :
    (f g : Found)
    → (fs : List Found) → IsSorted fs
    → is_tracked f fs ≡ true
    → is_tracked g (erase_node f fs) ≡ (not (is_eq (found_cmp g f)) && is_tracked g fs)
unfolding is_tracked erase_node IsSorted
is_tracked-erase_node f g [] s t = cc
is_tracked-erase_node f g (h ∷ fs) s t =
    ground (arith, is_tracked-erase_node f g fs s.1, is_tracked-same h g fs)

pub All-insert_node :
    (P : Found → Type 0)
    → (f : Found) → (fs : List Found) → P f
    → All P fs
    → All P (insert_node f fs)
unfolding insert_node
All-insert_node P f [] p all = (p, tt)
All-insert_node P f (g ∷ fs) p all = elim (Bool-cases (is_lt (found_cmp f g))) [
  | inl before ↦ rw (before) (p, all)
  | inr behind ↦ rw (behind) (all.0, All-insert_node P f fs p all.1)
]

pub insert_node-IsSorted :
    (f : Found)
    → (fs : List Found) → is_tracked f fs ≡ false
    → IsSorted fs
    → IsSorted (insert_node f fs)
unfolding insert_node IsSorted is_tracked
insert_node-IsSorted f [] new s = (tt, tt)
insert_node-IsSorted f (g ∷ fs) new s = elim (Bool-cases (is_lt (found_cmp f g))) [
  | inl before ↦ rw (before) ((before, All-after f g fs before s.0), s)
  | inr behind ↦ rw (behind) (
    All-insert_node (λ h. is_lt (found_cmp g h) ≡ true) f fs (ground arith) s.0,
    insert_node-IsSorted f fs (ground arith) s.1,
  )
]

pub All-erase_node :
    (P : Found → Type 0) → (f : Found) → (fs : List Found) → All P fs → All P (erase_node f fs)
unfolding erase_node
All-erase_node P f [] all = tt
All-erase_node P f (g ∷ fs) all = elim (Bool-cases (is_eq (found_cmp f g))) [
  | inl here ↦ rw (here) all.1
  | inr there ↦ rw (there) (all.0, All-erase_node P f fs all.1)
]

pub erase_node-IsSorted : (f : Found) → (fs : List Found) → IsSorted fs → IsSorted (erase_node f fs)
unfolding erase_node IsSorted
erase_node-IsSorted f [] s = tt
erase_node-IsSorted f (g ∷ fs) s = elim (Bool-cases (is_eq (found_cmp f g))) [
  | inl here ↦ rw (here) s.1
  | inr there ↦
      rw (there)
        (All-erase_node (λ h. is_lt (found_cmp g h) ≡ true) f fs s.0, erase_node-IsSorted f fs s.1)
]

pub All-split_last :
    (P : Found → Type 0)
    → (f : Found) → (fs : List Found) → P f
    → All P fs
    → All P (split_last f fs).0 × P (split_last f fs).1
unfolding split_last
All-split_last P f [] p all = (tt, p)
All-split_last P f (g ∷ fs) p all =
    let rest = All-split_last P g fs all.0 all.1 in ((p, rest.0), rest.1)

pub split_last-IsSorted :
    (f : Found) → (fs : List Found) → IsSorted (f ∷ fs) → IsSorted (split_last f fs).0
unfolding split_last IsSorted
split_last-IsSorted f [] s = tt
split_last-IsSorted f (g ∷ fs) s = (
  (All-split_last (λ h. is_lt (found_cmp f h) ≡ true) g fs s.0.0 s.0.1).0,
  split_last-IsSorted g fs s.1,
)

pub is_tracked-split_last :
    (f g : Found)
    → (fs : List Found) → is_eq (found_cmp g (split_last f fs).1) ≡ false
    → is_tracked g (split_last f fs).0 ≡ is_tracked g (f ∷ fs)
unfolding split_last is_tracked
is_tracked-split_last f g [] other = ground arith
is_tracked-split_last f g (h ∷ fs) other = ground (arith, is_tracked-split_last h g fs other)

pub length-split_last :
    (f : Found) → (fs : List Found) → length (f ∷ fs) ≡ length (split_last f fs).0 + 1
unfolding split_last
length-split_last f [] = refl
length-split_last f (g ∷ fs) = omega (arith, length-split_last g fs)

pub length-insert_node : (f : Found) → (fs : List Found) → length (insert_node f fs) ≡ length fs + 1
unfolding insert_node
length-insert_node f [] = refl
length-insert_node f (g ∷ fs) = ground (arith, length-insert_node f fs)

pub length-erase_node : (f : Found) → (fs : List Found) → length (erase_node f fs) ≤ length fs
unfolding erase_node
length-erase_node f [] = omega arith
length-erase_node f (g ∷ fs) = ground (arith, length-erase_node f fs)

pub is_tracked-eq :
    (f g : Found)
    → (fs : List Found) → is_eq (found_cmp g f) ≡ true
    → is_tracked g fs ≡ is_tracked f fs
unfolding is_tracked
is_tracked-eq f g [] e = refl
is_tracked-eq f g (h ∷ fs) e = ground (arith, is_tracked-eq f g fs e)
