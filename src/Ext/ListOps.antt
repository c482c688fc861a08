-- ===== src/Ext/ListOps.antt =====
-- A storage of extents: a list of disjoint extents in order, which never fails.
use scoutfs.Ext.{ExtOps, Extent}
use scoutfs.Ext.Laws.{Free, IsExtent, NextIs, Owner, Stored, covers}
use scoutfs.Prelude.{
  Bool-cases, Errno, List, Result, [], arith, enoent, err, if◌then◌else◌, inl, inr, ltb, none, ok,
  refl, some, subst, true, ℕ, ◌+◌, ◌<◌, ◌==◌, ◌∷◌, ◌≡◌, ◌≤◌,
}

unfoldable pub list_next : List Extent → ℕ → Result Extent
list_next [] start = err enoent
list_next (e ∷ es) start = if ltb start (e.start + e.len) then ok e else list_next es start

unfoldable pub list_insert : List Extent → Extent → List Extent
list_insert [] e = e ∷ []
list_insert (f ∷ fs) e = if ltb e.start f.start then e ∷ f ∷ fs else f ∷ list_insert fs e

unfoldable pub list_cons : Extent → Result (List Extent) → Result (List Extent)
list_cons f (ok fs) = ok (f ∷ fs)
list_cons f (err x) = err x

unfoldable pub list_remove : List Extent → Extent → Result (List Extent)
list_remove [] e = err enoent
list_remove (f ∷ fs) e = if f.start == e.start then ok fs else list_cons f (list_remove fs e)

unfoldable pub list_ops : ExtOps
unfolding list_next list_insert list_cons list_remove
list_ops = record {
  Store = List Extent;
  next = λ s start len. list_next s start;
  insert = λ s e. ok (list_insert s e);
  remove = list_remove;
}

-- Disjoint and in order, from `lo` on.
abbrev pub Chain : ℕ → List Extent → Type 0
Chain lo [] = Unit {0}
Chain lo (e ∷ es) = (lo ≤ e.start) × IsExtent e × Chain (e.start + e.len) es

abbrev pub list_owner : List Extent → Owner
list_owner [] b = none
list_owner (e ∷ es) b = if covers e b then some e else list_owner es b

pub owner_below :
    (lo : ℕ) (es : List Extent) (b : ℕ) → Chain lo es → b < lo → list_owner es b ≡ none
owner_below lo [] b c h = refl
owner_below lo (e ∷ es) b c h = ground (arith, owner_below (e.start + e.len) es b c.2)

pub owner_covers :
    (es : List Extent) (b : ℕ) (e : Extent) → list_owner es b ≡ some e → covers e b ≡ true
owner_covers [] b e h = cc
owner_covers (f ∷ fs) b e h = ground (arith, owner_covers fs b e)

pub Chain-Stored :
    (lo : ℕ) (es : List Extent) (b : ℕ) (e : Extent)
    → Chain lo es
    → list_owner es b ≡ some e
    → IsExtent e × Stored (list_owner es) e × (lo ≤ e.start)
Chain-Stored lo [] b e c h = absurd cc
Chain-Stored lo (f ∷ fs) b e c h = elim (Bool-cases (covers f b)) [
  | inl hit ↦
      let same : f ≡ e = ground (arith, hit) in
      subst (λ k. IsExtent k × Stored (list_owner (f ∷ fs)) k × (lo ≤ k.start)) same
        (c.1, (λ d q. rw q), c.0)
  | inr miss ↦
      let (good, stored, later) = Chain-Stored (f.start + f.len) fs b e c.2 (rw miss at h) in
      (good, (λ d q. ground (arith, stored d)), (let g = c.1 in omega (arith, c.0, later)))
]

pub next-NextIs :
    (lo : ℕ) (es : List Extent) (start : ℕ) (e : Extent)
    → Chain lo es
    → list_next es start ≡ ok e
    → NextIs (list_owner es) start e × (lo ≤ e.start)
unfolding list_next
next-NextIs lo [] start e c h = absurd cc
next-NextIs lo (f ∷ fs) start e c h = elim (Bool-cases (ltb start (f.start + f.len))) [
  | inl hit ↦
      let same : f ≡ e = ground (arith, hit) in
      subst (λ k. NextIs (list_owner (f ∷ fs)) start k × (lo ≤ k.start)) same
        (
          (
            c.1,
            ground (arith, hit),
            (λ d q. rw q),
            λ b p q. ground (arith, owner_below (f.start + f.len) fs b c.2),
          ),
          c.0,
        )
  | inr miss ↦
      let (n, later) = next-NextIs (f.start + f.len) fs start e c.2 (rw (miss, list_next) at h) in
      (
        (n.0, n.1, (λ d q. ground (arith, n.2 d, later)), λ b p q. ground (arith, n.3 b)),
        (let g = c.1 in omega (arith, c.0, later)),
      )
]

pub next_none-owner :
    (lo : ℕ) (es : List Extent) (start : ℕ) (x : Errno)
    → Chain lo es
    → list_next es start ≡ err x
    → (x ≡ enoent) × ((b : ℕ) → start ≤ b → list_owner es b ≡ none)
unfolding list_next
next_none-owner lo [] start x c h = (ground arith, λ b p. refl)
next_none-owner lo (f ∷ fs) start x c h = elim (Bool-cases (ltb start (f.start + f.len))) [
  | inl hit ↦ absurd (ground (arith, hit))
  | inr miss ↦
      let (q, absent) =
        next_none-owner (f.start + f.len) fs start x c.2 (rw (miss, list_next) at h) in
      (q, λ b p. ground (arith, absent b))
]

pub insert-Chain :
    (lo : ℕ) (es : List Extent) (e : Extent)
    → Chain lo es
    → lo ≤ e.start
    → IsExtent e
    → Free (list_owner es) e
    → Chain lo (list_insert es e)
unfolding list_insert
insert-Chain lo [] e c h good free = (h, good, tt)
insert-Chain lo (f ∷ fs) e c h good free = elim (Bool-cases (ltb e.start f.start)) [
  | inl first ↦ rw (first, list_insert) (h, good, (ground (arith, free f.start), c.1, c.2))
  | inr later ↦
      rw (later, list_insert)
        (
          c.0,
          c.1,
          insert-Chain (f.start + f.len) fs e c.2 (ground (arith, free e.start)) good
              (λ b q. ground (arith, free b, owner_below (f.start + f.len) fs b c.2, free e.start)),
        )
]

pub insert-owner :
    (lo : ℕ) (es : List Extent) (e : Extent) (b : ℕ)
    → Chain lo es
    → IsExtent e
    → Free (list_owner es) e
    → list_owner (list_insert es e) b ≡ (if covers e b then some e else list_owner es b)
unfolding list_insert
insert-owner lo [] e b c good free = refl
insert-owner lo (f ∷ fs) e b c good free = elim (Bool-cases (ltb e.start f.start)) [
  | inl first ↦ rw (first, list_insert)
  | inr later ↦
      rw (later, list_insert)
        (ground (
          arith,
          free b,
          insert-owner (f.start + f.len) fs e b c.2 good
              (λ d q. ground (arith, free d, owner_below (f.start + f.len) fs d c.2, free e.start)),
        ))
]

pub remove-insert :
    (lo : ℕ) (es : List Extent) (e : Extent)
    → Chain lo es
    → IsExtent e
    → Free (list_owner es) e
    → list_remove (list_insert es e) e ≡ ok es
unfolding list_insert list_remove list_cons
remove-insert lo [] e c good free = ground arith
remove-insert lo (f ∷ fs) e c good free = elim (Bool-cases (ltb e.start f.start)) [
  | inl first ↦ rw (first, list_insert) (ground arith)
  | inr later ↦
      let rest =
        remove-insert (f.start + f.len) fs e c.2 good
          (λ d q. ground (arith, free d, owner_below (f.start + f.len) fs d c.2, free e.start)) in
      rw (later, list_insert) (ground (arith, rest, free e.start))
]

-- Removing a stored extent succeeds, and inserting it again restores the list.
pub record Removed (lo : ℕ) (es : List Extent) (e : Extent) (fs : List Extent) : Type 0 where
  pub removed : list_remove es e ≡ ok fs
  pub chain : Chain lo fs
  pub owners : (b : ℕ) → list_owner fs b ≡ (if covers e b then none else list_owner es b)
  pub back : list_insert fs e ≡ es

pub Chain-mono : (lo hi : ℕ) (es : List Extent) → hi ≤ lo → Chain lo es → Chain hi es
Chain-mono lo hi [] h c = tt
Chain-mono lo hi (e ∷ es) h c = (omega (arith, c.0), c.1, c.2)

pub insert_front :
    (lo : ℕ) (fs : List Extent) (e : Extent)
    → e.start < lo
    → Chain lo fs
    → list_insert fs e ≡ e ∷ fs
unfolding list_insert
insert_front lo [] e h c = refl
insert_front lo (f ∷ fs) e h c = ground arith

pub remove-Removed :
    (lo : ℕ) (es : List Extent) (e : Extent)
    → Chain lo es
    → IsExtent e
    → list_owner es e.start ≡ some e
    → (fs : List Extent) × Removed lo es e fs
unfolding list_remove list_cons list_insert
remove-Removed lo [] e c good h = absurd cc
remove-Removed lo (f ∷ fs) e c good h = elim (Bool-cases (covers f e.start)) [
  | inl hit ↦
      let same : f ≡ e = ground (arith, hit) in
      let is_f = c.1 in
      (
        fs,
        record {
          removed = ground (arith, same);
          chain = Chain-mono (f.start + f.len) lo fs (omega (arith, c.0)) c.2;
          owners = λ b. ground (arith, same, owner_below (f.start + f.len) fs b c.2);
          back = rw (← same) (insert_front (f.start + f.len) fs f (omega (arith, c.1.0)) c.2);
        },
      )
  | inr miss ↦
      let here : list_owner fs e.start ≡ some e = rw miss at h in
      let (gs, r) = remove-Removed (f.start + f.len) fs e c.2 good here in
      let later : f.start + f.len ≤ e.start =
        (Chain-Stored (f.start + f.len) fs e.start e c.2 here).2 in
      let is_f = c.1 in
      (
        f ∷ gs,
        record {
          removed = ground (arith, r.removed, later);
          chain = (c.0, c.1, r.chain);
          owners = λ b. ground (arith, r.owners b, later);
          back = ground (arith, r.back, later);
        },
      )
]
