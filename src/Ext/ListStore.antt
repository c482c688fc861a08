-- ===== src/Ext/ListStore.antt =====
-- The list of extents keeps the laws of a storage.
use scoutfs.Ext.ListOps.{
  Chain, insert-Chain, insert-owner, list_insert, list_next, list_ops, list_owner, list_remove,
  next-NextIs, next_none-owner, remove-Removed, remove-insert,
}
use scoutfs.Ext.{Extent}
use scoutfs.Ext.Laws.{ExtLaws, Free, IsExtent, Stored, covers}
use scoutfs.Prelude.{
  Errno, List, [], ap, arith, enoent, err, if◌then◌else◌, inl, none, ok, some, subst, true, ℕ, ◌∷◌,
  ◌≡◌,
}

abbrev pub NoFault : Errno → Type 0
NoFault x = ⊥

pub first_covered : (e : Extent) → IsExtent e → covers e e.start ≡ true
first_covered e good = ground arith

pub next-enoent :
    (es : List Extent) (start : ℕ) (x : Errno) → list_next es start ≡ err x → x ≡ enoent
unfolding list_next
next-enoent [] start x h = ground arith
next-enoent (f ∷ fs) start x h = ground (arith, next-enoent fs start x)

pub list_next-Stored :
    (s : List Extent) (start : ℕ) (e : Extent)
    → Chain 0 s
    → list_next s start ≡ ok e
    → IsExtent e × Stored (list_owner s) e
list_next-Stored s start e v h = let n = (next-NextIs 0 s start e v h).0 in (n.0, n.2)

pub list_insert_adds :
    (s s' : List Extent) (e : Extent)
    → Chain 0 s
    → IsExtent e
    → Free (list_owner s) e
    → ok (list_insert s e) ≡ ok s'
    → Chain 0 s'
      × ((b : ℕ) → list_owner s' b ≡ (if covers e b then some e else list_owner s b))
      × (list_remove s' e ≡ ok s)
list_insert_adds s s' e v good free h =
    let same : list_insert s e ≡ s' = cc in
    subst
      (λ k.
        Chain 0 k
        × ((b : ℕ) → list_owner k b ≡ (if covers e b then some e else list_owner s b))
        × (list_remove k e ≡ ok s))
      same
      (
        insert-Chain 0 s e v (omega arith) good free,
        (λ b. insert-owner 0 s e b v good free),
        remove-insert 0 s e v good free,
      )

pub list_remove_takes :
    (s s' : List Extent) (e : Extent)
    → Chain 0 s
    → IsExtent e
    → Stored (list_owner s) e
    → list_remove s e ≡ ok s'
    → Chain 0 s'
      × ((b : ℕ) → list_owner s' b ≡ (if covers e b then none else list_owner s b))
      × (ok (list_insert s' e) ≡ ok s)
list_remove_takes s s' e v good stored h =
    let (fs, r) = remove-Removed 0 s e v good (stored e.start (first_covered e good)) in
    let taken = r.removed in
    let same : fs ≡ s' = cc in
    subst
      (λ k.
        Chain 0 k
        × ((b : ℕ) → list_owner k b ≡ (if covers e b then none else list_owner s b))
        × (ok (list_insert k e) ≡ ok s))
      same (r.chain, r.owners, ap ok r.back)

pub list_remove_fault :
    (s : List Extent) (e : Extent) (x : Errno)
    → Chain 0 s
    → IsExtent e
    → Stored (list_owner s) e
    → list_remove s e ≡ err x
    → ⊥
list_remove_fault s e x v good stored h =
    let (fs, r) = remove-Removed 0 s e v good (stored e.start (first_covered e good)) in
    let taken = r.removed in cc

pub list_insert_fault :
    (s : List Extent) (e : Extent) (x : Errno)
    → Chain 0 s
    → IsExtent e
    → Free (list_owner s) e
    → ok (list_insert s e) ≡ err x
    → ⊥
list_insert_fault s e x v good free h = cc

abbrev pub list_laws : ExtLaws list_ops NoFault
unfolding list_ops
list_laws = record {
  IsStore = Chain 0;
  owner = list_owner;
  next_finds = λ s start e v h. (next-NextIs 0 s start e v h).0;
  next_none = λ s start v h. (next_none-owner 0 s start enoent v h).1;
  next_stored = λ s start len e v h. list_next-Stored s start e v h;
  next_fault = λ s start len x h. inl (next-enoent s start x h);
  insert_adds = list_insert_adds;
  insert_fault = list_insert_fault;
  remove_takes = list_remove_takes;
  remove_fault = list_remove_fault;
}
