-- ===== src/LockServer/Index.antt =====
-- The index of locks: what holds of all locks is found on each, and is kept by a put.
use scoutfs.LockServer.{Snode}
use scoutfs.LockServer.Handlers.{get_server_lock, is_unused, put_server_lock}
use scoutfs.Key.{Key, key_compare}
use scoutfs.Prelude.{
  All, Bool, Bool-cases, List, Ordering-cases, [], arith, inl, inr, some, some_inj, subst, ◌∷◌, ◌≡◌,
}

module _ {κ} (P : Snode → Type κ) where
  pub All-get_server_lock :
      (ss : List Snode) (key : Key) (or_next : Bool) (s : Snode)
      → All P ss
      → get_server_lock ss key or_next ≡ some s
      → P s
  unfolding get_server_lock
  All-get_server_lock [] key or_next s h e = cc
  All-get_server_lock (t ∷ ts) key or_next s h e = elim (Ordering-cases (key_compare key t.key)) [
    | inl lower ↦ subst P (ground arith) h.0
    | inr (inl same) ↦ subst P (some_inj (rw (same, get_server_lock) at e)) h.0
    | inr (inr higher) ↦
        All-get_server_lock ts key or_next s h.1 (rw (higher, get_server_lock) at e)
  ]

  pub All-put_server_lock :
      (s : Snode) (ss : List Snode) → P s → All P ss → All P (put_server_lock s ss)
  unfolding put_server_lock
  All-put_server_lock s [] p h = elim (Bool-cases (is_unused s)) [
    | inl unused ↦ rw unused tt
    | inr used ↦ rw used (p, tt)
  ]
  All-put_server_lock s (t ∷ ts) p h = elim (Ordering-cases (key_compare s.key t.key)) [
    | inl lower ↦ elim (Bool-cases (is_unused s)) [
      | inl unused ↦ rw (lower, unused, put_server_lock) h
      | inr used ↦ rw (lower, used, put_server_lock) (p, h)
    ]
    | inr (inl same) ↦ elim (Bool-cases (is_unused s)) [
      | inl unused ↦ rw (same, unused, put_server_lock) h.1
      | inr used ↦ rw (same, used, put_server_lock) (p, h.1)
    ]
    | inr (inr higher) ↦ rw (higher, put_server_lock) (h.0, All-put_server_lock s ts p h.1)
  ]
