-- ===== src/LockServer/Walk.antt =====
-- The walks over all locks end: each turn leaves one lock less above the key.
use scoutfs.LockServer.Index.{All-get_server_lock}
use scoutfs.LockServer.{Snode}
use scoutfs.LockServer.Handlers.{get_server_lock, is_unused, put_server_lock}
use scoutfs.Key.{IsKey, Key, key_compare}
use scoutfs.Key.Order.{key_compare-value, key_compare_refl}
use scoutfs.Prelude.{
  All, Bool, Bool-cases, List, Ordering, Ordering-cases, [], ap, arith, false, if◌then◌else◌, inl,
  inr, refl, some, some_inj, subst, suc, true, ℕ, ◌<◌, ◌∷◌, ◌≡◌, ◌≤◌,
}

abbrev pub is_lower : Ordering → Bool
is_lower o = elim o [ Ordering.lt ↦ true | _ ↦ false ]

abbrev pub is_higher : Ordering → Bool
is_higher o = elim o [ Ordering.gt ↦ true | _ ↦ false ]

-- How many locks have a key above one.
unfoldable pub locks_above : Key → List Snode → ℕ
locks_above key [] = 0
locks_above key (s ∷ ss) =
    let rest = locks_above key ss in if is_lower (key_compare key s.key) then suc rest else rest

-- How many locks have at least a key.
unfoldable pub locks_from : Key → List Snode → ℕ
locks_from key [] = 0
locks_from key (s ∷ ss) =
    let rest = locks_from key ss in if is_higher (key_compare key s.key) then rest else suc rest

pub locks_above-put :
    (s : Snode)
    → (ss : List Snode) → locks_above s.key (put_server_lock s ss) ≡ locks_above s.key ss
unfolding locks_above put_server_lock
locks_above-put s [] = elim (Bool-cases (is_unused s)) [
  | inl unused ↦ rw unused refl
  | inr used ↦ rw used (rw (key_compare_refl s.key) refl)
]
locks_above-put s (t ∷ ts) = elim (Ordering-cases (key_compare s.key t.key)) [
  | inl lower ↦ elim (Bool-cases (is_unused s)) [
    | inl unused ↦ rw (lower, unused, put_server_lock) (rw (lower) refl)
    | inr used ↦ rw (lower, used, put_server_lock) (ground (arith, key_compare_refl s.key))
  ]
  | inr (inl same) ↦ elim (Bool-cases (is_unused s)) [
    | inl unused ↦ rw (same, unused, put_server_lock) (ground (arith, same))
    | inr used ↦ rw (same, used, put_server_lock) (ground (arith, key_compare_refl s.key))
  ]
  | inr (inr higher) ↦ rw (higher, put_server_lock) (ground (arith, locks_above-put s ts))
]

found_not_below :
    (ss : List Snode)
    → (key : Key) → (s : Snode) → get_server_lock ss key true ≡ some s
    → is_higher (key_compare key s.key) ≡ false
unfolding get_server_lock
found_not_below [] key s e = absurd cc
found_not_below (t ∷ ts) key s e = elim (Ordering-cases (key_compare key t.key)) [
  | inl lower ↦
      let same : t ≡ s = some_inj (rw (lower, get_server_lock) at e) in
      subst (λ u. is_higher (key_compare key u.key) ≡ false) same (rw lower refl)
  | inr (inl equal) ↦
      let same : t ≡ s = some_inj (rw (equal, get_server_lock) at e) in
      subst (λ u. is_higher (key_compare key u.key) ≡ false) same (rw equal refl)
  | inr (inr higher) ↦ found_not_below ts key s (rw (higher, get_server_lock) at e)
]

-- From `key` up to `s`, and on to `t` above `s`.
below_above :
    (key s t : Key)
    → IsKey key
    → IsKey s
    → IsKey t
    → is_higher (key_compare key s) ≡ false
    → is_lower (key_compare s t) ≡ true
    → is_higher (key_compare key t) ≡ false
below_above key s t vk vs vt h k = ground (
  arith,
  key_compare-value key s vk vs,
  key_compare-value s t vs vt,
  key_compare-value key t vk vt,
)

locks_above-le :
    (ss : List Snode)
    → (key s : Key) → IsKey key
    → IsKey s
    → All (λ t. IsKey t.key) ss
    → is_higher (key_compare key s) ≡ false
    → locks_above s ss ≤ locks_from key ss
unfolding locks_above locks_from
locks_above-le [] key s vk vs all h = omega arith
locks_above-le (t ∷ ts) key s vk vs all h =
    ground (arith, locks_above-le ts key s vk vs all.1 h, below_above key s t.key vk vs all.0 h)

-- The lock that a search finds is not above itself.
pub locks_above-get :
    (ss : List Snode)
    → (key : Key) → (s : Snode) → IsKey key
    → All (λ t. IsKey t.key) ss
    → get_server_lock ss key true ≡ some s
    → locks_above s.key ss < locks_from key ss
unfolding locks_above locks_from get_server_lock
locks_above-get [] key s vk all e = absurd cc
locks_above-get (t ∷ ts) key s vk all e =
    let vs : IsKey s.key = All-get_server_lock (λ u. IsKey u.key) (t ∷ ts) key true s all e in
    let from = found_not_below (t ∷ ts) key s e in
    elim (Ordering-cases (key_compare key t.key)) [
      | inl lower ↦
          let same : t ≡ s = some_inj (rw (lower, get_server_lock) at e) in
          ground (
            arith,
            ap (λ u. u.key) same,
            key_compare_refl s.key,
            locks_above-le ts key s.key vk vs all.1 from,
          )
      | inr (inl equal) ↦
          let same : t ≡ s = some_inj (rw (equal, get_server_lock) at e) in
          ground (
            arith,
            ap (λ u. u.key) same,
            key_compare_refl s.key,
            locks_above-le ts key s.key vk vs all.1 from,
          )
      | inr (inr higher) ↦ ground (
        arith,
        locks_above-get ts key s vk all.1 (rw (higher, get_server_lock) at e),
        below_above key s.key t.key vk vs all.0 from,
      )
    ]
