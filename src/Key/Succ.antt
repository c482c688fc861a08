-- ===== src/Key/Succ.antt =====
-- The successor and the predecessor of a key, modulo 2 ^ 216.
use scoutfs.Prelude.{Ordering, arith, ◌%◌, ◌+◌, ◌-◌, ◌<◌, ◌^◌, ◌↔◌, ◌≡◌, ◌≢◌}
use scoutfs.Key.{IsKey, Key, key_compare, key_dec, key_inc, key_set_ones}
use scoutfs.Key.Order.{key_compare-value, key_value, key_value-injective}

-- The value of the next key is one more, modulo 2 ^ 216; keys within their widths.
pub key_inc-value : (k : Key) → IsKey k → key_value (key_inc k) ≡ (key_value k + 1) % 2 ^ 216
unfolding key_inc
key_inc-value k v = ground arith

pub key_dec-value :
    (k : Key) → IsKey k → key_value (key_dec k) ≡ (key_value k + (2 ^ 216 - 1)) % 2 ^ 216
unfolding key_dec
key_dec-value k v = ground arith

pub key_inc-IsKey : (k : Key) → IsKey k → IsKey (key_inc k)
unfolding key_inc
key_inc-IsKey k v = ground arith

pub key_dec-IsKey : (k : Key) → IsKey k → IsKey (key_dec k)
unfolding key_dec
key_dec-IsKey k v = ground arith

key_value-lt : (k : Key) → IsKey k → key_value k < 2 ^ 216
key_value-lt k v = omega arith

-- Each of the two undoes the other, also where the fields carry or the whole key wraps.
pub key_dec-key_inc : (k : Key) → IsKey k → (key_dec (key_inc k) ≡ k) × (key_inc (key_dec k) ≡ k)
key_dec-key_inc k v = (
  key_value-injective (key_dec (key_inc k)) k (key_dec-IsKey (key_inc k) inc) v
      (omega (arith, key_dec-value (key_inc k) inc, key_inc-value k v, key_value-lt k v)),
  key_value-injective (key_inc (key_dec k)) k (key_inc-IsKey (key_dec k) dec) v
      (omega (arith, key_inc-value (key_dec k) dec, key_dec-value k v, key_value-lt k v)),
)
  where
    inc : IsKey (key_inc k)
    inc = key_inc-IsKey k v

    dec : IsKey (key_dec k)
    dec = key_dec-IsKey k v

-- Below the key of all ones, `key_inc a` is the next key: a key lies above `a` exactly if it is not below `key_inc a`.
pub key_inc_next :
    (a b : Key)
    → IsKey a
    → IsKey b
    → a ≢ key_set_ones
    → (key_compare a b ≡ Ordering.lt) ↔ (key_compare b (key_inc a) ≢ Ordering.lt)
key_inc_next a b va vb below = ground (
  arith,
  key_compare-value a b va vb,
  key_compare-value b (key_inc a) vb (key_inc-IsKey a va),
  key_inc-value a va,
  key_value-injective a key_set_ones va (omega arith),
)
