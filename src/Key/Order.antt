-- ===== src/Key/Order.antt =====
-- The order of keys is that of one 216 bit number.
use scoutfs.Prelude.{Ordering, arith, ℕ, ◌*◌, ◌+◌, ◌<◌, ◌^◌, ◌↔◌, ◌∙◌, ◌≡◌}
use scoutfs.Key.{IsKey, Key, cmp, key_compare, ◌or_else◌}

-- The fields of a key as the digits of one number, the zone first.
abbrev pub key_value : Key → ℕ
key_value k =
    ((((k.zone * 2 ^ 64 + k.first) * 2 ^ 8 + k.type) * 2 ^ 64 + k.second) * 2 ^ 64 + k.third)
      * 2 ^ 8
    + k.fourth

-- Two adjacent fields compare as one number of both, with a low field of 64 or of 8 bits.
pub cmp-u64 :
    (a b c d : ℕ) (o : Ordering)
    → b < 2 ^ 64
    → d < 2 ^ 64
    → (cmp a c or_else (cmp b d or_else o)) ≡ (cmp (a * 2 ^ 64 + b) (c * 2 ^ 64 + d) or_else o)
cmp-u64 a b c d o hb hd = ground arith

cmp-u8 :
    (a b c d : ℕ) (o : Ordering)
    → b < 2 ^ 8
    → d < 2 ^ 8
    → (cmp a c or_else (cmp b d or_else o)) ≡ (cmp (a * 2 ^ 8 + b) (c * 2 ^ 8 + d) or_else o)
cmp-u8 a b c d o hb hd = ground arith

cmp-last_u8 :
    (a b c d : ℕ)
    → b < 2 ^ 8
    → d < 2 ^ 8
    → (cmp a c or_else cmp b d) ≡ cmp (a * 2 ^ 8 + b) (c * 2 ^ 8 + d)
cmp-last_u8 a b c d hb hd = ground arith

-- Keys within their widths compare as their values do.
pub key_compare-value :
    (a b : Key) → IsKey a → IsKey b → key_compare a b ≡ cmp (key_value a) (key_value b)
unfolding key_compare
key_compare-value a b va vb =
    cmp-u64 _ _ _ _ _ va.first_u64 vb.first_u64
    ∙ cmp-u8 _ _ _ _ _ va.type_u8 vb.type_u8
    ∙ cmp-u64 _ _ _ _ _ va.second_u64 vb.second_u64
    ∙ cmp-u64 _ _ _ _ _ va.third_u64 vb.third_u64
    ∙ cmp-last_u8 _ _ _ _ va.fourth_u8 vb.fourth_u8

pub key_compare_refl : (a : Key) → key_compare a a ≡ Ordering.eq
unfolding key_compare
key_compare_refl a = ground arith

-- The value tells keys apart.
pub key_value-injective : (a b : Key) → IsKey a → IsKey b → key_value a ≡ key_value b → a ≡ b
key_value-injective a b va vb e = ground arith

-- Two keys compare as equal exactly if they are.
pub key_compare-eq : (a b : Key) → IsKey a → IsKey b → (key_compare a b ≡ Ordering.eq) ↔ (a ≡ b)
key_compare-eq a b va vb = (
  λ h. key_value-injective a b va vb (ground (arith, key_compare-value a b va vb)),
  λ e. rw e (key_compare_refl b),
)
