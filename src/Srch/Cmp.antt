-- ===== src/Srch/Cmp.antt =====
-- The order of entries is the order of the three fields as one number of 192 bits; stepping by one.
use scoutfs.Key.{cmp, ◌or_else◌}
use scoutfs.Srch.{IsEntry, SrchEntry, sre_cmp, sre_dec, sre_inc}
use scoutfs.Key.Order.{cmp-u64}
use scoutfs.Prelude.{arith, ℕ, ◌%◌, ◌*◌, ◌+◌, ◌<◌, ◌^◌, ◌∙◌, ◌≡◌}

abbrev pub sre_value : SrchEntry → ℕ
sre_value e = (e.hash * 2 ^ 64 + e.ino) * 2 ^ 64 + e.id

cmp-last_u64 :
    (a b c d : ℕ)
    → b < 2 ^ 64
    → d < 2 ^ 64
    → (cmp a c or_else cmp b d) ≡ cmp (a * 2 ^ 64 + b) (c * 2 ^ 64 + d)
cmp-last_u64 a b c d hb hd = ground arith

-- Entries are ordered as the numbers that their fields make: all fields are of 64 bits.
pub sre_cmp-value :
    (a b : SrchEntry) → IsEntry a → IsEntry b → sre_cmp a b ≡ cmp (sre_value a) (sre_value b)
unfolding sre_cmp
sre_cmp-value a b ha hb =
    cmp-u64 _ _ _ _ _ ha.ino_u64 hb.ino_u64 ∙ cmp-last_u64 _ _ _ _ ha.id_u64 hb.id_u64

-- `sre_inc` counts on by one, and wraps from the greatest entry to the least: all fields are of 64 bits.
pub sre_inc-value :
    (e : SrchEntry) → IsEntry e → sre_value (sre_inc e) ≡ (sre_value e + 1) % 2 ^ 192
unfolding sre_inc
sre_inc-value e h = ground arith

-- `sre_dec` takes back what `sre_inc` does: all fields are of 64 bits.
pub sre_dec-sre_inc : (e : SrchEntry) → IsEntry e → sre_dec (sre_inc e) ≡ e
unfolding sre_inc sre_dec
sre_dec-sre_inc e h = ground arith
