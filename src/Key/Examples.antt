-- ===== src/Key/Examples.antt =====
-- Tests and concrete instances of the order and the successor of keys.
use scoutfs.Key.{
  IsKey, Key, key_compare, key_dec, key_inc, key_set_ones, key_set_zeros, u64_max, u8_max,
}
use scoutfs.Key.Order.{key_compare-value, key_value}
use scoutfs.Key.Succ.{key_dec-key_inc, key_inc-value, key_inc_next}
use scoutfs.Prelude.{Ordering, arith, refl, ◌%◌, ◌+◌, ◌^◌, ◌↔◌, ◌≡◌, ◌≢◌}

abbrev full_third : Key
full_third = record { zone = 3; first = 7; type = 2; second = 5; third = u64_max; fourth = u8_max }

abbrev after_full : Key
after_full = record { zone = 3; first = 7; type = 2; second = 6; third = 0; fourth = 0 }

full_third-IsKey : IsKey full_third
full_third-IsKey = omega arith

after_full-IsKey : IsKey after_full
after_full-IsKey = omega arith

key_inc_carries : key_inc full_third ≡ after_full
unfolding key_inc
key_inc_carries = refl

key_inc_wraps : key_inc key_set_ones ≡ key_set_zeros
unfolding key_inc
key_inc_wraps = refl

key_compare-value_example : key_compare full_third after_full ≡ Ordering.lt
key_compare-value_example =
    key_compare-value full_third after_full full_third-IsKey after_full-IsKey

key_inc-value_example : key_value (key_inc full_third) ≡ (key_value full_third + 1) % 2 ^ 216
key_inc-value_example = key_inc-value full_third full_third-IsKey

key_dec-key_inc_example :
    (key_dec (key_inc full_third) ≡ full_third) × (key_inc (key_dec full_third) ≡ full_third)
key_dec-key_inc_example = key_dec-key_inc full_third full_third-IsKey

key_inc_next_example :
    (key_compare full_third after_full ≡ Ordering.lt)
    ↔ (key_compare after_full (key_inc full_third) ≢ Ordering.lt)
key_inc_next_example =
    key_inc_next full_third after_full full_third-IsKey after_full-IsKey (λ e. cc)
