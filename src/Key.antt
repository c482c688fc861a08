-- ===== src/Key.antt =====
-- kmod/src/key.h and kmod/src/cmp.h: the keys of all items, their order and their successor.
-- A field keeps its unsigned value; `__pad` is not part of a key's meaning and is left out.
pub mod Order
pub mod Succ
mod Examples
use scoutfs.Prelude.{
  Bool, Option, Ordering, if◌then◌else◌, ltb, none, not, some, ℕ, ◌%◌, ◌&&◌, ◌+◌, ◌-◌, ◌<◌, ◌==◌,
  ◌^◌,
}

-- `struct scoutfs_key`: u8, u64, u8, u64, u64, u8.
pub record Key : Type 0 where
  pub zone : ℕ
  pub first : ℕ
  pub type : ℕ
  pub second : ℕ
  pub third : ℕ
  pub fourth : ℕ

-- Each field within its width.
pub record IsKey (k : Key) : Type 0 where
  pub zone_u8 : k.zone < 2 ^ 8
  pub first_u64 : k.first < 2 ^ 64
  pub type_u8 : k.type < 2 ^ 8
  pub second_u64 : k.second < 2 ^ 64
  pub third_u64 : k.third < 2 ^ 64
  pub fourth_u8 : k.fourth < 2 ^ 8

abbrev pub u8_max : ℕ
u8_max = 2 ^ 8 - 1

abbrev pub u64_max : ℕ
u64_max = 2 ^ 64 - 1

-- The sign of the int that `scoutfs_cmp` returns.
abbrev pub cmp : ℕ → ℕ → Ordering
cmp a b = if ltb a b then Ordering.lt else if ltb b a then Ordering.gt else Ordering.eq

-- The C operator `?:` on such a sign.
infixr 6 ◌or_else◌
abbrev pub ◌or_else◌ : Ordering → Ordering → Ordering
Ordering.eq or_else o = o
Ordering.lt or_else o = Ordering.lt
Ordering.gt or_else o = Ordering.gt

unfoldable pub key_compare : Key → Key → Ordering
key_compare a b =
    cmp a.zone b.zone
    or_else cmp a.first b.first
    or_else cmp a.type b.type
    or_else cmp a.second b.second
    or_else cmp a.third b.third
    or_else cmp a.fourth b.fourth

unfoldable pub key_compare_ranges : Key → Key → Key → Key → Ordering
key_compare_ranges a_start a_end b_start b_end = elim (key_compare a_end b_start) [
  | Ordering.lt ↦ Ordering.lt
  | _ ↦ elim (key_compare a_start b_end) [ Ordering.gt ↦ Ordering.gt | _ ↦ Ordering.eq ]
]

abbrev pub key_set_zeros : Key
key_set_zeros = record { zone = 0; first = 0; type = 0; second = 0; third = 0; fourth = 0 }

pub key_is_zeros : Key → Bool
key_is_zeros k =
    k.zone == 0 && k.first == 0 && k.type == 0 && k.second == 0 && k.third == 0 && k.fourth == 0

pub key_copy_or_zeros : Option Key → Key
key_copy_or_zeros (some src) = src
key_copy_or_zeros none = key_set_zeros

abbrev pub key_set_ones : Key
key_set_ones = record {
  zone = u8_max;
  first = u64_max;
  type = u8_max;
  second = u64_max;
  third = u64_max;
  fourth = u8_max;
}

pub key_is_ones : Key → Bool
key_is_ones k =
    k.zone == u8_max
    && k.first == u64_max
    && k.type == u8_max
    && k.second == u64_max
    && k.third == u64_max
    && k.fourth == u8_max

-- `++` and `le64_add_cpu(…, 1)`, `--` and `le64_add_cpu(…, -1)`, at their widths.
abbrev pub inc_u8 : ℕ → ℕ
inc_u8 n = (n + 1) % 2 ^ 8

abbrev pub inc_u64 : ℕ → ℕ
inc_u64 n = (n + 1) % 2 ^ 64

abbrev pub dec_u8 : ℕ → ℕ
dec_u8 n = (n + u8_max) % 2 ^ 8

abbrev pub dec_u64 : ℕ → ℕ
dec_u64 n = (n + u64_max) % 2 ^ 64

-- The early returns of `scoutfs_key_inc` from the third return on, and from the first on.
inc_type : Key → Key
inc_type k =
    let t = record k { type = inc_u8 k.type } in
    let f = record t { first = inc_u64 t.first } in
    if not (t.type == 0)
    then t
    else if not (f.first == 0)
    then f
    else record f { zone = inc_u8 f.zone }

unfoldable pub key_inc : Key → Key
unfolding inc_type
key_inc k =
    let a = record k { fourth = inc_u8 k.fourth } in
    let b = record a { third = inc_u64 a.third } in
    let c = record b { second = inc_u64 b.second } in
    if not (a.fourth == 0)
    then a
    else if not (b.third == 0)
    then b
    else if not (c.second == 0)
    then c
    else inc_type c

dec_type : Key → Key
dec_type k =
    let t = record k { type = dec_u8 k.type } in
    let f = record t { first = dec_u64 t.first } in
    if not (t.type == u8_max)
    then t
    else if not (f.first == u64_max)
    then f
    else record f { zone = dec_u8 f.zone }

unfoldable pub key_dec : Key → Key
unfolding dec_type
key_dec k =
    let a = record k { fourth = dec_u8 k.fourth } in
    let b = record a { third = dec_u64 a.third } in
    let c = record b { second = dec_u64 b.second } in
    if not (a.fourth == u8_max)
    then a
    else if not (b.third == u64_max)
    then b
    else if not (c.second == u64_max)
    then c
    else dec_type c
