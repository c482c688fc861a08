-- ===== src/Srch/Bytes.antt =====
-- Little-endian bytes of a buffer: what a read returns after writes.
use scoutfs.Srch.{Buffer, get_le, put_le}
use scoutfs.Prelude.{arith, refl, suc, sym, zero, ℕ, ◌%◌, ◌*◌, ◌+◌, ◌-◌, ◌/◌, ◌<◌, ◌^◌, ◌≡◌, ◌≤◌}
use native.Mathlib.Nat.{div-div-eq-div-mul, pow-suc, pow-succ', div-add-mod}

mod_split : (x p : ℕ) → x % 256 + 256 * (x / 256 % p) ≡ x % (256 * p)
mod_split x p = grind (
  arith,
  div-div-eq-div-mul x 256 p,
  div-add-mod (x / 256) p,
  div-add-mod x (256 * p),
  div-add-mod x 256,
)

mod_next :
    (val i bytes : ℕ)
    → val / 256 ^ i % 256 + 256 * (val / 256 ^ suc i % 256 ^ bytes)
      ≡ val / 256 ^ i % 256 ^ suc bytes
mod_next val i bytes =
    rw (pow-suc 256 i, sym (div-div-eq-div-mul val (256 ^ i) 256), pow-succ' 256 bytes)
      (mod_split (val / 256 ^ i) (256 ^ bytes))

put_le-inside :
    (width : ℕ)
    → (buf : Buffer) → (off at val : ℕ) → off ≤ at
    → at < off + width
    → put_le width buf off val at ≡ val / 256 ^ (at - off) % 256
unfolding put_le
put_le-inside width buf off at val h k = ground arith

pub get-put :
    (bytes width : ℕ)
    → (buf : Buffer) → (off at val : ℕ) → off ≤ at
    → at + bytes ≤ off + width
    → get_le bytes (put_le width buf off val) at ≡ val / 256 ^ (at - off) % 256 ^ bytes
unfolding get_le
get-put zero width buf off at val h k = ground arith
get-put (suc bytes) width buf off at val h k =
    let next : at + 1 - off ≡ suc (at - off) = omega arith in
    rw
      (
        put_le-inside width buf off at val h (omega arith),
        get-put bytes width buf off (at + 1) val (omega arith) (omega arith),
        next,
      )
      (mod_next val (at - off) bytes)

pub get-put_before :
    (bytes width : ℕ)
    → (buf : Buffer) → (off at val : ℕ) → at + bytes ≤ off
    → get_le bytes (put_le width buf off val) at ≡ get_le bytes buf at
unfolding get_le put_le
get-put_before zero width buf off at val h = refl
get-put_before (suc bytes) width buf off at val h =
    ground (arith, get-put_before bytes width buf off (at + 1) val)

pub get-put_after :
    (bytes width : ℕ)
    → (buf : Buffer) → (off at val : ℕ) → off + width ≤ at
    → get_le bytes (put_le width buf off val) at ≡ get_le bytes buf at
unfolding get_le put_le
get-put_after zero width buf off at val h = refl
get-put_after (suc bytes) width buf off at val h =
    ground (arith, get-put_after bytes width buf off (at + 1) val)
