-- ===== src/Quorum/Slots.antt =====
-- kmod/src/quorum.c: the checks of the configured slots, `verify_quorum_slots`. The kernel's tests of an address
-- are parameters.
pub mod Config
use scoutfs.Quorum.Majority.{votes_needed_of}
use scoutfs.Spbm.{test_bit}
use scoutfs.Prelude.{
  Bool, List, Option, Result, [], arith, einval, err, false, if◌then◌else◌, ltb, none, not, ok,
  some, true, ℕ, ◌&&◌, ◌+◌, ◌-◌, ◌/◌, ◌==◌, ◌∷◌, ◌≡◌,
}

-- A slot's address, where a slot that is not of the IPv4 family is not present
pub record Slot : Type 0 where
  pub is_ipv4 : Bool
  pub addr : ℕ
  pub port : ℕ

-- `ipv4_is_multicast`, `ipv4_is_lbcast`, `ipv4_is_zeronet` and `ipv4_is_local_multicast`
pub record Ipv4 : Type 0 where
  pub is_multicast : ℕ → Bool
  pub is_lbcast : ℕ → Bool
  pub is_zeronet : ℕ → Bool
  pub is_local_multicast : ℕ → Bool

unfoldable pub valid_ipv4_unicast : Ipv4 → ℕ → Bool
valid_ipv4_unicast ip addr =
    not (
      ip.is_multicast addr && ip.is_lbcast addr && ip.is_zeronet addr && ip.is_local_multicast addr)

unfoldable pub valid_ipv4_port : ℕ → Bool
valid_ipv4_port port = not (port == 0) && not (port == 65535)

abbrev pub same_address : Slot → Slot → Bool
same_address s t = s.addr == t.addr && s.port == t.port

-- The inner loop over the later slots
unfoldable pub has_same : Slot → List Slot → Bool
has_same s [] = false
has_same s (t ∷ ts) = if t.is_ipv4 && same_address s t then true else has_same s ts

-- The outer loop, with the number of slots found so far
unfoldable pub check_slots : Ipv4 → List Slot → ℕ → Result ℕ
check_slots ip [] found = ok found
check_slots ip (s ∷ ss) found =
    let rest = check_slots ip ss (found + 1) in
    if not s.is_ipv4
    then check_slots ip ss found
    else (if not (valid_ipv4_unicast ip s.addr)
        then err einval
        else (if not (valid_ipv4_port s.port)
            then err einval
            else (if has_same s ss then err einval else rest)))

-- `quorum_slot_present`
unfoldable pub quorum_slot_present : List Slot → ℕ → Bool
quorum_slot_present [] i = false
quorum_slot_present (s ∷ ss) i = if i == 0 then s.is_ipv4 else quorum_slot_present ss (i - 1)

-- The votes that are needed
unfoldable pub verify_quorum_slots : Ipv4 → List Slot → (our_quorum_slot_nr : ℕ) → Result ℕ
verify_quorum_slots ip slots nr = elim (check_slots ip slots 0) [
  | err e ↦ err e
  | ok found ↦
      if found == 0
      then err einval
      else (if not (quorum_slot_present slots nr)
          then err einval
          else (if ltb found 3 then ok 1 else ok (found / 2 + 1)))
]

abbrev pub members_of : List Slot → List Bool
members_of [] = []
members_of (s ∷ ss) = s.is_ipv4 ∷ members_of ss

-- Every address is taken for one that can be sent to, since none is at once a limited broadcast and of net zero.
pub valid_ipv4_unicast-always :
    (ip : Ipv4)
    → (addr : ℕ) → (ip.is_lbcast addr && ip.is_zeronet addr) ≡ false
    → valid_ipv4_unicast ip addr ≡ true
unfolding valid_ipv4_unicast
valid_ipv4_unicast-always ip addr h = ground arith

unfoldable pub slot_at : ℕ → List Slot → Option Slot
slot_at i [] = none
slot_at i (s ∷ ss) = if i == 0 then some s else slot_at (i - 1) ss

-- The slot `i` is present, and is `s`.
abbrev pub IsSlot : List Slot → ℕ → Slot → Type 0
IsSlot slots i s = (slot_at i slots ≡ some s) × (s.is_ipv4 ≡ true)

-- A configuration that the worker runs with
pub record IsConfig (ip : Ipv4) (slots : List Slot) (nr needed : ℕ) : Type 0 where
  pub ours : test_bit nr (members_of slots) ≡ true
  pub majority : needed ≡ votes_needed_of (members_of slots)
  pub valid :
      (i : ℕ)
      → (s : Slot) → IsSlot slots i s
      → (valid_ipv4_unicast ip s.addr ≡ true) × (valid_ipv4_port s.port ≡ true)
  pub distinct :
      (i j : ℕ)
      → (s t : Slot) → IsSlot slots i s
      → IsSlot slots j t
      → same_address s t ≡ true
      → i ≡ j
