-- ===== src/Spbm.antt =====
-- kmod/src/spbm.c: a sparse bitmap, a tree of nodes of 128 bits. The red-black tree is the list of its nodes in the
-- order of their indices; the array of bits is a list.
pub mod Bits
mod Nodes
mod Sets
mod Examples
use scoutfs.Prelude.{
  Bool, List, Option, Result, [], enomem, err, false, if◌then◌else◌, ltb, none, not, ok, some, suc,
  true, zero, ℕ, ◌%◌, ◌&&◌, ◌-◌, ◌/◌, ◌==◌, ◌∷◌,
}

-- `struct spbm_node`
pub record SpbmNode : Type 0 where
  pub index : ℕ
  pub bits : List Bool

-- `struct scoutfs_spbm`
abbrev pub Spbm : Type 0
Spbm = List SpbmNode

abbrev pub spbm_bits : ℕ
spbm_bits = 128

abbrev pub spbm_init : Spbm
spbm_init = []

abbrev pub spbm_empty : Spbm → Bool
spbm_empty [] = true
spbm_empty (n ∷ ns) = false

-- `kzalloc` of a bitmap
unfoldable pub zero_bits : ℕ → List Bool
zero_bits zero = []
zero_bits (suc n) = false ∷ zero_bits n

-- `set_bit`, `clear_bit` and `test_bit` within the array
unfoldable pub write_bit : Bool → ℕ → List Bool → List Bool
write_bit v nr [] = []
write_bit v nr (b ∷ bs) = if nr == 0 then v ∷ bs else b ∷ write_bit v (nr - 1) bs

unfoldable pub test_bit : ℕ → List Bool → Bool
test_bit nr [] = false
test_bit nr (b ∷ bs) = if nr == 0 then b else test_bit (nr - 1) bs

unfoldable pub bitmap_empty : List Bool → Bool
bitmap_empty [] = true
bitmap_empty (b ∷ bs) = not b && bitmap_empty bs

abbrev pub calc_index_nr : ℕ → ℕ × ℕ
calc_index_nr bit = (bit / spbm_bits, bit % spbm_bits)

-- `find_node` without SPBM_FIND_ALLOC: the walk ends where the order says that the index is missing.
unfoldable pub find_node : ℕ → Spbm → Option SpbmNode
find_node index [] = none
find_node index (n ∷ ns) =
    if ltb index n.index then none else if ltb n.index index then find_node index ns else some n

-- `find_node` with SPBM_FIND_ALLOC, and the bit that the caller sets in the node. Does `kzalloc` succeed?
unfoldable pub find_alloc : Bool → ℕ → ℕ → Spbm → Result Spbm
find_alloc allocates index nr [] =
    if allocates
    then ok (record { index = index; bits = write_bit true nr (zero_bits spbm_bits) } ∷ [])
    else err enomem
find_alloc allocates index nr (n ∷ ns) =
    let rest = find_alloc allocates index nr ns in
    if ltb index n.index
    then (if allocates
        then ok (record { index = index; bits = write_bit true nr (zero_bits spbm_bits) } ∷ n ∷ ns)
        else err enomem)
    else if ltb n.index index
    then elim rest [ err e ↦ err e | ok ms ↦ ok (n ∷ ms) ]
    else ok (record n { bits = write_bit true nr n.bits } ∷ ns)

unfoldable pub spbm_set : Bool → ℕ → Spbm → Result Spbm
spbm_set allocates bit s = let (index, nr) = calc_index_nr bit in find_alloc allocates index nr s

unfoldable pub spbm_test : ℕ → Spbm → Bool
spbm_test bit s =
    let (index, nr) = calc_index_nr bit in
    elim (find_node index s) [ none ↦ false | some n ↦ test_bit nr n.bits ]

-- The node of an index with the bit cleared, and freed if no bit is left.
unfoldable pub clear_at : ℕ → ℕ → Spbm → Spbm
clear_at index nr [] = []
clear_at index nr (n ∷ ns) =
    let bits = write_bit false nr n.bits in
    if ltb index n.index
    then n ∷ ns
    else if ltb n.index index
    then n ∷ clear_at index nr ns
    else if bitmap_empty bits
    then ns
    else record n { bits = bits } ∷ ns

unfoldable pub spbm_clear : ℕ → Spbm → Spbm
spbm_clear bit s = let (index, nr) = calc_index_nr bit in clear_at index nr s

abbrev pub spbm_destroy : Spbm → Spbm
spbm_destroy s = []
