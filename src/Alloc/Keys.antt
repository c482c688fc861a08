-- ===== src/Alloc/Keys.antt =====
-- Keys of free extents: what is read back, and what a search in each index finds first.
use scoutfs.Alloc.{Zone, blkno, ext_from_key, free_extent_order, init_ext_key, or_one, order}
use scoutfs.Key.{key_compare}
use scoutfs.Srch.Zigzag.{fls-le, fls-pos, lt-fls, pow-fls}
use scoutfs.Srch.{fls64}
use native.Mathlib.Nat.{pow-succ', pow-le-pow_right}
use scoutfs.Prelude.{
  Bool-cases, Ordering, arith, inl, inr, subst, suc, sym, zero, ℕ, ◌%◌, ◌*◌, ◌+◌, ◌-◌, ◌<◌, ◌==◌,
  ◌^◌, ◌↔◌, ◌≡◌, ◌≤◌,
}

-- The key of an extent gives the extent back, in both zones: it has blocks, all below 2 ^ 64.
pub ext_from_key-init_ext_key :
    (zone : Zone)
    → (start len : ℕ) → 0 < len
    → start + len ≤ 2 ^ 64
    → start < 2 ^ 64
    → len < 2 ^ 64
    → ext_from_key (init_ext_key zone start len)
      ≡ record { start = start; len = len; map = 0; flags = 0 }
unfolding ext_from_key init_ext_key
ext_from_key-init_ext_key zone start zero h k a b = absurd (omega (arith, h))
ext_from_key-init_ext_key blkno start (suc n) h k a b = ground arith
ext_from_key-init_ext_key order start (suc n) h k a b = ground arith

-- In the index by location, the keys before that of one block are those of the extents that end before the block: so
-- the next key is that of the first extent that ends at the block or behind it.
pub init_ext_key-blkno :
    (start len b : ℕ)
    → 0 < len
    → start + len ≤ 2 ^ 64
    → b < 2 ^ 64
    → (key_compare (init_ext_key blkno start len) (init_ext_key blkno b 1) ≡ Ordering.lt)
      ↔ (start + len ≤ b)
unfolding key_compare init_ext_key
init_ext_key-blkno start zero b h k a = absurd (omega (arith, h))
init_ext_key-blkno start (suc n) b h k a = (λ e. ground arith, λ e. ground arith)

free_extent_order-le : (len : ℕ) → free_extent_order len ≤ 21
unfolding free_extent_order
free_extent_order-le len = omega (arith, fls-le 64 (or_one len))

-- In the index by order, an extent of a greater order comes before one of a smaller order.
pub init_ext_key-order :
    (a n b m : ℕ)
    → 0 < n
    → 0 < m
    → free_extent_order m < free_extent_order n
    → key_compare (init_ext_key order a n) (init_ext_key order b m) ≡ Ordering.lt
unfolding key_compare init_ext_key
init_ext_key-order a zero b m h k less = absurd (omega (arith, h))
init_ext_key-order a (suc n) b zero h k less = absurd (omega (arith, k))
init_ext_key-order a (suc n) b (suc m) h k less =
    ground (arith, free_extent_order-le (suc n), free_extent_order-le (suc m))

len_le_or_one : (len : ℕ) → len ≤ or_one len
len_le_or_one len = ground arith

even_below : (p len : ℕ) → p % 2 ≡ 0 → p ≤ or_one len → p ≤ len
even_below p len h k = ground arith

pow-even : (o : ℕ) → 0 < o → 2 ^ (o * 3) % 2 ≡ 0
pow-even zero h = absurd (omega (arith, h))
pow-even (suc o) h =
    let e : suc o * 3 ≡ suc (o * 3 + 2) = omega arith in
    rw (e, pow-succ' 2 (o * 3 + 2)) (ground arith)

-- The order of a length is the floor of its logarithm to the base 8; a length of at least 1.
pub free_extent_order-bounds :
    (len : ℕ)
    → 0 < len
    → len < 2 ^ 64
    → (2 ^ (free_extent_order len * 3) ≤ len) × (len < 2 ^ (free_extent_order len * 3 + 3))
unfolding free_extent_order
free_extent_order-bounds len h k =
    let fits : or_one len < 2 ^ 64 = ground arith in
    let pos : 0 < or_one len = ground arith in
    let bits = fls-pos 64 (or_one len) pos fits in
    let low : 2 ^ (free_extent_order len * 3) ≤ 2 ^ (fls64 (or_one len) - 1) =
      pow-le-pow_right (omega arith) (omega arith) in
    let high : 2 ^ fls64 (or_one len) ≤ 2 ^ (free_extent_order len * 3 + 3) =
      pow-le-pow_right (omega arith) (omega (arith, bits)) in
    let below : 2 ^ (free_extent_order len * 3) ≤ or_one len =
      omega (arith, low, pow-fls 64 (or_one len) pos fits) in
    (
      elim (Bool-cases (free_extent_order len == 0)) [
        | inl o ↦
            let zeroth : free_extent_order len ≡ 0 = ground arith in
            subst (λ n. 2 ^ (n * 3) ≤ len) (sym zeroth) h
        | inr o ↦
            even_below (2 ^ (free_extent_order len * 3)) len
              (pow-even (free_extent_order len) (ground arith)) below
      ],
      omega (arith, high, lt-fls 64 (or_one len) fits, len_le_or_one len),
    )
