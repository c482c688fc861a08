-- ===== src/Spbm/Nodes.antt =====
-- The nodes of a sparse bitmap, and the bit that an index and a number in the node name.
use scoutfs.Spbm.{
  Spbm, SpbmNode, bitmap_empty, clear_at, find_alloc, find_node, spbm_bits, test_bit, write_bit,
  zero_bits,
}
use scoutfs.Spbm.Bits.{
  bitmap_empty-bit, bitmap_empty-test_bit, length-write_bit, length-zero_bits, test_bit-write_bit,
  test_bit-zero_bits,
}
use scoutfs.Prelude.{
  All, Bool, Bool-cases, List, Result, [], arith, enomem, err, false, if◌then◌else◌, inl, inr,
  length, ltb, none, not, ok, refl, some, true, ℕ, ◌&&◌, ◌<◌, ◌==◌, ◌||◌, ◌∙◌, ◌∷◌, ◌≡◌,
}

-- Nodes in order, each with 128 bits, not all of them clear.
unfoldable pub IsSpbm : Spbm → Type 0
IsSpbm [] = Unit
IsSpbm (n ∷ ns) =
    (length n.bits ≡ spbm_bits)
    × (bitmap_empty n.bits ≡ false)
    × All (λ m. n.index < m.index) ns
    × IsSpbm ns

abbrev pub bit_at : ℕ → ℕ → Spbm → Bool
bit_at index nr s = elim (find_node index s) [ none ↦ false | some n ↦ test_bit nr n.bits ]

abbrev fresh : ℕ → ℕ → SpbmNode
fresh index nr = record { index = index; bits = write_bit true nr (zero_bits spbm_bits) }

bit_at-below :
    (index nr : ℕ) → (s : Spbm) → All (λ m. index < m.index) s → bit_at index nr s ≡ false
unfolding find_node
bit_at-below index nr [] all = refl
bit_at-below index nr (n ∷ ns) all = ground arith

test_bit-fresh :
    (nr m : ℕ) → nr < 128 → test_bit m (write_bit true nr (zero_bits spbm_bits)) ≡ (m == nr)
test_bit-fresh nr m h = ground (
  arith,
  test_bit-write_bit true nr m (zero_bits spbm_bits),
  length-zero_bits spbm_bits,
  test_bit-zero_bits spbm_bits m,
)

written-bit :
    (nr : ℕ) → (bs : List Bool) → nr < length bs → bitmap_empty (write_bit true nr bs) ≡ false
written-bit nr bs h =
    bitmap_empty-bit (write_bit true nr bs) nr (ground (arith, test_bit-write_bit true nr nr bs))

All-lt_trans : (i j : ℕ) → (s : Spbm) → i < j → All (λ m. j < m.index) s → All (λ m. i < m.index) s
All-lt_trans i j [] h all = tt
All-lt_trans i j (n ∷ ns) h all = (omega (arith, h, all.0), All-lt_trans i j ns h all.1)

pub record BitSet (index nr : ℕ) (s u : Spbm) : Type 0 where
  pub is : IsSpbm u
  pub above : (k : ℕ) → k < index → All (λ m. k < m.index) s → All (λ m. k < m.index) u
  pub bits : (i m : ℕ) → bit_at i m u ≡ (i == index && m == nr || bit_at i m s)

fresh-BitSet :
    (index nr : ℕ)
    → (s : Spbm) → nr < 128
    → IsSpbm s
    → All (λ m. index < m.index) s
    → BitSet index nr s (fresh index nr ∷ s)
unfolding IsSpbm find_node
fresh-BitSet index nr s h v all = record {
  is = (
    ground (arith, length-write_bit true nr (zero_bits spbm_bits), length-zero_bits spbm_bits),
    written-bit nr (zero_bits spbm_bits) (ground (arith, length-zero_bits spbm_bits)),
    all,
    v,
  );
  above = λ k lt above. (lt, above);
  bits = λ i m. ground (
    arith,
    test_bit-fresh nr m,
    bit_at-below index m s all,
    bit_at-below i m s,
    All-lt_trans i index s,
  );
}

here-BitSet :
    (nr : ℕ)
    → (n : SpbmNode) → (ns : Spbm) → nr < 128
    → IsSpbm (n ∷ ns)
    → BitSet n.index nr (n ∷ ns) (record n { bits = write_bit true nr n.bits } ∷ ns)
unfolding IsSpbm find_node
here-BitSet nr n ns h v = record {
  is = (length-write_bit true nr n.bits ∙ v.0, written-bit nr n.bits (ground arith), v.2, v.3);
  above = λ k lt above. above;
  bits = λ i m. ground (arith, test_bit-write_bit true nr m n.bits);
}

later-BitSet :
    (index nr : ℕ)
    → (n : SpbmNode) → (ns us : Spbm) → n.index < index
    → IsSpbm (n ∷ ns)
    → BitSet index nr ns us
    → BitSet index nr (n ∷ ns) (n ∷ us)
unfolding IsSpbm find_node
later-BitSet index nr n ns us h v r = record {
  is = (v.0, v.1, r.above n.index h v.2, r.is);
  above = λ k lt above. (above.0, r.above k lt above.1);
  bits = λ i m. ground (arith, r.bits i m);
}

unfoldable pub SetsBit : (allocates : Bool) (index nr : ℕ) (s : Spbm) → Result Spbm → Type 0
SetsBit allocates index nr s (err e) = (e ≡ enomem) × (allocates ≡ false)
SetsBit allocates index nr s (ok u) = BitSet index nr s u

put_fresh :
    (allocates : Bool)
    → (index nr : ℕ) → (s : Spbm) → nr < 128
    → IsSpbm s
    → All (λ m. index < m.index) s
    → SetsBit allocates index nr s (if allocates then ok (fresh index nr ∷ s) else err enomem)
unfolding SetsBit
put_fresh true index nr s h v all = fresh-BitSet index nr s h v all
put_fresh false index nr s h v all = (refl, refl)

put_later :
    (allocates : Bool)
    → (index nr : ℕ) → (n : SpbmNode) → (ns : Spbm) → (r : Result Spbm) → n.index < index
    → IsSpbm (n ∷ ns)
    → SetsBit allocates index nr ns r
    → SetsBit allocates index nr (n ∷ ns) (elim r [ err e ↦ err e | ok ms ↦ ok (n ∷ ms) ])
unfolding SetsBit
put_later allocates index nr n ns (err e) h v k = k
put_later allocates index nr n ns (ok us) h v k = later-BitSet index nr n ns us h v k

pub find_alloc-SetsBit :
    (allocates : Bool)
    → (index nr : ℕ) → (s : Spbm) → nr < 128
    → IsSpbm s
    → SetsBit allocates index nr s (find_alloc allocates index nr s)
unfolding find_alloc IsSpbm SetsBit
find_alloc-SetsBit allocates index nr [] h v = put_fresh allocates index nr [] h v tt
find_alloc-SetsBit allocates index nr (n ∷ ns) h v = elim (Bool-cases (ltb index n.index)) [
  | inl below ↦
      rw (below, find_alloc)
        (put_fresh allocates index nr (n ∷ ns) h v
          (ground arith, All-lt_trans index n.index ns (ground arith) v.2))
  | inr not_below ↦ elim (Bool-cases (ltb n.index index)) [
    | inl above ↦
        rw (not_below, above, find_alloc)
          (put_later allocates index nr n ns (find_alloc allocates index nr ns) (ground arith) v
            (find_alloc-SetsBit allocates index nr ns h v.3))
    | inr not_above ↦
        let same : index ≡ n.index = ground arith in
        rw (not_below, not_above, find_alloc, same) (here-BitSet nr n ns h v)
  ]
]

pub record BitClear (index nr : ℕ) (s u : Spbm) : Type 0 where
  pub is : IsSpbm u
  pub above : (k : ℕ) → All (λ m. k < m.index) s → All (λ m. k < m.index) u
  pub bits : (i m : ℕ) → bit_at i m u ≡ (not (i == index && m == nr) && bit_at i m s)

pub clear_at-BitClear :
    (index nr : ℕ) → (s : Spbm) → nr < 128 → IsSpbm s → BitClear index nr s (clear_at index nr s)
unfolding clear_at IsSpbm find_node
clear_at-BitClear index nr [] h v = record {
  is = tt;
  above = λ k all. tt;
  bits = λ i m. ground arith;
}
clear_at-BitClear index nr (n ∷ ns) h v = elim (Bool-cases (ltb index n.index)) [
  | inl below ↦
      rw (below, clear_at) (record { is = v; above = λ k all. all; bits = λ i m. ground arith })
  | inr not_below ↦ elim (Bool-cases (ltb n.index index)) [
    | inl above ↦
        let r = clear_at-BitClear index nr ns h v.3 in
        rw (not_below, above, clear_at)
          (record {
            is = (v.0, v.1, r.above n.index v.2, r.is);
            above = λ k all. (all.0, r.above k all.1);
            bits = λ i m. ground (arith, r.bits i m);
          })
    | inr not_above ↦ elim (Bool-cases (bitmap_empty (write_bit false nr n.bits))) [
      | inl freed ↦
          rw (not_below, not_above, freed, clear_at)
            (record {
              is = v.3;
              above = λ k all. all.1;
              bits = λ i m. ground (
                arith,
                bit_at-below i m ns,
                All-lt_trans i n.index ns,
                test_bit-write_bit false nr m n.bits,
                bitmap_empty-test_bit (write_bit false nr n.bits) m,
              );
            })
      | inr kept ↦
          rw (not_below, not_above, kept, clear_at)
            (record {
              is = (length-write_bit false nr n.bits ∙ v.0, kept, v.2, v.3);
              above = λ k all. all;
              bits = λ i m. ground (arith, test_bit-write_bit false nr m n.bits);
            })
    ]
  ]
]
