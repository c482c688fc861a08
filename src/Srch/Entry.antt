-- ===== src/Srch/Entry.antt =====
-- Entries that follow each other in a block of the search index: what `decode_entry` reads back.
use scoutfs.Srch.Zigzag.{encoded_bytes-enough, encoded_bytes-le, unzigzag-zigzag}
use scoutfs.Srch.{
  Buffer, IsEntry, SrchEntry, decode_entry, decode_u64, diff_u64, encode_entry, encode_u64,
  encoded_bytes, get_le, length_of, pack_lengths, put_le, zigzag,
}
use scoutfs.Srch.Bytes.{get-put, get-put_after, get-put_before}
use native.Mathlib.Nat.{mod-eq_of_lt}
use scoutfs.Prelude.{
  all_below, all_below-true, arith, refl, true, ℕ, ◌%◌, ◌*◌, ◌+◌, ◌-◌, ◌<◌, ◌==◌, ◌^◌, ◌≡◌, ◌≤◌,
}

packs :
    all_below 9
      (λ a. all_below 9 (λ b. all_below 9 (λ c. pack_lengths a b c == a + 16 * b + 256 * c)))
    ≡ true
unfolding all_below pack_lengths
packs = refl

pack_lengths-sum : (a b c : ℕ) → a ≤ 8 → b ≤ 8 → c ≤ 8 → pack_lengths a b c ≡ a + 16 * b + 256 * c
pack_lengths-sum a b c ha hb hc =
    let ra : all_below 9 (λ b. all_below 9 (λ c. pack_lengths a b c == a + 16 * b + 256 * c))
        ≡ true =
      all_below-true 9
        (λ a. all_below 9 (λ b. all_below 9 (λ c. pack_lengths a b c == a + 16 * b + 256 * c)))
        packs a (omega arith) in
    let rb : all_below 9 (λ c. pack_lengths a b c == a + 16 * b + 256 * c) ≡ true =
      all_below-true 9 (λ b. all_below 9 (λ c. pack_lengths a b c == a + 16 * b + 256 * c)) ra b
        (omega arith) in
    ground
      (arith, all_below-true 9 (λ c. pack_lengths a b c == a + 16 * b + 256 * c) rb c (omega arith))

length_of-pack_lengths :
    (a b c : ℕ)
    → a ≤ 8
    → b ≤ 8
    → c ≤ 8
    → (length_of (pack_lengths a b c) 0 ≡ a)
      × (length_of (pack_lengths a b c) 1 ≡ b)
      × (length_of (pack_lengths a b c) 2 ≡ c)
length_of-pack_lengths a b c ha hb hc = rw (pack_lengths-sum a b c ha hb hc) (ground arith)

-- The difference of a field and the one before it gives the field back.
diff-add : (a b : ℕ) → a < 2 ^ 64 → b < 2 ^ 64 → (b + diff_u64 a b) % 2 ^ 64 ≡ a
diff-add a b ha hb = ground arith

module _ (buf : Buffer) (pos n₁ n₂ n₃ : ℕ) (v₁ v₂ v₃ lengths : ℕ) where
  b₁ : Buffer
  b₁ = put_le 8 buf (pos + 2) v₁

  b₂ : Buffer
  b₂ = put_le 8 b₁ (pos + (2 + n₁)) v₂

  b₃ : Buffer
  b₃ = put_le 8 b₂ (pos + (2 + n₁ + n₂)) v₃

  b₄ : Buffer
  b₄ = put_le 2 b₃ pos lengths

  get-lengths : lengths < 2 ^ 16 → get_le 2 b₄ pos ≡ lengths
  unfolding b₄
  get-lengths h = rw (get-put 2 2 b₃ pos pos lengths (omega arith) (omega arith)) (ground arith)

  get-value : (b : Buffer) → (n at v : ℕ) → n ≤ 8 → v < 256 ^ n → get_le n (put_le 8 b at v) at ≡ v
  get-value b n at v h k =
      let here : at - at ≡ 0 = omega arith in
      rw (get-put n 8 b at at v (omega arith) (omega arith), here) (ground (arith, mod-eq_of_lt k))

  get-first : n₁ ≤ 8 → v₁ < 256 ^ n₁ → get_le n₁ b₄ (pos + 2) ≡ v₁
  unfolding b₁ b₂ b₃ b₄
  get-first h k =
      rw
        (
          get-put_after n₁ 2 b₃ pos (pos + 2) lengths (omega arith),
          get-put_before n₁ 8 b₂ (pos + (2 + n₁ + n₂)) (pos + 2) v₃ (omega arith),
          get-put_before n₁ 8 b₁ (pos + (2 + n₁)) (pos + 2) v₂ (omega arith),
        )
        (get-value buf n₁ (pos + 2) v₁ h k)

  get-second : n₂ ≤ 8 → v₂ < 256 ^ n₂ → get_le n₂ b₄ (pos + (2 + n₁)) ≡ v₂
  unfolding b₂ b₃ b₄
  get-second h k =
      rw
        (
          get-put_after n₂ 2 b₃ pos (pos + (2 + n₁)) lengths (omega arith),
          get-put_before n₂ 8 b₂ (pos + (2 + n₁ + n₂)) (pos + (2 + n₁)) v₃ (omega arith),
        )
        (get-value b₁ n₂ (pos + (2 + n₁)) v₂ h k)

  get-third : n₃ ≤ 8 → v₃ < 256 ^ n₃ → get_le n₃ b₄ (pos + (2 + n₁ + n₂)) ≡ v₃
  unfolding b₃ b₄
  get-third h k =
      rw (get-put_after n₃ 2 b₃ pos (pos + (2 + n₁ + n₂)) lengths (omega arith))
        (get-value b₂ n₃ (pos + (2 + n₁ + n₂)) v₃ h k)

decode-reads :
    (b : Buffer)
    → (pos lengths n₁ n₂ n₃ : ℕ) → (sre prev : SrchEntry) → IsEntry sre
    → IsEntry prev
    → get_le 2 b pos ≡ lengths
    → (length_of lengths 0 ≡ n₁) × (length_of lengths 1 ≡ n₂) × (length_of lengths 2 ≡ n₃)
    → get_le n₁ b (pos + 2) ≡ zigzag (diff_u64 sre.hash prev.hash)
    → get_le n₂ b (pos + (2 + n₁)) ≡ zigzag (diff_u64 sre.ino prev.ino)
    → get_le n₃ b (pos + (2 + n₁ + n₂)) ≡ zigzag (diff_u64 sre.id prev.id)
    → decode_entry b pos prev ≡ (sre, 2 + n₁ + n₂ + n₃)
unfolding decode_entry decode_u64
decode-reads b pos lengths n₁ n₂ n₃ sre prev is_sre is_prev read (len₁, len₂, len₃) read₁ read₂
      read₃ =
    rw
      (
        read,
        len₁,
        len₂,
        len₃,
        read₁,
        read₂,
        read₃,
        unzigzag-zigzag (diff_u64 sre.hash prev.hash) (ground arith),
        unzigzag-zigzag (diff_u64 sre.ino prev.ino) (ground arith),
        unzigzag-zigzag (diff_u64 sre.id prev.id) (ground arith),
        diff-add sre.hash prev.hash is_sre.hash_u64 is_prev.hash_u64,
        diff-add sre.ino prev.ino is_sre.ino_u64 is_prev.ino_u64,
        diff-add sre.id prev.id is_sre.id_u64 is_prev.id_u64,
      )
      refl

-- An entry that is written behind another is read back behind it, with as many bytes: all fields are of 64 bits.
pub decode_entry-encode_entry :
    (buf : Buffer)
    → (pos : ℕ) → (sre prev : SrchEntry) → IsEntry sre
    → IsEntry prev
    → decode_entry (encode_entry buf pos sre prev).0 pos prev
      ≡ (sre, (encode_entry buf pos sre prev).1)
unfolding decode_entry encode_entry decode_u64 encode_u64 b₁ b₂ b₃ b₄
decode_entry-encode_entry buf pos sre prev is_sre is_prev =
    let n₁ = encoded_bytes (diff_u64 sre.hash prev.hash) in
    let n₂ = encoded_bytes (diff_u64 sre.ino prev.ino) in
    let n₃ = encoded_bytes (diff_u64 sre.id prev.id) in
    let v₁ = zigzag (diff_u64 sre.hash prev.hash) in
    let v₂ = zigzag (diff_u64 sre.ino prev.ino) in
    let v₃ = zigzag (diff_u64 sre.id prev.id) in
    let lengths = pack_lengths n₁ n₂ n₃ in
    let le₁ = encoded_bytes-le (diff_u64 sre.hash prev.hash) in
    let le₂ = encoded_bytes-le (diff_u64 sre.ino prev.ino) in
    let le₃ = encoded_bytes-le (diff_u64 sre.id prev.id) in
    decode-reads (b₄ buf pos n₁ n₂ n₃ v₁ v₂ v₃ lengths) pos lengths n₁ n₂ n₃ sre prev is_sre is_prev
      (get-lengths buf pos n₁ n₂ n₃ v₁ v₂ v₃ lengths
        (ground (arith, pack_lengths-sum n₁ n₂ n₃ le₁ le₂ le₃)))
      (length_of-pack_lengths n₁ n₂ n₃ le₁ le₂ le₃)
      (get-first buf pos n₁ n₂ n₃ v₁ v₂ v₃ lengths le₁
        (encoded_bytes-enough (diff_u64 sre.hash prev.hash) (ground arith)))
      (get-second buf pos n₁ n₂ n₃ v₁ v₂ v₃ lengths le₂
        (encoded_bytes-enough (diff_u64 sre.ino prev.ino) (ground arith)))
      (get-third buf pos n₁ n₂ n₃ v₁ v₂ v₃ lengths le₃
        (encoded_bytes-enough (diff_u64 sre.id prev.id) (ground arith)))
