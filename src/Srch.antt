-- ===== src/Srch.antt =====
-- kmod/src/srch.c: entries of the xattr search index, and how a block stores them as differences. The
-- bytes of a block are a function of their offset.
pub mod Zigzag
mod Bytes
mod Entry
mod Cmp
mod Track
mod Examples
use scoutfs.Key.{cmp, dec_u64, inc_u64, u64_max, ◌or_else◌}
use scoutfs.Prelude.{
  Bool, Ordering, bit_or, if◌then◌else◌, leb, ltb, not, suc, zero, ℕ, ◌%◌, ◌&&◌, ◌*◌, ◌+◌, ◌-◌, ◌/◌,
  ◌<◌, ◌==◌, ◌^◌,
}

-- `struct scoutfs_srch_entry`
pub record SrchEntry : Type 0 where
  pub hash : ℕ
  pub ino : ℕ
  pub id : ℕ

pub record IsEntry (e : SrchEntry) : Type 0 where
  pub hash_u64 : e.hash < 2 ^ 64
  pub ino_u64 : e.ino < 2 ^ 64
  pub id_u64 : e.id < 2 ^ 64

unfoldable pub sre_cmp : SrchEntry → SrchEntry → Ordering
sre_cmp a b = cmp a.hash b.hash or_else cmp a.ino b.ino or_else cmp a.id b.id

unfoldable pub sre_inc : SrchEntry → SrchEntry
sre_inc e =
    let a = record e { id = inc_u64 e.id } in
    let b = record a { ino = inc_u64 a.ino } in
    if not (a.id == 0)
    then a
    else if not (b.ino == 0)
    then b
    else record b { hash = inc_u64 b.hash }

unfoldable pub sre_dec : SrchEntry → SrchEntry
sre_dec e =
    let a = record e { id = dec_u64 e.id } in
    let b = record a { ino = dec_u64 a.ino } in
    if not (a.id == u64_max)
    then a
    else if not (b.ino == u64_max)
    then b
    else record b { hash = dec_u64 b.hash }

abbrev pub Buffer : Type 0
Buffer = ℕ → ℕ

-- `x ^ m` on u64, for a mask `m` of all zeros or all ones.
abbrev pub xor_mask : Bool → ℕ → ℕ
xor_mask ones x = if ones then u64_max - x else x

-- The value that `encode_u64` stores: the sign goes to the lowest bit.
unfoldable pub zigzag : ℕ → ℕ
zigzag val = xor_mask (leb (2 ^ 63) val) (val * 2 % 2 ^ 64)

-- The inverse, from the end of `decode_u64`.
unfoldable pub unzigzag : ℕ → ℕ
unzigzag val = xor_mask (val % 2 == 1) (val / 2)

-- `fls64`: the number of bits up to the highest that is set, in at most `fuel` of them.
unfoldable pub fls : ℕ → ℕ → ℕ
fls zero n = 0
fls (suc fuel) n = if n == 0 then 0 else suc (fls fuel (n / 2))

abbrev pub fls64 : ℕ → ℕ
fls64 n = fls 64 n

-- `put_unaligned_le64` and `put_unaligned_le16` at an offset.
unfoldable pub put_le : ℕ → Buffer → ℕ → ℕ → Buffer
put_le width buf off val =
    λ j. if leb off j && ltb j (off + width) then val / 256 ^ (j - off) % 256 else buf j

-- The low `bytes` bytes of what `get_unaligned_le64` reads, as `& byte_masks[bytes]` leaves them.
unfoldable pub get_le : ℕ → Buffer → ℕ → ℕ
get_le zero buf off = 0
get_le (suc bytes) buf off = buf off + 256 * get_le bytes buf (off + 1)

abbrev pub encoded_bytes : ℕ → ℕ
encoded_bytes val = (fls64 (zigzag val) + 7) / 8

unfoldable pub encode_u64 : Buffer → ℕ → ℕ → Buffer × ℕ
encode_u64 buf off val = (put_le 8 buf off (zigzag val), encoded_bytes val)

unfoldable pub decode_u64 : Buffer → ℕ → ℕ → ℕ
decode_u64 buf off bytes = unzigzag (get_le bytes buf off)

abbrev pub diff_u64 : ℕ → ℕ → ℕ
diff_u64 a b = (a + (2 ^ 64 - b)) % 2 ^ 64

-- `lengths |= bytes << (i << 2)` for the three differences.
unfoldable pub pack_lengths : ℕ → ℕ → ℕ → ℕ
pack_lengths a b c = bit_or (bit_or a (b * 2 ^ 4)) (c * 2 ^ 8)

-- The block after the entry is written at `pos`, and the number of bytes that it takes.
unfoldable pub encode_entry : Buffer → ℕ → SrchEntry → SrchEntry → Buffer × ℕ
encode_entry buf pos sre prev =
    let (b₁, n₁) = encode_u64 buf (pos + 2) (diff_u64 sre.hash prev.hash) in
    let (b₂, n₂) = encode_u64 b₁ (pos + (2 + n₁)) (diff_u64 sre.ino prev.ino) in
    let (b₃, n₃) = encode_u64 b₂ (pos + (2 + n₁ + n₂)) (diff_u64 sre.id prev.id) in
    (put_le 2 b₃ pos (pack_lengths n₁ n₂ n₃), 2 + n₁ + n₂ + n₃)

-- `min_t(int, 8, lengths & 15)` after `i` shifts by four.
abbrev pub length_of : ℕ → ℕ → ℕ
length_of lengths i = let n = lengths / 16 ^ i % 16 in if ltb n 8 then n else 8

unfoldable pub decode_entry : Buffer → ℕ → SrchEntry → SrchEntry × ℕ
decode_entry buf pos prev =
    let lengths = get_le 2 buf pos in
    let n₁ = length_of lengths 0 in
    let n₂ = length_of lengths 1 in
    let n₃ = length_of lengths 2 in
    let d₁ = decode_u64 buf (pos + 2) n₁ in
    let d₂ = decode_u64 buf (pos + (2 + n₁)) n₂ in
    let d₃ = decode_u64 buf (pos + (2 + n₁ + n₂)) n₃ in
    (
      record {
        hash = (prev.hash + d₁) % 2 ^ 64;
        ino = (prev.ino + d₂) % 2 ^ 64;
        id = (prev.id + d₃) % 2 ^ 64;
      },
      2 + n₁ + n₂ + n₃,
    )
