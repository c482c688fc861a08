-- ===== src/Ext/Laws.antt =====
-- What ext.c relies on of the storage behind its callbacks: disjoint extents, found by their blocks.
use scoutfs.Ext.{ExtOps, Extent}
use scoutfs.Prelude.{
  Bool, Errno, Option, enoent, err, if◌then◌else◌, leb, ltb, none, ok, some, true, ℕ, ◌&&◌, ◌+◌,
  ◌<◌, ◌^◌, ◌≡◌, ◌≤◌, ◌⊎◌,
}

abbrev pub covers : Extent → ℕ → Bool
covers e b = leb e.start b && ltb b (e.start + e.len)

-- An extent that is not empty and whose blocks have u64 numbers.
abbrev pub IsExtent : Extent → Type 0
IsExtent e = (0 < e.len) × (e.start + e.len < 2 ^ 64) × (e.map + e.len < 2 ^ 64)

-- The extent that owns each block, if any.
abbrev pub Owner : Type 0
Owner = ℕ → Option Extent

abbrev pub Stored : Owner → Extent → Type 0
Stored o e = (b : ℕ) → covers e b ≡ true → o b ≡ some e

abbrev pub Free : Owner → Extent → Type 0
Free o e = (b : ℕ) → covers e b ≡ true → o b ≡ none

-- What `next` from `start` for one block finds: the first extent that does not end before it.
abbrev pub NextIs : Owner → ℕ → Extent → Type 0
NextIs o start e =
    IsExtent e
    × (start < e.start + e.len)
    × Stored o e
    × ((b : ℕ) → start ≤ b → b < e.start → o b ≡ none)

-- The laws, over the errors `IsFault` by which the storage itself may fail.
pub record ExtLaws (ops : ExtOps) (IsFault : Errno → Type 0) : Type 1 where
  pub IsStore : ops.Store → Type 0
  pub owner : ops.Store → Owner
  pub next_finds :
      (s : ops.Store) (start : ℕ) (e : Extent)
      → IsStore s
      → ops.next s start 1 ≡ ok e
      → NextIs (owner s) start e
  pub next_none :
      (s : ops.Store) (start : ℕ)
      → IsStore s
      → ops.next s start 1 ≡ err enoent
      → (b : ℕ) → start ≤ b
      → owner s b ≡ none
  pub next_stored :
      (s : ops.Store) (start len : ℕ) (e : Extent)
      → IsStore s
      → ops.next s start len ≡ ok e
      → IsExtent e × Stored (owner s) e
  pub next_fault :
      (s : ops.Store) (start len : ℕ) (x : Errno)
      → ops.next s start len ≡ err x
      → (x ≡ enoent) ⊎ IsFault x
  pub insert_adds :
      (s s' : ops.Store) (e : Extent)
      → IsStore s
      → IsExtent e
      → Free (owner s) e
      → ops.insert s e ≡ ok s'
      → IsStore s'
        × ((b : ℕ) → owner s' b ≡ (if covers e b then some e else owner s b))
        × (ops.remove s' e ≡ ok s)
  pub insert_fault :
      (s : ops.Store) (e : Extent) (x : Errno)
      → IsStore s
      → IsExtent e
      → Free (owner s) e
      → ops.insert s e ≡ err x
      → IsFault x
  pub remove_takes :
      (s s' : ops.Store) (e : Extent)
      → IsStore s
      → IsExtent e
      → Stored (owner s) e
      → ops.remove s e ≡ ok s'
      → IsStore s'
        × ((b : ℕ) → owner s' b ≡ (if covers e b then none else owner s b))
        × (ops.insert s' e ≡ ok s)
  pub remove_fault :
      (s : ops.Store) (e : Extent) (x : Errno)
      → IsStore s
      → IsExtent e
      → Stored (owner s) e
      → ops.remove s e ≡ err x
      → IsFault x
