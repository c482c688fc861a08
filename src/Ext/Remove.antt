-- ===== src/Ext/Remove.antt =====
-- `scoutfs_ext_remove` takes the mapping of a region away.
use scoutfs.Ext.{
  Change, ExtOps, Extent, Outcome, add_change, apply_changes, done, ext_inside, ext_remove, failed,
  ins, rem,
}
use scoutfs.Ext.Laws.{ExtLaws, IsExtent, NextIs, Owner, Stored}
use scoutfs.Ext.Changes.{AllAllowed, apply-Ends, change_owners}
use scoutfs.Ext.Mapping.{mapping}
use scoutfs.Ext.Split.{
  AllAllowed-add_change, change_owners-add_change, ext_inside-le, le-ext_inside, left_part,
  left_part-IsExtent, mapping-parts, right_part, right_part-IsExtent, split_covers,
}
use scoutfs.Prelude.{
  Bool, Bool-cases, Errno, List, Result-cases, [], arith, einval, enoent, false, if◌then◌else◌, inl,
  inr, leb, ltb, none, refl, some, sym, true, ℕ, ◌&&◌, ◌+◌, ◌<◌, ◌==◌, ◌^◌, ◌∙◌, ◌∷◌, ◌≡◌, ◌≤◌, ◌⊎◌,
}

module _ {ops : ExtOps} {IsFault : Errno → Type 0} (laws : ExtLaws ops IsFault) (s : ops.Store)
    (v : laws.IsStore s) (start len : ℕ) (pos : 0 < len) (fits : start + len < 2 ^ 64) where
  open laws use {IsStore, owner}

  abbrev taken : ℕ → Bool
  taken b = leb start b && ltb b (start + len)

  -- One stored extent holds the whole region.
  abbrev pub InOne : Owner → Extent → Type 0
  InOne o e = IsExtent e × Stored o e × (e.start ≤ start) × (start + len ≤ e.start + e.len)

  -- How a removal ends: the blocks of the region, which one extent held, are unmapped; no one extent holds them; or
  -- the storage fails.
  abbrev pub Removes : Outcome ops.Store → Type 0
  Removes r =
      (((e : Extent) × InOne (owner s) e)
        × ((s' : ops.Store) × (r ≡ done s')
            × IsStore s'
            × ((b : ℕ)
                → mapping (owner s' b) b ≡ (if taken b then none else mapping (owner s b) b))))
      ⊎ ((((e : Extent) → ¬ InOne (owner s) e) × ((r ≡ failed einval s) ⊎ (r ≡ failed enoent s)))
          ⊎ ((e : Errno) × (r ≡ failed e s) × IsFault e))

  module _ (f : Extent) (n : NextIs (owner s) start f) where
    -- Whatever extent holds the region is the one that was found.
    found-InOne : (e : Extent) → InOne (owner s) e → ext_inside start len f ≡ true
    found-InOne e h =
        let stored : owner s start ≡ some e = h.1 start (ground arith) in
        let good = n.0 in
        let ends = n.1 in
        elim (Bool-cases (leb f.start start)) [
          | inl before ↦
              let same : some e ≡ some f = sym stored ∙ n.2 start (ground arith) in
              le-ext_inside f start len n.0 pos fits (ground arith) (ground arith)
          | inr after ↦ absurd (ground (arith, stored, n.3 start))
        ]

    module _ (inside : ext_inside start len f ≡ true) where
      abbrev left : Extent
      left = left_part f start len n.0 pos fits inside

      abbrev right : Extent
      right = right_part f start len n.0 pos fits inside

      abbrev cs : List Change
      cs = add_change (add_change (rem f ∷ []) left ins) right ins

      split-AllAllowed : AllAllowed cs (owner s)
      split-AllAllowed =
          AllAllowed-add_change (add_change (rem f ∷ []) left ins) right (owner s)
            (AllAllowed-add_change (rem f ∷ []) left (owner s) ((n.0, n.2), tt)
              (λ h. (
                left_part-IsExtent f start len n.0 pos fits inside h,
                λ b c. ground (arith, split_covers f start len n.0 pos fits inside b),
              )))
            (λ h. (
              right_part-IsExtent f start len n.0 pos fits inside h,
              λ b c.
                  change_owners-add_change (rem f ∷ []) left (owner s) b
                  ∙ ground (arith, split_covers f start len n.0 pos fits inside b),
            ))

      split-mapping :
          (b : ℕ)
          → mapping (change_owners cs (owner s) b) b
            ≡ (if taken b then none else mapping (owner s b) b)
      split-mapping b =
          rw (change_owners-add_change (add_change (rem f ∷ []) left ins) right (owner s) b) (
            rw (change_owners-add_change (rem f ∷ []) left (owner s) b) (
              ground (
                arith,
                n.2 b,
                split_covers f start len n.0 pos fits inside b,
                mapping-parts f start len n.0 pos fits inside b,
              )))

      removed-Removes : Removes (apply_changes ops cs [] s)
      removed-Removes = elim (apply-Ends laws cs s v split-AllAllowed) [
        | inl (s', e, v', same) ↦ inl (
          (
            f,
            (
              n.0,
              n.2,
              (ext_inside-le f start len n.0 pos fits inside).0,
              (ext_inside-le f start len n.0 pos fits inside).1,
            ),
          ),
          (s', e, v', λ b. rw (same b) (split-mapping b)),
        )
        | inr fault ↦ inr (inr fault)
      ]

    stored_len : (f.len == 0) ≡ false
    stored_len = let good = n.0 in ground arith

-- Removing a region either unmaps its blocks, which one extent held, and changes the mapping of no other block,
-- whatever parts of the extent are left; or fails with EINVAL or ENOENT because no one extent holds them; or fails as
-- the storage does. After a failure the storage is what it was before, and no BUG_ON is hit. Holds over any storage
-- that keeps the laws of `ExtLaws`, for a region within the u64 range that is not empty.
pub ext_remove-Removes :
    {ops : ExtOps} {IsFault : Errno → Type 0} (laws : ExtLaws ops IsFault) (s : ops.Store)
    (v : laws.IsStore s) (start len : ℕ) (pos : 0 < len) (fits : start + len < 2 ^ 64)
    → Removes laws s v start len pos fits (ext_remove ops start len s)
unfolding ext_remove
ext_remove-Removes {ops} laws s v start len pos fits = elim (Result-cases (ops.next s start 1)) [
  | inl (f, e) ↦
      let n : NextIs (laws.owner s) start f = laws.next_finds s start f v e in
      elim (Bool-cases (ext_inside start len f)) [
        | inl inside ↦
            rw (e, inside, ext_remove, stored_len laws s v start len pos fits f n)
              (removed-Removes laws s v start len pos fits f n inside)
        | inr outside ↦
            rw (e, outside, ext_remove)
              (inr (inl (λ k h. cc (found-InOne laws s v start len pos fits f n k h), inl refl)))
      ]
  | inr (x, e) ↦ elim (laws.next_fault s start 1 x e) [
    | inl q ↦
        rw (e, q, ext_remove)
          (inr (
            inl (
              λ k h. absurd (ground (arith, laws.next_none s start v (rw q at e) start, h.1 start)),
              inr refl,
            )))
    | inr fault ↦ rw (e, ext_remove) (inr (inr (x, refl, fault)))
  ]
]
