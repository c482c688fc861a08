-- ===== src/Ext/Insert.antt =====
-- `scoutfs_ext_insert` adds a mapping of free blocks.
use scoutfs.Ext.{
  Change, ExtOps, Extent, Outcome, add_change, add_u64, apply_changes, done, ext_can_merge,
  ext_insert, ext_overlap, failed, ins, insert_found, insert_left, rem,
}
use scoutfs.Ext.Laws.{ExtLaws, Free, IsExtent, NextIs, Owner, Stored, covers}
use scoutfs.Ext.Changes.{AllAllowed, apply-Ends, change_owner, change_owners, on_error_cases}
use scoutfs.Ext.Mapping.{
  AllAllowed-snoc, SameKind, Uniform, add_change_pos, change_owners-snoc, mapping, mapping-merged,
  merged, merged-IsExtent,
}
use scoutfs.Prelude.{
  Bool, Bool-cases, Errno, List, Result-cases, [], ap, arith, einval, false, if◌then◌else◌, inl,
  inr, leb, none, refl, some, sym, true, ℕ, ◌++◌, ◌+◌, ◌-◌, ◌<◌, ◌==◌, ◌^◌, ◌∙◌, ◌∷◌, ◌≡◌, ◌≢◌, ◌⊎◌,
}

module _ {ops : ExtOps} {IsFault : Errno → Type 0} (laws : ExtLaws ops IsFault)
    (unmapped : ℕ → Bool) (s : ops.Store) (v : laws.IsStore s)
    (u : Uniform unmapped (laws.owner s)) where
  open laws use {IsStore, owner}

  -- The mapping of `i` over those of the owners `o`, or a fault with the storage as it was.
  abbrev Adds : Extent → Owner → Outcome ops.Store → Type 0
  Adds i o r =
      ((s' : ops.Store) × (r ≡ done s')
        × IsStore s'
        × ((b : ℕ)
            → mapping (owner s' b) b
              ≡ (if covers i b then mapping (some i) b else mapping (o b) b)))
      ⊎ ((e : Errno) × (r ≡ failed e s) × IsFault e)

  -- The changes before the left neighbour is looked at, with what they leave at and below `i`.
  record Before (chg : List Change) (o : Owner) (i : Extent) : Type 0 where
    allowed : AllAllowed chg (owner s)
    owners : change_owners chg (owner s) ≡ o
    is_extent : IsExtent i
    free : Free o i
    below : (b : ℕ) → b < i.start → o b ≡ owner s b
    kind : (i.map == 0) ≡ unmapped i.flags

  insert_only-Adds :
      (chg : List Change) (o : Owner) (i : Extent)
      → Before chg o i
      → Adds i o (apply_changes ops (add_change chg i ins) [] s)
  insert_only-Adds chg o i h =
      rw (add_change_pos chg i ins h.is_extent.0)
        (elim (apply-Ends laws (chg ++ ins i ∷ []) s v
          (AllAllowed-snoc chg (ins i) (owner s) h.allowed (rw h.owners (h.is_extent, h.free)))) [
            | inl (s', e, v', same) ↦
                inl (s', e, v', λ b. rw (same b, change_owners-snoc, h.owners) (ground arith))
            | inr f ↦ inr f
          ])

  -- The extent found to the left, when it merges.
  module _ (chg : List Change) (o : Owner) (i l : Extent) (h : Before chg o i)
      (n : NextIs (owner s) (i.start - 1) l) (merges : ext_can_merge l i ≡ true) where
    left_ends : (l.start + l.len ≡ i.start) × (l.flags ≡ i.flags)
    unfolding ext_can_merge
    left_ends = let is_l = n.0 in let is_i = h.is_extent in ground (arith, merges)

    left_first : covers l l.start ≡ true
    left_first = let is_l = n.0 in ground arith

    left_kind : SameKind l i
    left_kind same = u l.start l (n.2 l.start left_first) ∙ ap unmapped same ∙ sym h.kind

    left-Stored : Stored o l
    left-Stored b c = h.below b (let e = left_ends in ground arith) ∙ n.2 b c

    -- The owners once the left extent is gone.
    abbrev o' : Owner
    o' = change_owner (rem l) o

    merged-Free : Free o' (merged l i)
    merged-Free b c =
        let is_l = n.0 in
        ground (arith, h.free b, mapping-merged l i b n.0 h.is_extent left_kind merges)

    merged_left-Adds :
        Adds i o (apply_changes ops ((chg ++ rem l ∷ []) ++ ins (merged l i) ∷ []) [] s)
    merged_left-Adds =
        elim (apply-Ends laws ((chg ++ rem l ∷ []) ++ ins (merged l i) ∷ []) s v allowed) [
          | inl (s', e, v', same) ↦ inl (
            s',
            e,
            v',
            λ b.
                rw
                  (same b, change_owners-snoc (chg ++ rem l ∷ []), change_owners-snoc chg, h.owners)
                  (ground (
                    arith,
                    left-Stored b,
                    h.free b,
                    mapping-merged l i b n.0 h.is_extent left_kind merges,
                  )),
          )
          | inr f ↦ inr f
        ]
      where
        allowed : AllAllowed ((chg ++ rem l ∷ []) ++ ins (merged l i) ∷ []) (owner s)
        allowed =
            AllAllowed-snoc (chg ++ rem l ∷ []) (ins (merged l i)) (owner s)
              (AllAllowed-snoc chg (rem l) (owner s) h.allowed (rw h.owners (n.0, left-Stored)))
              (rw (change_owners-snoc chg, h.owners)
                (merged-IsExtent l i n.0 h.is_extent left_kind merges, merged-Free))

  merge_changes :
      (chg : List Change) (i l : Extent)
      → i.len + l.len < 2 ^ 64
      → 0 < l.len
      → 0 < i.len
      → add_change
          (add_change chg l rem)
          (record i { start = l.start; map = l.map; len = add_u64 i.len l.len })
          ins
        ≡ (chg ++ rem l ∷ []) ++ ins (merged l i) ∷ []
  merge_changes chg i l fits pos_l pos_i =
      let e : add_u64 i.len l.len ≡ l.len + i.len = omega arith in
      rw (add_change_pos chg l rem pos_l, e)
        (add_change_pos (chg ++ rem l ∷ []) (merged l i) ins (omega arith))

  insert_left-Adds :
      (chg : List Change) (o : Owner) (i : Extent)
      → Before chg o i
      → Adds i o (insert_left ops chg i i.start s)
  unfolding insert_left
  insert_left-Adds chg o i h = elim (Bool-cases (i.start == 0)) [
    | inl first ↦ rw (first, insert_left) (insert_only-Adds chg o i h)
    | inr later ↦ elim (Result-cases (ops.next s (i.start - 1) 1)) [
      | inr (x, e) ↦
          rw (later, e, insert_left)
            (on_error_cases laws (Adds i o) s (i.start - 1) x _ e (λ q. insert_only-Adds chg o i h)
              (λ f. inr (x, refl, f)))
      | inl (l, e) ↦ elim (Bool-cases (ext_can_merge l i)) [
        | inr apart ↦ rw (later, e, apart, insert_left) (insert_only-Adds chg o i h)
        | inl merges ↦
            let n : NextIs (owner s) (i.start - 1) l = laws.next_finds s (i.start - 1) l v e in
            rw (later, e, merges, insert_left)
              (rw
                (merge_changes chg i l
                  (omega (arith, (left_ends chg o i l h n merges).0, h.is_extent.1)) (n.0.0)
                  h.is_extent.0)
                (merged_left-Adds chg o i l h n merges))
      ]
    ]
  ]

  absent-Before :
      (i : Extent)
      → IsExtent i
      → Free (owner s) i
      → (i.map == 0) ≡ unmapped i.flags
      → Before [] (owner s) i
  absent-Before i good free kind = record {
    allowed = tt;
    owners = refl;
    is_extent = good;
    free = free;
    below = λ b h. refl;
    kind = kind;
  }

  -- The extent found at or behind the start, when it merges on the right.
  module _ (i r : Extent) (good : IsExtent i) (free : Free (owner s) i)
      (kind : (i.map == 0) ≡ unmapped i.flags) (n : NextIs (owner s) i.start r)
      (merges : ext_can_merge i r ≡ true) where
    right_starts : (i.start + i.len ≡ r.start) × (i.flags ≡ r.flags)
    unfolding ext_can_merge
    right_starts = let is_r = n.0 in ground (arith, merges)

    right_first : covers r r.start ≡ true
    right_first = let is_r = n.0 in ground arith

    right_kind : SameKind i r
    right_kind same = kind ∙ ap unmapped same ∙ sym (u r.start r (n.2 r.start right_first))

    right-Before : Before (rem r ∷ []) (change_owner (rem r) (owner s)) (merged i r)
    right-Before = record {
      allowed = ((n.0, n.2), tt);
      owners = refl;
      is_extent = merged-IsExtent i r good n.0 right_kind merges;
      free = λ b c. ground (arith, free b, mapping-merged i r b good n.0 right_kind merges);
      below = λ b h. let e = right_starts in ground arith;
      kind = kind ∙ ap unmapped right_starts.1;
    }

    right-Adds :
        (out : Outcome ops.Store)
        → Adds (merged i r) (change_owner (rem r) (owner s)) out
        → Adds i (owner s) out
    right-Adds out (inr f) = inr f
    right-Adds out (inl (s', e, v', same)) = inl (
      s',
      e,
      v',
      λ b. ground (arith, same b, free b, n.2 b, mapping-merged i r b good n.0 right_kind merges),
    )

  -- How an insertion ends: it adds its mapping to blocks that were free; some block was not free; or the storage
  -- fails. The storage stays as it was unless the mapping is added.
  abbrev pub Inserts : Extent → Outcome ops.Store → Type 0
  Inserts i r =
      (Free (owner s) i
        × ((s' : ops.Store) × (r ≡ done s')
            × IsStore s'
            × ((b : ℕ)
                → mapping (owner s' b) b
                  ≡ (if covers i b then mapping (some i) b else mapping (owner s b) b))))
      ⊎ (((b : ℕ) × (covers i b ≡ true) × (owner s b ≢ none)) × (r ≡ failed einval s)
          ⊎ ((e : Errno) × (r ≡ failed e s) × IsFault e))

  Adds-Inserts :
      (i : Extent) (r : Outcome ops.Store) → Free (owner s) i → Adds i (owner s) r → Inserts i r
  Adds-Inserts i r free (inl a) = inl (free, a)
  Adds-Inserts i r free (inr f) = inr (inr f)

  module _ (i : Extent) (good : IsExtent i) (kind : (i.map == 0) ≡ unmapped i.flags) where
    insert_absent-Inserts : Free (owner s) i → Inserts i (insert_left ops [] i i.start s)
    insert_absent-Inserts free =
        Adds-Inserts i _ free (insert_left-Adds [] (owner s) i (absent-Before i good free kind))

    module _ (r : Extent) (n : NextIs (owner s) i.start r) where
      overlap-block :
          ext_overlap i r.start r.len ≡ true → (b : ℕ) × (covers i b ≡ true) × (owner s b ≢ none)
      unfolding ext_overlap
      overlap-block h =
          let is_r = n.0 in
          let starts = n.1 in
          elim (Bool-cases (leb r.start i.start)) [
            | inl before ↦ (i.start, ground arith, λ q. ground (arith, n.2 i.start))
            | inr after ↦ (r.start, ground arith, λ q. ground (arith, n.2 r.start))
          ]

      apart-Free : ext_overlap i r.start r.len ≡ false → Free (owner s) i
      unfolding ext_overlap
      apart-Free h b c = let is_r = n.0 in let starts = n.1 in n.3 b (ground arith) (ground arith)

      insert_found-Inserts : Inserts i (insert_found ops i r s)
      unfolding insert_found
      insert_found-Inserts = elim (Bool-cases (ext_overlap i r.start r.len)) [
        | inl hit ↦ rw (stored, hit, insert_found) (inr (inl (overlap-block hit, refl)))
        | inr free ↦ elim (Bool-cases (ext_can_merge i r)) [
          | inr apart ↦
              rw (stored, free, apart, insert_found) (insert_absent-Inserts (apart-Free free))
          | inl merges ↦
              let free' : Free (owner s) i = apart-Free free in
              let starts = right_starts i r good free' kind n merges in
              let same : record i { len = add_u64 i.len r.len } ≡ merged i r =
                ground (arith, starts) in
              rw (stored, free, merges, insert_found, same)
                (Adds-Inserts i _ free' (
                  right-Adds i r good free' kind n merges _ (
                    insert_left-Adds (rem r ∷ []) (change_owner (rem r) (owner s)) (merged i r)
                      (right-Before i r good free' kind n merges))))
        ]
      ]
        where
          stored : (r.len == 0) ≡ false
          stored = let is_r = n.0 in ground arith

-- Inserting an extent either maps its blocks, which were free, and changes the mapping of no other block, whatever
-- neighbours it merges with; or fails with EINVAL because one of its blocks was not free; or fails as the storage does.
-- After a failure the storage is what it was before, and no BUG_ON is hit. Holds over any storage that keeps the laws
-- of `ExtLaws`, for an extent within the u64 range, where flags tell mapped extents from unmapped ones.
pub ext_insert-Inserts :
    {ops : ExtOps} {IsFault : Errno → Type 0} (laws : ExtLaws ops IsFault) (unmapped : ℕ → Bool)
    (s : ops.Store) (v : laws.IsStore s) (u : Uniform unmapped (laws.owner s)) (i : Extent)
    → IsExtent i
    → (i.map == 0) ≡ unmapped i.flags
    → Inserts laws unmapped s v u i (ext_insert ops i.start i.len i.map i.flags s)
unfolding ext_insert insert_found
ext_insert-Inserts {ops} laws unmapped s v u i good kind =
    elim (Result-cases (ops.next s i.start 1)) [
      | inl (r, e) ↦
          rw (e, ext_insert)
            (insert_found-Inserts laws unmapped s v u i good kind r
              (laws.next_finds s i.start r v e))
      | inr (x, e) ↦
          rw (e, ext_insert)
            (on_error_cases laws (Inserts laws unmapped s v u i) s i.start x _ e
              (λ q.
                insert_absent-Inserts laws unmapped s v u i good kind
                  (λ b c. laws.next_none s i.start v (rw q at e) b (ground arith)))
              (λ f. inr (inr (x, refl, f))))
    ]
