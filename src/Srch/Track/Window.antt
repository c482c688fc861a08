-- ===== src/Srch/Track/Window.antt =====
-- What the tracking tree holds of the entries of a log: those up to the end of the window that came an odd number of
-- times.
use scoutfs.Srch.{IsEntry, SrchEntry, sre_cmp, sre_dec}
use scoutfs.Srch.Track.{
  Found, Tracked, drop_last, erase_node, found_cmp, insert_node, is_after_last, is_eq, is_gt,
  is_tracked, set_end_before, split_last, track_found,
}
use scoutfs.Srch.Track.Nodes.{
  All-erase_node, All-insert_node, All-split_last, IsSorted, erase_node-IsSorted,
  insert_node-IsSorted, is_tracked-eq, is_tracked-erase_node, is_tracked-insert_node,
  is_tracked-split_last, length-erase_node, length-insert_node, length-split_last,
  split_last-IsSorted,
}
use scoutfs.Prelude.{
  All, Bool, Bool-cases, List, Result, [], arith, enomem, err, false, if◌then◌else◌, inl, inr, leb,
  length, ltb, not, ok, refl, true, ℕ, ◌&&◌, ◌+◌, ◌<◌, ◌^◌, ◌∙◌, ◌∷◌, ◌≡◌, ◌≤◌,
}

-- Inode numbers start at 1.
pub record IsFound (f : Found) : Type 0 where
  pub has_ino : 0 < f.ino
  pub ino_u64 : f.ino < 2 ^ 64
  pub id_u64 : f.id < 2 ^ 64

abbrev pub in_window : Found → SrchEntry → Bool
in_window f end = not (is_gt (sre_cmp (record { hash = end.hash; ino = f.ino; id = f.id }) end))

pub record IsTracked (hash : ℕ) (t : Tracked) : Type 0 where
  pub end_hash : t.end.hash ≡ hash
  pub end_u64 : IsEntry t.end
  pub sorted : IsSorted t.nodes
  pub founds : All IsFound t.nodes

set_end_before_lem :
    (end : SrchEntry)
    → (f : Found) → IsEntry end
    → IsFound f
    → ((set_end_before end f).hash ≡ end.hash) × IsEntry (set_end_before end f)
unfolding set_end_before sre_dec sre_cmp
set_end_before_lem end f e v = ground arith

set_end_before-in_window :
    (end : SrchEntry)
    → (f g : Found) → IsEntry end
    → IsFound f
    → in_window g (set_end_before end f) ≡ true
    → (in_window g end ≡ true) × (is_eq (found_cmp g f) ≡ false)
unfolding set_end_before sre_dec sre_cmp
set_end_before-in_window end f g e v w = ground arith

abbrev pub differ : Bool → Bool → Bool
differ a b = if a then not b else b

-- The effect of tracking `f`: within the new window, `f` is tracked if it was not, and no other changes.
pub record Toggled (hash limit : ℕ) (f : Found) (t u : Tracked) : Type 0 where
  pub is : IsTracked hash u
  pub shrinks : (g : Found) → in_window g u.end ≡ true → in_window g t.end ≡ true
  pub toggles :
      (g : Found)
      → in_window g u.end ≡ true
      → is_tracked g u.nodes ≡ differ (is_eq (found_cmp g f)) (is_tracked g t.nodes)
  pub limited : length t.nodes ≤ limit → length u.nodes ≤ limit

erased :
    (hash limit : ℕ)
    → (f : Found) → (t : Tracked) → IsTracked hash t
    → is_tracked f t.nodes ≡ true
    → Toggled hash limit f t (record t { nodes = erase_node f t.nodes })
erased hash limit f t v old = record {
  is = record {
    end_hash = v.end_hash;
    end_u64 = v.end_u64;
    sorted = erase_node-IsSorted f t.nodes v.sorted;
    founds = All-erase_node IsFound f t.nodes v.founds;
  };
  shrinks = λ g w. w;
  toggles = λ g w.
      ground (arith, is_tracked-erase_node f g t.nodes v.sorted old, is_tracked-eq f g t.nodes);
  limited = λ h. omega (arith, length-erase_node f t.nodes);
}

beyond :
    (hash limit : ℕ)
    → (f : Found) → (t : Tracked) → IsTracked hash t
    → IsFound f
    → Toggled hash limit f t (record t { end = set_end_before t.end f })
beyond hash limit f t v is_f = record {
  is = record {
    end_hash = (set_end_before_lem t.end f v.end_u64 is_f).0 ∙ v.end_hash;
    end_u64 = (set_end_before_lem t.end f v.end_u64 is_f).1;
    sorted = v.sorted;
    founds = v.founds;
  };
  shrinks = λ g w. (set_end_before-in_window t.end f g v.end_u64 is_f w).0;
  toggles = λ g w. rw (set_end_before-in_window t.end f g v.end_u64 is_f w).1 refl;
  limited = λ h. h;
}

dropped :
    (hash limit : ℕ)
    → (f : Found) → (t : Tracked) → (over : Bool) → (ns : List Found) → IsTracked hash t
    → IsSorted ns
    → All IsFound ns
    → ((g : Found) → is_tracked g ns ≡ differ (is_eq (found_cmp g f)) (is_tracked g t.nodes))
    → length ns ≡ length t.nodes + 1
    → (length t.nodes ≤ limit → over ≡ false → length ns ≤ limit)
    → Toggled hash limit f t (drop_last over t.end ns)
unfolding drop_last
dropped hash limit f t over [] v s founds has len below = absurd (omega (arith, len))
dropped hash limit f t false (n ∷ ns) v s founds has len below = record {
  is = record { end_hash = v.end_hash; end_u64 = v.end_u64; sorted = s; founds = founds };
  shrinks = λ g w. w;
  toggles = λ g w. has g;
  limited = λ h. below h refl;
}
dropped hash limit f t true (n ∷ ns) v s founds has len below =
    let last = (split_last n ns).1 in
    let rest = All-split_last IsFound n ns founds.0 founds.1 in
    record {
      is = record {
        end_hash = (set_end_before_lem t.end last v.end_u64 rest.1).0 ∙ v.end_hash;
        end_u64 = (set_end_before_lem t.end last v.end_u64 rest.1).1;
        sorted = split_last-IsSorted n ns s;
        founds = rest.0;
      };
      shrinks = λ g w. (set_end_before-in_window t.end last g v.end_u64 rest.1 w).0;
      toggles = λ g w.
          is_tracked-split_last n g ns (set_end_before-in_window t.end last g v.end_u64 rest.1 w).1
          ∙ has g;
      limited = λ h. omega (arith, length-split_last n ns, len);
    }

inserted :
    (hash limit : ℕ)
    → (f : Found) → (t : Tracked) → IsTracked hash t
    → IsFound f
    → is_tracked f t.nodes ≡ false
    → (leb limit (length t.nodes) && is_after_last f t.nodes) ≡ false
    → Toggled hash limit f t (
        drop_last
          (ltb limit (length (insert_node f t.nodes)) && not (is_after_last f t.nodes))
          t.end
          (insert_node f t.nodes))
inserted hash limit f t v is_f new within =
    dropped hash limit f t
      (ltb limit (length (insert_node f t.nodes)) && not (is_after_last f t.nodes))
      (insert_node f t.nodes) v (insert_node-IsSorted f t.nodes new v.sorted)
      (All-insert_node IsFound f t.nodes is_f v.founds)
      (λ g. ground (arith, is_tracked-insert_node f g t.nodes, is_tracked-eq f g t.nodes))
      (length-insert_node f t.nodes) (λ h k. ground (arith, length-insert_node f t.nodes))

unfoldable pub Tracks :
    (hash limit : ℕ) → (allocates : Bool) → (f : Found) → (t : Tracked) → Result Tracked → Type 0
Tracks hash limit allocates f t (err e) = (e ≡ enomem) × (allocates ≡ false)
Tracks hash limit allocates f t (ok u) = Toggled hash limit f t u

pub track_found-Tracks :
    (hash limit : ℕ)
    → (allocates : Bool) → (f : Found) → (t : Tracked) → IsTracked hash t
    → IsFound f
    → Tracks hash limit allocates f t (track_found limit allocates f t)
unfolding track_found Tracks
track_found-Tracks hash limit allocates f t v is_f = elim (Bool-cases (is_tracked f t.nodes)) [
  | inl old ↦ rw (old) (erased hash limit f t v old)
  | inr new ↦ elim (Bool-cases (leb limit (length t.nodes) && is_after_last f t.nodes)) [
    | inl outside ↦ rw (new, outside) (beyond hash limit f t v is_f)
    | inr within ↦ elim (Bool-cases allocates) [
      | inl room ↦ rw (new, within, room) (inserted hash limit f t v is_f new within)
      | inr full ↦ rw (new, within, full) (refl, refl)
    ]
  ]
]
