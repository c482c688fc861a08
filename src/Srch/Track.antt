-- ===== src/Srch/Track.antt =====
-- kmod/src/srch.c: the found inodes and ids that a search tracks, and the sweep of a log file.
-- The red-black tree is the list of its nodes in order; `last` is the last of them and `nr` their number. A search
-- for a node ends at `last` with a positive comparison exactly if the node comes after all of them.
pub mod Nodes
pub mod Window
pub mod Sweep
use scoutfs.Srch.{SrchEntry, sre_cmp, sre_dec}
use scoutfs.Key.{cmp, ◌or_else◌}
use scoutfs.Prelude.{
  Bool, List, Ordering, Result, [], enomem, err, false, if◌then◌else◌, leb, length, ltb, not, ok,
  true, ℕ, ◌&&◌, ◌||◌, ◌∷◌,
}

-- `struct scoutfs_srch_rb_node`
pub record Found : Type 0 where
  pub ino : ℕ
  pub id : ℕ

-- The comparison of `track_found`.
abbrev pub found_cmp : Found → Found → Ordering
found_cmp a b = cmp a.ino b.ino or_else cmp a.id b.id

abbrev pub is_lt : Ordering → Bool
is_lt o = elim o [ Ordering.lt ↦ true | _ ↦ false ]

abbrev pub is_eq : Ordering → Bool
is_eq o = elim o [ Ordering.eq ↦ true | _ ↦ false ]

abbrev pub is_gt : Ordering → Bool
is_gt o = elim o [ Ordering.gt ↦ true | _ ↦ false ]

-- `struct scoutfs_srch_rb_root`, and the end of the window, which the caller keeps.
pub record Tracked : Type 0 where
  pub nodes : List Found
  pub end : SrchEntry

unfoldable pub is_tracked : Found → List Found → Bool
is_tracked f [] = false
is_tracked f (g ∷ gs) = is_eq (found_cmp f g) || is_tracked f gs

unfoldable pub erase_node : Found → List Found → List Found
erase_node f [] = []
erase_node f (g ∷ gs) = if is_eq (found_cmp f g) then gs else g ∷ erase_node f gs

unfoldable pub insert_node : Found → List Found → List Found
insert_node f [] = f ∷ []
insert_node f (g ∷ gs) = if is_lt (found_cmp f g) then f ∷ g ∷ gs else g ∷ insert_node f gs

-- `cmp > 0 && parent == sroot->last`, after the walk, for a node that is not in the tree
unfoldable pub is_after_last : Found → List Found → Bool
is_after_last f [] = true
is_after_last f (g ∷ gs) = is_gt (found_cmp f g) && is_after_last f gs

-- The node at `last`, with the nodes before it.
unfoldable pub split_last : Found → List Found → List Found × Found
split_last f [] = ([], f)
split_last f (g ∷ gs) = let (before, last) = split_last g gs in (f ∷ before, last)

unfoldable pub set_end_before : SrchEntry → Found → SrchEntry
set_end_before end f =
    let sre = sre_dec (record { hash = end.hash; ino = f.ino; id = f.id }) in
    if is_lt (sre_cmp sre end) then sre else end

-- The last part of `track_found`: the nodes after the insertion, with one too many if `over` holds.
unfoldable pub drop_last : Bool → SrchEntry → List Found → Tracked
drop_last over end [] = record { nodes = []; end = end }
drop_last over end (g ∷ gs) =
    let (before, last) = split_last g gs in
    if over
    then record { nodes = before; end = set_end_before end last }
    else record { nodes = g ∷ gs; end = end }

-- `allocates` says whether `kzalloc` succeeds.
unfoldable pub track_found : ℕ → Bool → Found → Tracked → Result Tracked
track_found limit allocates f t =
    let inserted = insert_node f t.nodes in
    if is_tracked f t.nodes
    then ok (record t { nodes = erase_node f t.nodes })
    else if leb limit (length t.nodes) && is_after_last f t.nodes
    then ok (record t { end = set_end_before t.end f })
    else if not allocates
    then err enomem
    else ok
        (drop_last (ltb limit (length inserted) && not (is_after_last f t.nodes)) t.end inserted)

-- One entry in the loop of `search_log_file`.
unfoldable pub search_entry : SrchEntry → ℕ → Bool → SrchEntry → Tracked → Result Tracked
search_entry start limit allocates sre t =
    if is_gt (sre_cmp start sre) || is_gt (sre_cmp sre t.end)
    then ok t
    else track_found limit allocates (record { ino = sre.ino; id = sre.id }) t

-- The entries of a block, each with what `kzalloc` would do; the loop ends at the first error.
unfoldable pub search_entries : SrchEntry → ℕ → List (SrchEntry × Bool) → Tracked → Result Tracked
search_entries start limit [] t = ok t
search_entries start limit ((sre, allocates) ∷ rest) t =
    elim (search_entry start limit allocates sre t) [
      | err e ↦ err e
      | ok u ↦ search_entries start limit rest u
    ]
