-- ===== src/Srch/Track/Sweep.antt =====
-- The sweep of all entries of a log.
use scoutfs.Srch.{SrchEntry, sre_cmp}
use scoutfs.Srch.Track.{Found, Tracked, found_cmp, is_eq, is_gt, is_tracked}
use scoutfs.Srch.Track.Window.{IsTracked, differ, in_window}
use scoutfs.Prelude.{
  Bool, List, Result, [], enomem, err, false, length, not, ok, true, ℕ, ◌&&◌, ◌==◌, ◌∷◌, ◌≡◌, ◌≤◌,
}

-- Whether `g` stands under the hash an odd number of times among the entries.
abbrev pub odd_times : ℕ → Found → List (SrchEntry × Bool) → Bool
odd_times hash g [] = false
odd_times hash g ((sre, allocates) ∷ rest) =
    differ (sre.hash == hash && is_eq (found_cmp g (record { ino = sre.ino; id = sre.id })))
      (odd_times hash g rest)

abbrev pub all_allocate : List (SrchEntry × Bool) → Bool
all_allocate [] = true
all_allocate ((sre, allocates) ∷ rest) = allocates && all_allocate rest

abbrev pub from_start : SrchEntry → Found → Bool
from_start start g =
    not (is_gt (sre_cmp start (record { hash = start.hash; ino = g.ino; id = g.id })))

pub record Swept (start : SrchEntry) (limit : ℕ) (es : List (SrchEntry × Bool)) (t u : Tracked)
    : Type 0 where
  pub is : IsTracked start.hash u
  pub shrinks : (g : Found) → in_window g u.end ≡ true → in_window g t.end ≡ true
  pub parity :
      (g : Found)
      → from_start start g ≡ true
      → in_window g u.end ≡ true
      → is_tracked g u.nodes ≡ differ (odd_times start.hash g es) (is_tracked g t.nodes)
  pub limited : length t.nodes ≤ limit → length u.nodes ≤ limit

unfoldable pub Sweeps :
    (start : SrchEntry) (limit : ℕ) (es : List (SrchEntry × Bool)) (t : Tracked)
    → Result Tracked
    → Type 0
Sweeps start limit es t (err e) = (e ≡ enomem) × (all_allocate es ≡ false)
Sweeps start limit es t (ok u) = Swept start limit es t u
