-- ===== src/Recov/Waiting.antt =====
-- What the list means: for which clients and bits the server still waits.
use scoutfs.Recov.{Which, Pending, count, meets, nonzero}
use scoutfs.Prelude.{
  All, Bool, List, [], arith, false, ltb, refl, true, ℕ, ◌&&◌, ◌<◌, ◌==◌, ◌^◌, ◌∷◌, ◌≡◌, ◌≤◌,
}

-- An item of client `rid` with one of the bits `which`.
abbrev pub is_for : ℕ → Which → Pending → Bool
is_for rid which p = p.rid == rid && meets p.which which

-- The server waits for client `rid` to recover some of `which`.
abbrev pub is_waiting : List Pending → ℕ → Which → Bool
is_waiting ps rid which = ltb 0 (count (is_for rid which) ps)

-- Rids grow strictly, and each item waits for something that is valid.
abbrev pub Ordered : List Pending → Type 0
Ordered [] = Unit {0}
Ordered (p ∷ ps) = All (λ q. p.rid < q.rid) ps × Ordered ps

abbrev pub IsItem : Pending → Type 0
IsItem p = (p.rid < 2 ^ 64) × (0 < p.rid) × (nonzero p.which ≡ true) × (p.which.invalid ≡ false)

pub record IsRecov (ps : List Pending) : Type 0 where
  pub ordered : Ordered ps
  pub items : All IsItem ps

pub count_below :
    (rid : ℕ) (which : Which) (ps : List Pending)
    → All (λ q. rid < q.rid) ps
    → count (is_for rid which) ps ≡ 0
count_below rid which [] h = refl
count_below rid which (p ∷ ps) h = ground (arith, count_below rid which ps h.1)

pub All-lt_trans :
    (a b : ℕ) (ps : List Pending) → a ≤ b → All (λ q. b < q.rid) ps → All (λ q. a < q.rid) ps
All-lt_trans a b [] h all = tt
All-lt_trans a b (p ∷ ps) h all = (omega arith, All-lt_trans a b ps h all.1)
