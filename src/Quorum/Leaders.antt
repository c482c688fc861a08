-- ===== src/Quorum/Leaders.antt =====
-- The slots of a quorum in any order of turns: what holds of each, and the servers that they start.
use scoutfs.Spbm.Bits.{length-zero_bits}
use scoutfs.Quorum.Terms.{ballots, starts}
use scoutfs.Quorum.Sound.{Sound, Voted, Won}
use scoutfs.Spbm.{test_bit}
use scoutfs.Quorum.{
  Action, Status, heartbeat, max_slots, request_vote, resignation, send_others, send_to,
  server_start, server_stop, vote, write,
}
use scoutfs.Quorum.System.{Net, put, sends_vote, worker_start}
use scoutfs.Prelude.{
  ==_refl, All, Bool, List, [], ap, arith, false, length, refl, true, ℕ, ◌-◌, ◌<◌, ◌==◌, ◌||◌, ◌∷◌,
  ◌≡◌, ◌≤◌,
}

-- Slot `j` voted for slot `i`.
abbrev pub Cast : (ℕ → List Action) → (i j term : ℕ) → Type 0
Cast log i j term = ballots j term (log j) ≡ i ∷ []

pub record IsSoundNet (members : List Bool) (needed : ℕ) (n : Net) : Type 0 where
  pub sound :
      (i : ℕ) → test_bit i members ≡ true → Sound i needed (Cast n.log i) (n.status i) (n.log i)
  pub idle : (i : ℕ) → test_bit i members ≡ false → n.log i ≡ []

pub put-here : {A : Type 0} → (i : ℕ) → (x : A) → (f : ℕ → A) → put i x f i ≡ x
put-here i x f = rw (==_refl i) refl

pub put-other :
    {A : Type 0} → (i j : ℕ) → (x : A) → (f : ℕ → A) → (j == i) ≡ false → put i x f j ≡ f j
put-other i j x f other = rw other refl

abbrev pub has : ℕ → List ℕ → Bool
has c [] = false
has c (d ∷ ds) = d == c || has c ds

pub sends_vote-has :
    (slot term to : ℕ)
    → (xs : List Action) → sends_vote term to xs ≡ true
    → has to (ballots slot term xs) ≡ true
unfolding sends_vote ballots
sends_vote-has slot term to [] e = absurd cc
sends_vote-has slot term to (send_to vote t c ∷ xs) e =
    ground (arith, sends_vote-has slot term to xs)
sends_vote-has slot term to (send_to request_vote t c ∷ xs) e = sends_vote-has slot term to xs e
sends_vote-has slot term to (send_to heartbeat t c ∷ xs) e = sends_vote-has slot term to xs e
sends_vote-has slot term to (send_to resignation t c ∷ xs) e = sends_vote-has slot term to xs e
sends_vote-has slot term to (send_others request_vote t ∷ xs) e =
    ground (arith, sends_vote-has slot term to xs)
sends_vote-has slot term to (send_others vote t ∷ xs) e = sends_vote-has slot term to xs e
sends_vote-has slot term to (send_others heartbeat t ∷ xs) e = sends_vote-has slot term to xs e
sends_vote-has slot term to (send_others resignation t ∷ xs) e = sends_vote-has slot term to xs e
sends_vote-has slot term to (write v t ∷ xs) e = sends_vote-has slot term to xs e
sends_vote-has slot term to (server_start t ∷ xs) e = sends_vote-has slot term to xs e
sends_vote-has slot term to (server_stop ∷ xs) e = sends_vote-has slot term to xs e

pub only : (c : ℕ) → (cs : List ℕ) → has c cs ≡ true → length cs ≤ 1 → cs ≡ c ∷ []
only c [] e h = absurd cc
only c (d ∷ []) e h = let same : d ≡ c = ground arith in ap (λ n. n ∷ []) same
only c (d ∷ b ∷ cs) e h = absurd (omega arith)

pub test_bit-size : (i : ℕ) → (bs : List Bool) → test_bit i bs ≡ true → i < length bs
unfolding test_bit
test_bit-size i [] e = absurd cc
test_bit-size i (b ∷ bs) e = ground (arith, test_bit-size (i - 1) bs)

pub worker_start-Sound :
    (slot needed term timeout : ℕ)
    → (J : ℕ → ℕ → Type 0) → Sound slot needed J (worker_start term timeout) []
unfolding worker_start Voted ballots starts
worker_start-Sound slot needed term timeout J = record {
  current = refl;
  future = λ n later. refl;
  once = λ n. omega arith;
  size = length-zero_bits max_slots;
  votes = λ e. absurd cc;
  won = tt;
}

Won-mono :
    (slot needed : ℕ)
    → (J L : ℕ → ℕ → Type 0) → ((j term : ℕ) → J j term → L j term)
    → (done : List Action) → (ts : List ℕ) → All (Won slot needed J done) ts
    → All (Won slot needed L done) ts
Won-mono slot needed J L k done [] all = tt
Won-mono slot needed J L k done (t ∷ ts) all = (
  record {
    votes = all.0.votes;
    size = all.0.size;
    enough = all.0.enough;
    others = λ j other set. k j t (all.0.others j other set);
    own = all.0.own;
  },
  Won-mono slot needed J L k done ts all.1,
)

pub Sound-mono :
    (slot needed : ℕ)
    → (J L : ℕ → ℕ → Type 0) → ((j term : ℕ) → J j term → L j term)
    → (s : Status) → (done : List Action) → Sound slot needed J s done
    → Sound slot needed L s done
Sound-mono slot needed J L k s done h = record {
  current = h.current;
  future = h.future;
  once = h.once;
  size = h.size;
  votes = λ e j other set. k j s.term (h.votes e j other set);
  won = Won-mono slot needed J L k done (starts done) h.won;
}
