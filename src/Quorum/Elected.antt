-- ===== src/Quorum/Elected.antt =====
-- No two slots start a server in one term.
use scoutfs.Quorum.Safety.{Reach-IsSoundNet}
use scoutfs.Quorum.Majority.{votes_needed_of, votes_needed-majority, shared_bit}
use scoutfs.Quorum.Terms.{ballots, starts}
use scoutfs.Quorum.Sound.{Won}
use scoutfs.Spbm.{test_bit}
use scoutfs.Quorum.{max_slots, weight}
use scoutfs.Quorum.System.{Net, Reach}
use scoutfs.Quorum.Leaders.{Cast, IsSoundNet, has}
use scoutfs.Prelude.{
  All, Bool, Bool-cases, List, [], ap, arith, false, inl, inr, length, subst, sym, true, ℕ, ◌==◌,
  ◌∙◌, ◌∷◌, ◌≡◌,
}

at_member : (W : ℕ → Type 0) → (t : ℕ) → (ts : List ℕ) → All W ts → has t ts ≡ true → W t
at_member W t [] all e = absurd cc
at_member W t (u ∷ ts) all e = elim (Bool-cases (u == t)) [
  | inl same ↦ let f : u ≡ t = ground arith in subst W f all.0
  | inr other ↦ at_member W t ts all.1 (ground arith)
]

one_vote : (i k : ℕ) → (cs : List ℕ) → cs ≡ i ∷ [] → cs ≡ k ∷ [] → i ≡ k
one_vote i k cs e f = cc

module _ (members : List Bool) (n : Net) (needed : ℕ) (inv : IsSoundNet members needed n) where
  Won-at :
      (i term : ℕ)
      → test_bit i members ≡ true
      → has term (starts (n.log i)) ≡ true
      → Won i needed (Cast n.log i) (n.log i) term
  Won-at i term member e =
      at_member (Won i needed (Cast n.log i) (n.log i)) term (starts (n.log i))
        (inv.sound i member).won e

  voters :
      (i term : ℕ)
      → (w : Won i needed (Cast n.log i) (n.log i) term) → (j : ℕ) → test_bit j w.votes ≡ true
      → Cast n.log i j term
  voters i term w j set = elim (Bool-cases (j == i)) [
    | inl same ↦
        let e : i ≡ j = ground arith in subst (λ k. ballots k term (n.log k) ≡ i ∷ []) e w.own
    | inr other ↦ w.others j other set
  ]

  voter_member : (i j term : ℕ) → Cast n.log i j term → test_bit j members ≡ true
  unfolding ballots
  voter_member i j term c = elim (Bool-cases (test_bit j members)) [
    | inl inside ↦ inside
    | inr outside ↦
        let nothing : [] ≡ i ∷ [] = sym (ap (ballots j term) (inv.idle j outside)) ∙ c in absurd cc
  ]

-- In every run of the worker's turns over the slots of a configuration at most one slot starts a server in a term. A
-- vote that is heard is one that its sender sent, no slot starts its worker again, no election starts with a vote at
-- hand or from the last term, no leader's server stops by itself, and the slots are not two.
pub one_server_per_term :
    (members : List Bool)
    → (n : Net) → length members ≡ max_slots
    → (weight members == 2) ≡ false
    → Reach members (votes_needed_of members) n
    → (i k term : ℕ) → test_bit i members ≡ true
    → test_bit k members ≡ true
    → has term (starts (n.log i)) ≡ true
    → has term (starts (n.log k)) ≡ true
    → i ≡ k
one_server_per_term members n size not_two r i k term i_in k_in i_starts k_starts =
    let needed = votes_needed_of members in
    let inv = Reach-IsSoundNet members needed size r in
    let v = Won-at members n needed inv i term i_in i_starts in
    let w = Won-at members n needed inv k term k_in k_starts in
    let most = votes_needed-majority members not_two in
    let c =
      shared_bit v.votes w.votes members (v.size ∙ sym size) (w.size ∙ sym size)
        (λ j set.
          voter_member members n needed inv i j term (voters members n needed inv i term v j set))
        (λ j set.
          voter_member members n needed inv k j term (voters members n needed inv k term w j set))
        (omega (arith, v.enough, w.enough, most)) in
    one_vote i k (ballots c.at term (n.log c.at))
      (voters members n needed inv i term v c.at c.first)
      (voters members n needed inv k term w c.at c.second)
