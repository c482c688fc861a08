-- ===== src/Quorum/Terms.antt =====
-- What a slot has voted for in each term, by what it has done, and which stages of a turn leave that alone.
use scoutfs.Quorum.{
  Action, heartbeat, request_vote, resignation, send_others, send_to, server_start, server_stop,
  vote, write,
}
use scoutfs.Prelude.{
  List, [], ap, append-nil, arith, if◌then◌else◌, length, length-append, refl, ℕ, ◌++◌, ◌==◌, ◌∙◌,
  ◌∷◌, ◌≡◌, ◌≤◌,
}

-- The candidates that a slot voted for in a term, first to last: its own request counts as a vote for itself.
unfoldable pub ballots : ℕ → ℕ → List Action → List ℕ
ballots slot term [] = []
ballots slot term (send_to vote t to ∷ xs) =
    let rest = ballots slot term xs in if t == term then to ∷ rest else rest
ballots slot term (send_others request_vote t ∷ xs) =
    let rest = ballots slot term xs in if t == term then slot ∷ rest else rest
ballots slot term (a ∷ xs) = ballots slot term xs

-- The terms of the servers that a slot started.
unfoldable pub starts : List Action → List ℕ
starts [] = []
starts (server_start t ∷ xs) = t ∷ starts xs
starts (a ∷ xs) = starts xs

pub ballots-append :
    (slot term : ℕ)
    → (xs ys : List Action)
    → ballots slot term (xs ++ ys) ≡ ballots slot term xs ++ ballots slot term ys
unfolding ballots
ballots-append slot term [] ys = refl
ballots-append slot term (send_to vote t to ∷ xs) ys =
    ground (arith, ballots-append slot term xs ys)
ballots-append slot term (send_to request_vote t to ∷ xs) ys = ballots-append slot term xs ys
ballots-append slot term (send_to heartbeat t to ∷ xs) ys = ballots-append slot term xs ys
ballots-append slot term (send_to resignation t to ∷ xs) ys = ballots-append slot term xs ys
ballots-append slot term (send_others request_vote t ∷ xs) ys =
    ground (arith, ballots-append slot term xs ys)
ballots-append slot term (send_others vote t ∷ xs) ys = ballots-append slot term xs ys
ballots-append slot term (send_others heartbeat t ∷ xs) ys = ballots-append slot term xs ys
ballots-append slot term (send_others resignation t ∷ xs) ys = ballots-append slot term xs ys
ballots-append slot term (write e t ∷ xs) ys = ballots-append slot term xs ys
ballots-append slot term (server_start t ∷ xs) ys = ballots-append slot term xs ys
ballots-append slot term (server_stop ∷ xs) ys = ballots-append slot term xs ys

pub starts-append : (xs ys : List Action) → starts (xs ++ ys) ≡ starts xs ++ starts ys
unfolding starts
starts-append [] ys = refl
starts-append (send_to m t to ∷ xs) ys = starts-append xs ys
starts-append (send_others m t ∷ xs) ys = starts-append xs ys
starts-append (write e t ∷ xs) ys = starts-append xs ys
starts-append (server_start t ∷ xs) ys = ap (λ ts. t ∷ ts) (starts-append xs ys)
starts-append (server_stop ∷ xs) ys = starts-append xs ys

-- A vote that stands is the only one, whatever is appended.
pub stays : (c : ℕ) → (xs ys : List ℕ) → xs ≡ c ∷ [] → length (xs ++ ys) ≤ 1 → xs ++ ys ≡ c ∷ []
stays c xs [] e h = append-nil xs ∙ e
stays c xs (b ∷ ys) e h = absurd (omega (arith, length-append xs (b ∷ ys), ap length e, h))
