-- ===== src/Net/Pending.antt =====
-- The messages of a queue that the other end has not received, by their sequence numbers.
use scoutfs.Net.Session.{drop_greetings}
use scoutfs.Net.{Header, Msend, cmd_greeting, is_greeting, list_del, take_acked}
use scoutfs.Prelude.{
  All, All-append, List, [], arith, if◌then◌else◌, ltb, not, refl, true, ℕ, ◌&&◌, ◌++◌, ◌<◌, ◌==◌,
  ◌∷◌, ◌≡◌, ◌≤◌,
}

-- Greetings and messages that are to be freed do not count.
unfoldable pub pending : ℕ → List Msend → List ℕ
pending r [] = []
pending r (m ∷ ms) =
    let rest = pending r ms in
    if not m.dead && not (is_greeting m) && ltb r m.nh.seq then m.nh.seq ∷ rest else rest

unfoldable pub wire_pending : ℕ → List Header → List ℕ
wire_pending r [] = []
wire_pending r (h ∷ hs) =
    let rest = wire_pending r hs in
    if not (h.cmd == cmd_greeting) && ltb r h.seq then h.seq ∷ rest else rest

unfoldable pub above : ℕ → List ℕ → List ℕ
above r [] = []
above r (n ∷ ns) = let rest = above r ns in if ltb r n then n ∷ rest else rest

-- Each number is less than those after it.
abbrev pub AllAbove : ℕ → List ℕ → Type 0
AllAbove n ns = All (λ k. n < k) ns

unfoldable pub IsIncreasing : List ℕ → Type 0
IsIncreasing [] = Unit
IsIncreasing (n ∷ ns) = AllAbove n ns × IsIncreasing ns

pub pending-append :
    (r : ℕ) → (xs ys : List Msend) → pending r (xs ++ ys) ≡ pending r xs ++ pending r ys
unfolding pending
pending-append r [] ys = refl
pending-append r (m ∷ ms) ys = ground (arith, pending-append r ms ys)

pub wire_pending-append :
    (r : ℕ)
    → (xs ys : List Header) → wire_pending r (xs ++ ys) ≡ wire_pending r xs ++ wire_pending r ys
unfolding wire_pending
wire_pending-append r [] ys = refl
wire_pending-append r (h ∷ hs) ys = ground (arith, wire_pending-append r hs ys)

pub pending-above : (r h : ℕ) → (ms : List Msend) → r ≤ h → pending h ms ≡ above h (pending r ms)
unfolding pending above
pending-above r h [] le = refl
pending-above r h (m ∷ ms) le = ground (arith, pending-above r h ms le)

pub wire_pending-above :
    (r h : ℕ) → (hs : List Header) → r ≤ h → wire_pending h hs ≡ above h (wire_pending r hs)
unfolding wire_pending above
wire_pending-above r h [] le = refl
wire_pending-above r h (x ∷ xs) le = ground (arith, wire_pending-above r h xs le)

pub above-append : (r : ℕ) → (xs ys : List ℕ) → above r (xs ++ ys) ≡ above r xs ++ above r ys
unfolding above
above-append r [] ys = refl
above-append r (n ∷ ns) ys = ground (arith, above-append r ns ys)

pub above-same : (n : ℕ) → (ns : List ℕ) → AllAbove n ns → above n ns ≡ ns
unfolding above
above-same n [] h = refl
above-same n (k ∷ ks) h = ground (arith, above-same n ks h.1, h.0)

pub above-rest : (n : ℕ) → (ns : List ℕ) → IsIncreasing (n ∷ ns) → above n (n ∷ ns) ≡ ns
unfolding above IsIncreasing
above-rest n ns h = ground (arith, above-same n ns h.0)

pub pending-list_del :
    (r seq : ℕ) → (ms : List Msend) → seq ≤ r → pending r (list_del seq ms) ≡ pending r ms
unfolding pending list_del
pending-list_del r seq [] h = refl
pending-list_del r seq (m ∷ ms) h = ground (arith, pending-list_del r seq ms h)

pub pending-take_acked :
    (r seq : ℕ)
    → (ms : List Msend) → seq ≤ r
    → (pending r (take_acked seq ms).0 ≡ pending r ms) × (pending r (take_acked seq ms).1 ≡ [])
unfolding pending take_acked
pending-take_acked r seq [] h = (refl, refl)
pending-take_acked r seq (m ∷ ms) h =
    let rest = pending-take_acked r seq ms h in
    (
      ground (arith, rest.0),
      ground
          (arith, rest.1, pending-append r (take_acked seq ms).1 (record m { dead = true } ∷ [])),
    )

pub pending-drop_greetings :
    (r : ℕ) → (ms : List Msend) → pending r (drop_greetings ms) ≡ pending r ms
unfolding pending drop_greetings
pending-drop_greetings r [] = refl
pending-drop_greetings r (m ∷ ms) = ground (arith, pending-drop_greetings r ms)

pub snoc-IsIncreasing :
    (ns : List ℕ) → (n : ℕ) → All (λ k. k < n) ns → IsIncreasing ns → IsIncreasing (ns ++ n ∷ [])
unfolding IsIncreasing
snoc-IsIncreasing [] n h i = (tt, tt)
snoc-IsIncreasing (k ∷ ks) n h i =
    (All-append (λ j. k < j) ks (n ∷ []) i.0 (h.0, tt), snoc-IsIncreasing ks n h.1 i.1)

pub IsIncreasing-parts :
    (n : ℕ) → (ns : List ℕ) → IsIncreasing (n ∷ ns) → AllAbove n ns × IsIncreasing ns
unfolding IsIncreasing
IsIncreasing-parts n ns h = h
