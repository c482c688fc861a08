-- ===== src/Net/Link/Steps.antt =====
-- What holds of a link, and how a message more in a queue keeps it.
use scoutfs.Net.Link.{Link}
use scoutfs.Net.Pending.{IsIncreasing, pending, pending-append, snoc-IsIncreasing, wire_pending}
use scoutfs.Net.{
  Conn, Header, Msend, Submit, is_bad_submit, is_greeting, new_send, queue_send, submit_send,
}
use scoutfs.Prelude.{
  All, All-append, Bool, Bool-cases, Errno, List, [], ap, append-nil, append_assoc, arith, einval,
  eio, enomem, err, false, if◌then◌else◌, inl, inr, ok, refl, sym, true, ℕ, ◌%◌, ◌&&◌, ◌++◌, ◌+◌,
  ◌<◌, ◌==◌, ◌^◌, ◌∙◌, ◌∷◌, ◌≡◌, ◌⊎◌,
}

-- Once the greeting is valid, what is on the socket and then in the send queue is still to be received, in order;
-- before that only the resend queue holds such messages.
abbrev pub FlowSpec : Bool → ℕ → Conn → List Header → List ℕ → Type 0
FlowSpec true r conn wire rest = wire_pending r wire ++ pending r conn.send_queue ≡ rest
FlowSpec false r conn wire rest = (pending r conn.send_queue ≡ []) × (wire_pending r wire ≡ [])

abbrev pub flows : Conn → Bool
flows conn = conn.established && conn.valid_greeting

pub record IsLink (l : Link) : Type 0 where
  pub rest : List ℕ
  pub whole : l.processed ++ rest ≡ l.submitted
  pub queued : pending l.peer.recv_seq (l.conn.resend_queue ++ l.conn.send_queue) ≡ rest
  pub flow : FlowSpec (flows l.conn) l.peer.recv_seq l.conn l.wire rest
  pub increasing : IsIncreasing rest
  pub bounded : All (λ k. k < l.conn.next_send_seq) rest
  pub behind : l.peer.recv_seq < l.conn.next_send_seq
  pub down : (l.conn.shutting_down && l.conn.established) ≡ false

abbrev pub bumped : Conn → Submit → Conn
bumped conn s = record conn {
  next_send_seq = (conn.next_send_seq + 1) % 2 ^ 64;
  next_send_id = if s.id == 0 then (conn.next_send_id + 1) % 2 ^ 64 else conn.next_send_id;
}

pub submit_either :
    (f a : Bool)
    → (c : Conn) → (s : Submit)
    → ((e : Errno) × (submit_send f a c s ≡ (err e, c)))
      ⊎ (submit_send f a c s ≡ (ok (new_send c s).nh.id, queue_send (bumped c s) (new_send c s)))
unfolding submit_send
submit_either f a c s = elim (Bool-cases (is_bad_submit s)) [
  | inl bad ↦ inl (einval, rw bad refl)
  | inr good ↦ elim (Bool-cases f) [
    | inl forcing ↦ inl (eio, rw (good, forcing) refl)
    | inr fine ↦ elim (Bool-cases a) [
      | inl alloced ↦ inr (rw (good, fine, alloced) refl)
      | inr failed ↦ inl (enomem, rw (good, fine, failed) refl)
    ]
  ]
]

pub pending-one :
    (r : ℕ)
    → (m : Msend) → m.dead ≡ false
    → is_greeting m ≡ false
    → r < m.nh.seq
    → pending r (m ∷ []) ≡ m.nh.seq ∷ []
unfolding pending
pending-one r m live plain h = ground arith

pub pending-greeting : (r : ℕ) → (m : Msend) → is_greeting m ≡ true → pending r (m ∷ []) ≡ []
unfolding pending
pending-greeting r m e = ground arith

pub less_more : (n : ℕ) → (ns : List ℕ) → All (λ k. k < n) ns → All (λ k. k < n + 1) ns
less_more n [] h = tt
less_more n (k ∷ ks) h = (omega (arith, h.0), less_more n ks h.1)

-- A queue with one more message
pub pending-snoc :
    (r : ℕ)
    → (xs : List Msend) → (m : Msend) → (ns : List ℕ) → pending r (m ∷ []) ≡ ns
    → pending r (xs ++ m ∷ []) ≡ pending r xs ++ ns
pending-snoc r xs m ns e = pending-append r xs (m ∷ []) ∙ ap (λ t. pending r xs ++ t) e

pub grow :
    (n : ℕ)
    → (rest ns : List ℕ) → (ns ≡ []) ⊎ (ns ≡ n ∷ [])
    → IsIncreasing rest
    → All (λ k. k < n) rest
    → IsIncreasing (rest ++ ns) × All (λ k. k < n + 1) (rest ++ ns)
grow n rest ns (inl e) i b = rw (e, append-nil rest) (i, less_more n rest b)
grow n rest ns (inr e) i b = rw e (
  snoc-IsIncreasing rest n b i,
  All-append (λ k. k < n + 1) rest (n ∷ []) (less_more n rest b) (omega arith, tt),
)

-- A link whose sender has one more message, which counts as `ns`.
pub submitted-IsLink :
    (l : Link)
    → (h : IsLink l) → (c : Conn) → (ns : List ℕ) → (ns ≡ []) ⊎ (ns ≡ l.conn.next_send_seq ∷ [])
    → c.next_send_seq ≡ l.conn.next_send_seq + 1
    → pending l.peer.recv_seq (c.resend_queue ++ c.send_queue) ≡ h.rest ++ ns
    → FlowSpec (flows c) l.peer.recv_seq c l.wire (h.rest ++ ns)
    → (c.shutting_down && c.established) ≡ false
    → IsLink (record l { conn = c; submitted = l.submitted ++ ns })
submitted-IsLink l h c ns one up queued flow down =
    let (i, b) = grow l.conn.next_send_seq h.rest ns one h.increasing h.bounded in
    record {
      rest = h.rest ++ ns;
      whole = sym (append_assoc l.processed h.rest ns) ∙ ap (λ t. t ++ ns) h.whole;
      queued = queued;
      flow = flow;
      increasing = i;
      bounded = rw up b;
      behind = rw up (omega (arith, h.behind));
      down = down;
    }

pub at_tail :
    (r : ℕ)
    → (xs ys : List Msend) → (m : Msend) → (rest ns : List ℕ) → pending r (m ∷ []) ≡ ns
    → pending r (xs ++ ys) ≡ rest
    → pending r (xs ++ (ys ++ m ∷ [])) ≡ rest ++ ns
at_tail r xs ys m rest ns e h =
    ap (pending r) (sym (append_assoc xs ys (m ∷ [])))
    ∙ pending-snoc r (xs ++ ys) m ns e
    ∙ ap (λ t. t ++ ns) h

pub in_middle :
    (r : ℕ)
    → (xs ys : List Msend) → (m : Msend) → (rest ns : List ℕ) → pending r (m ∷ []) ≡ ns
    → pending r ys ≡ []
    → pending r (xs ++ ys) ≡ rest
    → pending r ((xs ++ m ∷ []) ++ ys) ≡ rest ++ ns
in_middle r xs ys m rest ns e none_sent h =
    let whole : pending r xs ≡ rest =
      sym (append-nil (pending r xs))
      ∙ ap (λ t. pending r xs ++ t) (sym none_sent)
      ∙ sym (pending-append r xs ys)
      ∙ h in
    pending-append r (xs ++ m ∷ []) ys
    ∙ ap (λ t. pending r (xs ++ m ∷ []) ++ t) none_sent
    ∙ append-nil (pending r (xs ++ m ∷ []))
    ∙ pending-snoc r xs m ns e
    ∙ ap (λ t. t ++ ns) whole

-- More at the tail of the send queue
pub flow_more :
    (b : Bool)
    → (r : ℕ) → (c d : Conn) → (wire : List Header) → (rest ns : List ℕ)
    → pending r d.send_queue ≡ pending r c.send_queue ++ ns
    → (b ≡ false → ns ≡ [])
    → FlowSpec b r c wire rest
    → FlowSpec b r d wire (rest ++ ns)
flow_more true r c d wire rest ns e k h =
    ap (λ t. wire_pending r wire ++ t) e
    ∙ sym (append_assoc (wire_pending r wire) (pending r c.send_queue) ns)
    ∙ ap (λ t. t ++ ns) h
flow_more false r c d wire rest ns e k h = (
  e ∙ ap (λ t. pending r c.send_queue ++ t) (k refl) ∙ append-nil (pending r c.send_queue) ∙ h.0,
  h.1,
)

-- A send queue with the same messages to be received
pub flow_same :
    (b : Bool)
    → (r : ℕ) → (c d : Conn) → (wire : List Header) → (rest : List ℕ)
    → pending r d.send_queue ≡ pending r c.send_queue
    → FlowSpec b r c wire rest
    → FlowSpec b r d wire rest
flow_same true r c d wire rest e h = ap (λ t. wire_pending r wire ++ t) e ∙ h
flow_same false r c d wire rest e h = (e ∙ h.0, h.1)
