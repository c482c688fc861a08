-- ===== src/Net/Link/Sends.antt =====
-- The sender's steps keep what holds of a link.
use scoutfs.Net.Pending.{pending, pending-append, wire_pending, wire_pending-append}
use scoutfs.Net.{
  Conn, Header, Msend, Submit, cmd_farewell, cmd_greeting, new_send, nh_is_response, queue_send,
  send_worker,
}
use scoutfs.Net.Link.Steps.{
  FlowSpec, IsLink, at_tail, bumped, flow_more, flow_same, flows, in_middle, pending-greeting,
  pending-one, pending-snoc, submit_either, submitted-IsLink,
}
use scoutfs.Net.Link.{Link, new_seqs, send_link, sent, submit_link}
use scoutfs.Prelude.{
  Bool, Bool-cases, List, Option, Result, [], ap, append-nil, append_assoc, arith, false,
  if◌then◌else◌, inl, inr, none, refl, some, subst, sym, true, ℕ, ◌&&◌, ◌++◌, ◌+◌, ◌<◌, ◌==◌, ◌^◌,
  ◌||◌, ◌∙◌, ◌∷◌, ◌≡◌, ◌⊎◌,
}

module _ (l : Link) (h : IsLink l) where
  abbrev R : ℕ
  R = l.peer.recv_seq

  not_flowing : flows l.conn ≡ false → FlowSpec false R l.conn l.wire h.rest
  not_flowing e = subst (λ b. FlowSpec b R l.conn l.wire h.rest) e h.flow

  queued-IsLink :
      (s : Submit)
      → (ns : List ℕ) → l.conn.next_send_seq + 1 < 2 ^ 64
      → (ns ≡ []) ⊎ (ns ≡ l.conn.next_send_seq ∷ [])
      → pending R (new_send l.conn s ∷ []) ≡ ns
      → (flows l.conn ≡ false
          → (l.conn.established && (l.conn.valid_greeting || s.cmd == cmd_greeting)) ≡ true
          → ns ≡ [])
      → IsLink (record l {
        conn = queue_send (bumped l.conn s) (new_send l.conn s);
        submitted = l.submitted ++ ns;
      })
  queued-IsLink s ns fits one pend plain =
      let m = new_send l.conn s in
      elim (Bool-cases (l.conn.established && (l.conn.valid_greeting || s.cmd == cmd_greeting))) [
        | inl now ↦ rw now (
            submitted-IsLink l h
              (record (bumped l.conn s) { send_queue = l.conn.send_queue ++ m ∷ [] }) ns one
              (omega arith)
              (at_tail R l.conn.resend_queue l.conn.send_queue m h.rest ns pend h.queued)
              (flow_more (flows l.conn) R l.conn
                (record (bumped l.conn s) { send_queue = l.conn.send_queue ++ m ∷ [] }) l.wire
                h.rest ns (pending-snoc R l.conn.send_queue m ns pend) (λ e. plain e now) h.flow)
              h.down)
        | inr waits ↦
            let still : flows l.conn ≡ false = ground arith in
            let (no_send, no_wire) = not_flowing still in
            rw waits (
              submitted-IsLink l h
                (record (bumped l.conn s) { resend_queue = l.conn.resend_queue ++ m ∷ [] }) ns one
                (omega arith)
                (in_middle R l.conn.resend_queue l.conn.send_queue m h.rest ns pend no_send
                  h.queued)
                (subst
                  (λ b.
                    FlowSpec b R
                      (record (bumped l.conn s) { resend_queue = l.conn.resend_queue ++ m ∷ [] })
                      l.wire (h.rest ++ ns))
                  (sym still) (no_send, no_wire))
                h.down)
      ]

  submitted_ok :
      (s : Submit)
      → l.conn.next_send_seq + 1 < 2 ^ 64
      → IsLink (record l {
        conn = queue_send (bumped l.conn s) (new_send l.conn s);
        submitted =
            l.submitted ++ (if s.cmd == cmd_greeting then [] else l.conn.next_send_seq ∷ []);
      })
  submitted_ok s fits = elim (Bool-cases (s.cmd == cmd_greeting)) [
    | inl greeting ↦
        subst
          (λ ns. IsLink (record l {
            conn = queue_send (bumped l.conn s) (new_send l.conn s);
            submitted = l.submitted ++ ns;
          }))
          (rw greeting refl)
          (queued-IsLink s [] fits (inl refl) (pending-greeting R (new_send l.conn s) greeting)
            (λ e f. refl))
    | inr other ↦
        subst
          (λ ns. IsLink (record l {
            conn = queue_send (bumped l.conn s) (new_send l.conn s);
            submitted = l.submitted ++ ns;
          }))
          (rw other refl)
          (queued-IsLink s (l.conn.next_send_seq ∷ []) fits (inr refl)
            (pending-one R (new_send l.conn s) refl other h.behind) (λ e f. absurd (ground arith)))
  ]

  pub submit_link-IsLink :
      (f a : Bool) → (s : Submit) → l.conn.next_send_seq + 1 < 2 ^ 64 → IsLink (submit_link f a s l)
  submit_link-IsLink f a s fits = elim (submit_either f a l.conn s) [
    | inl (e, fails) ↦
        subst
          (λ (r : Result ℕ × Conn).
            IsLink (record l { conn = r.1; submitted = l.submitted ++ new_seqs r.0 l.conn s }))
          (sym fails)
          (subst (λ ns. IsLink (record l { submitted = ns })) (sym (append-nil l.submitted)) h)
    | inr fine ↦
        subst
          (λ (r : Result ℕ × Conn).
            IsLink (record l { conn = r.1; submitted = l.submitted ++ new_seqs r.0 l.conn s }))
          (sym fine) (submitted_ok s fits)
  ]

  -- The head of the send queue, as it goes on the socket
  abbrev on_wire : Msend → Header
  on_wire m = record m.nh { recv_seq = l.conn.recv_seq }

  head_pending :
      (m : Msend)
      → (ms : List Msend) → m.dead ≡ false
      → pending R (m ∷ ms) ≡ wire_pending R (on_wire m ∷ []) ++ pending R ms
  unfolding pending wire_pending
  head_pending m ms live = ground arith

  dead_pending : (m : Msend) → (ms : List Msend) → m.dead ≡ true → pending R (m ∷ ms) ≡ pending R ms
  unfolding pending
  dead_pending m ms gone = ground arith

  both_empty : (xs ys : List ℕ) → xs ++ ys ≡ [] → (xs ≡ []) × (ys ≡ [])
  both_empty [] ys e = (refl, e)
  both_empty (x ∷ xs) ys e = absurd cc

  wire_tail :
      (m : Msend)
      → wire_pending R (l.wire ++ on_wire m ∷ [])
        ≡ wire_pending R l.wire ++ wire_pending R (on_wire m ∷ [])
  wire_tail m = wire_pending-append R l.wire (on_wire m ∷ [])

  -- The head goes from the send queue to the socket and to the resend queue.
  flow_sent :
      (b : Bool)
      → (c : Conn) → (m : Msend) → (ms : List Msend) → m.dead ≡ false
      → l.conn.send_queue ≡ m ∷ ms
      → c.send_queue ≡ ms
      → FlowSpec b R l.conn l.wire h.rest
      → FlowSpec b R c (l.wire ++ on_wire m ∷ []) h.rest
  flow_sent true c m ms live e f k =
      ap (λ q. wire_pending R (l.wire ++ on_wire m ∷ []) ++ pending R q) f
      ∙ ap (λ t. t ++ pending R ms) (wire_tail m)
      ∙ append_assoc (wire_pending R l.wire) (wire_pending R (on_wire m ∷ [])) (pending R ms)
      ∙ ap (λ t. wire_pending R l.wire ++ t) (sym (head_pending m ms live) ∙ ap (pending R) (sym e))
      ∙ k
  flow_sent false c m ms live e f k =
      let (no_wire, no_send) =
        both_empty (wire_pending R (on_wire m ∷ [])) (pending R ms)
          (sym (head_pending m ms live) ∙ ap (pending R) (sym e) ∙ k.0) in
      (
        ap (pending R) f ∙ no_send,
        wire_tail m ∙ ap (λ t. t ++ wire_pending R (on_wire m ∷ [])) k.1 ∙ no_wire,
      )

  flow_freed :
      (b : Bool)
      → (c : Conn) → (m : Msend) → (ms : List Msend) → m.dead ≡ true
      → l.conn.send_queue ≡ m ∷ ms
      → c.send_queue ≡ ms
      → FlowSpec b R l.conn l.wire h.rest
      → FlowSpec b R c l.wire h.rest
  flow_freed b c m ms gone e f k =
      let same : pending R c.send_queue ≡ pending R l.conn.send_queue =
        ap (pending R) f ∙ sym (dead_pending m ms gone) ∙ ap (pending R) (sym e) in
      flow_same b R l.conn c l.wire h.rest same k

  send_result :
      (r : Option Header × Conn)
      → IsLink (record l { conn = r.1; wire = l.wire ++ sent r.0 })
      → send_worker l.conn ≡ r
      → IsLink (send_link l)
  send_result r k e =
      subst
        (λ (r : Option Header × Conn). IsLink (record l { conn = r.1; wire = l.wire ++ sent r.0 }))
        (sym e) k

  pub send_link-IsLink : (q : List Msend) → l.conn.send_queue ≡ q → IsLink (send_link l)
  unfolding send_worker
  send_link-IsLink [] e =
      send_result (none, l.conn)
        (subst (λ w. IsLink (record l { wire = w })) (sym (append-nil l.wire)) h) (rw e refl)
  send_link-IsLink (m ∷ ms) e = elim (Bool-cases m.dead) [
    | inl gone ↦
        send_result (none, record l.conn { send_queue = ms })
          (subst (λ w. IsLink (record l { conn = record l.conn { send_queue = ms }; wire = w }))
            (sym (append-nil l.wire))
            (record {
              rest = h.rest;
              whole = h.whole;
              queued =
                  pending-append R l.conn.resend_queue ms
                  ∙ ap (λ t. pending R l.conn.resend_queue ++ t)
                      (sym (dead_pending m ms gone) ∙ ap (pending R) (sym e))
                  ∙ sym (pending-append R l.conn.resend_queue l.conn.send_queue)
                  ∙ h.queued;
              flow =
                  flow_freed (flows l.conn) (record l.conn { send_queue = ms }) m ms gone e refl
                    h.flow;
              increasing = h.increasing;
              bounded = h.bounded;
              behind = h.behind;
              down = h.down;
            }))
          (rw (e, gone) refl)
    | inr live ↦
        let c : Conn = record l.conn {
          saw_farewell = l.conn.saw_farewell || (m.nh.cmd == cmd_farewell && nh_is_response m.nh);
          send_queue = ms;
          resend_queue = l.conn.resend_queue ++ m ∷ [];
        } in
        send_result (some (on_wire m), c)
          (record {
            rest = h.rest;
            whole = h.whole;
            queued =
                ap (pending R) (
                  append_assoc l.conn.resend_queue (m ∷ []) ms
                  ∙ ap (λ q. l.conn.resend_queue ++ q) (sym e))
                ∙ h.queued;
            flow = flow_sent (flows l.conn) c m ms live e refl h.flow;
            increasing = h.increasing;
            bounded = h.bounded;
            behind = h.behind;
            down = h.down;
          })
          (rw (e, live) refl)
  ]
