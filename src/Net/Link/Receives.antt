-- ===== src/Net/Link/Receives.antt =====
-- The steps of the receiver, and what it lets the sender free, keep what holds of a link.
use scoutfs.Net.Pending.{pending, pending-append, pending-list_del, pending-take_acked}
use scoutfs.Net.{
  Conn, Header, Msend, complete_send, find_request, free_acked_responses, list_del,
  process_response, take_acked,
}
use scoutfs.Net.Link.Steps.{FlowSpec, IsLink, flow_same, flows}
use scoutfs.Net.Link.{Link, with_conn}
use scoutfs.Prelude.{
  Bool-cases, List, Option-cases, ap, false, inl, inr, refl, some, subst, sym, true, ℕ, ◌&&◌, ◌++◌,
  ◌∙◌, ◌∷◌, ◌≡◌, ◌≤◌,
}

module _ (l : Link) (h : IsLink l) where
  abbrev R : ℕ
  R = l.peer.recv_seq

  -- Queues with the same messages to be received
  same-IsLink :
      (c : Conn)
      → pending R c.send_queue ≡ pending R l.conn.send_queue
      → pending R c.resend_queue ≡ pending R l.conn.resend_queue
      → flows c ≡ flows l.conn
      → c.next_send_seq ≡ l.conn.next_send_seq
      → (c.shutting_down && c.established) ≡ false
      → IsLink (with_conn c l)
  same-IsLink c e f g n d = record {
    rest = h.rest;
    whole = h.whole;
    queued =
        pending-append R c.resend_queue c.send_queue
        ∙ ap (λ t. t ++ pending R c.send_queue) f
        ∙ ap (λ t. pending R l.conn.resend_queue ++ t) e
        ∙ sym (pending-append R l.conn.resend_queue l.conn.send_queue)
        ∙ h.queued;
    flow =
        subst (λ b. FlowSpec b R c l.wire h.rest) (sym g)
          (flow_same (flows l.conn) R l.conn c l.wire h.rest e h.flow);
    increasing = h.increasing;
    bounded = rw n h.bounded;
    behind = rw n h.behind;
    down = d;
  }

  dead_head :
      (m : Msend) → (ms : List Msend) → pending R (record m { dead = true } ∷ ms) ≡ pending R ms
  unfolding pending
  dead_head m ms = refl

  complete_send-IsLink : (m : Msend) → m.nh.seq ≤ R → IsLink (with_conn (complete_send l.conn m) l)
  unfolding complete_send
  complete_send-IsLink m received = elim (Bool-cases m.dead) [
    | inl gone ↦ rw gone h
    | inr live ↦ rw live (
        same-IsLink
          (record l.conn {
            send_queue = record m { dead = true } ∷ list_del m.nh.seq l.conn.send_queue;
            resend_queue = list_del m.nh.seq l.conn.resend_queue;
          })
          (dead_head m (list_del m.nh.seq l.conn.send_queue)
            ∙ pending-list_del R m.nh.seq l.conn.send_queue received)
          (pending-list_del R m.nh.seq l.conn.resend_queue received) refl refl h.down)
  ]

  pub process_response-IsLink :
      (nh : Header)
      → ((m : Msend) → find_request l.conn nh.cmd nh.id ≡ some m → m.nh.seq ≤ R)
      → IsLink (with_conn (process_response l.conn nh).0 l)
  unfolding process_response
  process_response-IsLink nh received = elim (Option-cases (find_request l.conn nh.cmd nh.id)) [
    | inl missing ↦ rw (missing, process_response) h
    | inr (m, found) ↦ rw (found, process_response) (complete_send-IsLink m (received m found))
  ]

  pub free_acked-IsLink :
      (seq : ℕ) → seq ≤ R → IsLink (with_conn (free_acked_responses l.conn seq) l)
  unfolding free_acked_responses
  free_acked-IsLink seq received =
      let (a, b) = pending-take_acked R seq l.conn.send_queue received in
      let (c, d) = pending-take_acked R seq l.conn.resend_queue received in
      let sends = take_acked seq l.conn.send_queue in
      let resends = take_acked seq l.conn.resend_queue in
      same-IsLink
        (record l.conn { send_queue = resends.1 ++ sends.1 ++ sends.0; resend_queue = resends.0 })
        (pending-append R (resends.1 ++ sends.1) sends.0
          ∙ ap (λ t. t ++ pending R sends.0)
              (pending-append R resends.1 sends.1 ∙ ap (λ t. t ++ pending R sends.1) d ∙ b)
          ∙ a)
        c refl refl h.down
