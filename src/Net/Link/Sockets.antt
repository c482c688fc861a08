-- ===== src/Net/Link/Sockets.antt =====
-- A socket that is cut, and one that is connected again, keep what holds of a link.
use scoutfs.Net.Session.{
  accept_conn, alloc_conn, connect_worker, migrate, scoutfs_net_client_greeting, set_valid_greeting,
  shutdown_conn, shutdown_worker,
}
use scoutfs.Net.Pending.{pending, pending-append, pending-drop_greetings, wire_pending}
use scoutfs.Net.{Conn}
use scoutfs.Net.Link.Steps.{FlowSpec, IsLink, flows}
use scoutfs.Net.Link.{Link, cut_link, with_conn}
use scoutfs.Prelude.{
  Bool, Bool-cases, [], ap, append-nil, arith, false, inl, inr, refl, subst, sym, true, ℕ, ◌&&◌,
  ◌++◌, ◌∙◌, ◌≡◌,
}

module _ (l : Link) (h : IsLink l) where
  abbrev R : ℕ
  R = l.peer.recv_seq

  -- Nothing is to be received from the send queue or the socket.
  no_flow : flows l.conn ≡ false → FlowSpec false R l.conn l.wire h.rest
  no_flow e = subst (λ b. FlowSpec b R l.conn l.wire h.rest) e h.flow

  all_resend : flows l.conn ≡ false → pending R l.conn.resend_queue ≡ h.rest
  all_resend e =
      sym (append-nil (pending R l.conn.resend_queue))
      ∙ ap (λ t. pending R l.conn.resend_queue ++ t) (sym (no_flow e).0)
      ∙ sym (pending-append R l.conn.resend_queue l.conn.send_queue)
      ∙ h.queued

  -- The sender has the same messages, none of them on the socket or to be sent now.
  still-IsLink :
      (k : Link)
      → k.processed ≡ l.processed
      → k.submitted ≡ l.submitted
      → k.peer.recv_seq ≡ R
      → k.conn.next_send_seq ≡ l.conn.next_send_seq
      → pending R k.conn.resend_queue ≡ h.rest
      → pending R k.conn.send_queue ≡ []
      → wire_pending R k.wire ≡ []
      → flows k.conn ≡ false
      → (k.conn.shutting_down && k.conn.established) ≡ false
      → IsLink k
  still-IsLink k p s r n q none_sent no_wire f d = record {
    rest = h.rest;
    whole = ap (λ t. t ++ h.rest) p ∙ h.whole ∙ sym s;
    queued =
        ap (λ j. pending j (k.conn.resend_queue ++ k.conn.send_queue)) r
        ∙ pending-append R k.conn.resend_queue k.conn.send_queue
        ∙ ap (λ t. pending R k.conn.resend_queue ++ t) none_sent
        ∙ append-nil (pending R k.conn.resend_queue)
        ∙ q;
    flow =
        subst (λ b. FlowSpec b k.peer.recv_seq k.conn k.wire h.rest) (sym f)
          (
            ap (λ j. pending j k.conn.send_queue) r ∙ none_sent,
            ap (λ j. wire_pending j k.wire) r ∙ no_wire,
          );
    increasing = h.increasing;
    bounded = rw n h.bounded;
    behind = rw (n, r) h.behind;
    down = d;
  }

  shut_established :
      (l.conn.shutting_down && l.conn.established) ≡ false
      → (shutdown_conn l.conn).established ≡ false
  unfolding shutdown_conn
  shut_established d = ground arith

  shut_queues :
      (c : Conn)
      → ((shutdown_conn c).send_queue ≡ c.send_queue)
        × ((shutdown_conn c).resend_queue ≡ c.resend_queue)
        × ((shutdown_conn c).next_send_seq ≡ c.next_send_seq)
        × ((shutdown_conn c).recv_seq ≡ c.recv_seq)
  unfolding shutdown_conn
  shut_queues c = elim (Bool-cases c.shutting_down) [
    | inl gone ↦ rw gone (refl, refl, refl, refl)
    | inr up ↦ rw up (refl, refl, refl, refl)
  ]

  and_false : (b c : Bool) → c ≡ false → (b && c) ≡ false
  and_false b c e = ground arith

  first_false : (b c : Bool) → b ≡ false → (b && c) ≡ false
  first_false b c e = ground arith

  pub cut_link-IsLink : IsLink (cut_link l)
  unfolding shutdown_worker pending wire_pending
  cut_link-IsLink =
      let (s, r, n, p) = shut_queues l.conn in
      let (s', r', n', p') = shut_queues l.peer in
      let closed = shut_established h.down in
      still-IsLink (cut_link l) refl refl p' n
        (pending-drop_greetings R
            ((shutdown_conn l.conn).resend_queue ++ (shutdown_conn l.conn).send_queue)
          ∙ ap (λ q. pending R (q ++ (shutdown_conn l.conn).send_queue)) r
          ∙ ap (λ q. pending R (l.conn.resend_queue ++ q)) s
          ∙ h.queued)
        refl refl
        (first_false (shutdown_conn l.conn).established (shutdown_conn l.conn).valid_greeting
          closed)
        (and_false (shutdown_worker (shutdown_conn l.conn)).shutting_down
          (shutdown_conn l.conn).established closed)

  pub connect-IsLink :
      l.conn.shutting_down ≡ false
      → l.conn.established ≡ false
      → IsLink (with_conn (connect_worker l.conn) l)
  unfolding connect_worker
  connect-IsLink up closed =
      let still : flows l.conn ≡ false = ground arith in
      still-IsLink (with_conn (connect_worker l.conn) l) refl refl refl refl (all_resend still)
        (no_flow still).0 (no_flow still).1 refl (rw up refl)

  -- A valid greeting moves all that waits to the send queue.
  greeted-IsLink :
      (c : Conn)
      → flows c ≡ true
      → flows l.conn ≡ false
      → c.next_send_seq ≡ l.conn.next_send_seq
      → pending R c.send_queue ≡ h.rest
      → c.resend_queue ≡ []
      → (c.shutting_down && c.established) ≡ false
      → IsLink (with_conn c l)
  greeted-IsLink c f still n q e d = record {
    rest = h.rest;
    whole = h.whole;
    queued = ap (λ xs. pending R (xs ++ c.send_queue)) e ∙ q;
    flow =
        subst (λ b. FlowSpec b R c l.wire h.rest) (sym f)
          (ap (λ t. t ++ pending R c.send_queue) (no_flow still).1 ∙ q);
    increasing = h.increasing;
    bounded = rw n h.bounded;
    behind = rw n h.behind;
    down = d;
  }

  pub greet-IsLink :
      l.conn.established ≡ true
      → l.conn.valid_greeting ≡ false
      → IsLink (with_conn (scoutfs_net_client_greeting l.conn false) l)
  unfolding scoutfs_net_client_greeting set_valid_greeting
  greet-IsLink open_now unmet =
      let still : flows l.conn ≡ false = ground arith in
      greeted-IsLink (scoutfs_net_client_greeting l.conn false) (rw open_now refl) still refl
        (pending-append R l.conn.send_queue l.conn.resend_queue
          ∙ ap (λ t. t ++ pending R l.conn.resend_queue) (no_flow still).0
          ∙ all_resend still)
        refl h.down

  pub accept-IsLink : l.conn.established ≡ false → IsLink (with_conn (accept_conn l.conn) l)
  unfolding set_valid_greeting migrate alloc_conn
  accept-IsLink closed =
      let still : flows l.conn ≡ false = ground arith in
      greeted-IsLink (accept_conn l.conn) refl still refl (all_resend still) refl refl

  pub peer_accept-IsLink : IsLink (record l { peer = accept_conn l.peer })
  unfolding set_valid_greeting migrate alloc_conn
  peer_accept-IsLink = record {
    rest = h.rest;
    whole = h.whole;
    queued = h.queued;
    flow = h.flow;
    increasing = h.increasing;
    bounded = h.bounded;
    behind = h.behind;
    down = h.down;
  }
