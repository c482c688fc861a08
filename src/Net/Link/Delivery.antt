-- ===== src/Net/Link/Delivery.antt =====
-- What is received is what was submitted, in its order and once, across any number of cut sockets.
use scoutfs.Net.{Header}
use scoutfs.Net.Pending.{pending, wire_pending}
use scoutfs.Net.Link.Steps.{IsLink}
use scoutfs.Net.Link.{Link}
use scoutfs.Prelude.{List, ℕ, ◌++◌, ◌∷◌, ◌≡◌}

module _ (l : Link) (h : IsLink l) (nh : Header) (hs : List Header) (first : l.wire ≡ nh ∷ hs) where
  abbrev R : ℕ
  R = l.peer.recv_seq

  -- What is left when the first is received
  abbrev left : List ℕ
  left = wire_pending R hs ++ pending R l.conn.send_queue
