-- ===== src/Net/Link.antt =====
-- One direction of a connection: a sender, the socket, and a receiver, across any number of cut sockets.
pub mod Steps
pub mod Sends
pub mod Receives
pub mod Sockets
pub mod Delivery
use scoutfs.Net.Session.{
  accept_conn, alloc_conn, connect_worker, scoutfs_net_client_greeting, shutdown_conn,
  shutdown_worker,
}
use scoutfs.Net.{
  Conn, Header, Msend, Received, Submit, breaks, cmd_greeting, drops, find_request,
  free_acked_responses, process_response, processes, recv_message, send_worker, submit_send,
}
use scoutfs.Prelude.{
  Bool, List, Option, Result, [], err, false, if◌then◌else◌, none, not, ok, some, true, ℕ, ◌++◌,
  ◌+◌, ◌<◌, ◌==◌, ◌^◌, ◌∷◌, ◌≡◌, ◌≤◌,
}

-- The messages on the socket in order, and the sequence numbers of those that were processed and submitted, greetings
-- apart
pub record Link : Type 0 where
  pub conn : Conn
  pub peer : Conn
  pub wire : List Header
  pub processed : List ℕ
  pub submitted : List ℕ

abbrev pub new_seqs : Result ℕ → Conn → Submit → List ℕ
new_seqs (ok id) conn s = if s.cmd == cmd_greeting then [] else conn.next_send_seq ∷ []
new_seqs (err e) conn s = []

abbrev pub submit_link : (forcing_unmount allocs : Bool) → Submit → Link → Link
submit_link forcing_unmount allocs s l =
    let r = submit_send forcing_unmount allocs l.conn s in
    record l { conn = r.1; submitted = l.submitted ++ new_seqs r.0 l.conn s }

abbrev pub sent : Option Header → List Header
sent none = []
sent (some h) = h ∷ []

abbrev pub send_link : Link → Link
send_link l = let r = send_worker l.conn in record l { conn = r.1; wire = l.wire ++ sent r.0 }

-- The socket is shut down at both ends, and what was on it is lost.
abbrev pub cut_link : Link → Link
cut_link l = record l {
  conn = shutdown_worker (shutdown_conn l.conn);
  peer = shutdown_worker (shutdown_conn l.peer);
  wire = [];
}

abbrev pub receive_result : Received × Conn → Header → List Header → Link → Link
receive_result (breaks, p) nh hs l = cut_link l
receive_result (drops, p) nh hs l = record l { peer = p; wire = hs }
receive_result (processes, p) nh hs l = record l {
  peer = p;
  wire = hs;
  processed = l.processed ++ (if nh.cmd == cmd_greeting then [] else nh.seq ∷ []);
}

abbrev pub receive_link : Header → List Header → Link → Link
receive_link nh hs l = receive_result (recv_message l.peer nh) nh hs l

abbrev pub with_conn : Conn → Link → Link
with_conn conn l = record l { conn = conn }

-- A response is for a request that was received, and what is acknowledged was received.
pub data Step : Link → Link → Type 0 where
  submits :
      {l : Link}
      → (forcing_unmount allocs : Bool) → (s : Submit) → l.conn.next_send_seq + 1 < 2 ^ 64
      → Step l (submit_link forcing_unmount allocs s l)
  sends : {l : Link} → Step l (send_link l)
  receives :
      {l : Link}
      → (nh : Header) → (hs : List Header) → l.wire ≡ nh ∷ hs
      → Step l (receive_link nh hs l)
  completes :
      {l : Link}
      → (nh : Header)
      → ((m : Msend) → find_request l.conn nh.cmd nh.id ≡ some m → m.nh.seq ≤ l.peer.recv_seq)
      → Step l (with_conn (process_response l.conn nh).0 l)
  acks :
      {l : Link}
      → (seq : ℕ) → seq ≤ l.peer.recv_seq
      → Step l (with_conn (free_acked_responses l.conn seq) l)
  cuts : {l : Link} → Step l (cut_link l)
  connects :
      {l : Link}
      → l.conn.is_accepted ≡ false
      → l.conn.shutting_down ≡ false
      → l.conn.established ≡ false
      → Step l (with_conn (connect_worker l.conn) l)
  greets :
      {l : Link}
      → l.conn.established ≡ true
      → l.conn.valid_greeting ≡ false
      → Step l (with_conn (scoutfs_net_client_greeting l.conn false) l)
  accepts :
      {l : Link}
      → l.conn.is_accepted ≡ true
      → l.conn.established ≡ false
      → l.conn.send_queue ≡ []
      → Step l (with_conn (accept_conn l.conn) l)
  peer_accepts :
      {l : Link} → l.peer.is_accepted ≡ true → Step l (record l { peer = accept_conn l.peer })

abbrev pub first_link : Bool → Link
first_link is_accepted = record {
  conn = alloc_conn is_accepted;
  peer = alloc_conn (not is_accepted);
  wire = [];
  processed = [];
  submitted = [];
}

pub data Reach : Link → Type 0 where
  start : (is_accepted : Bool) → Reach (first_link is_accepted)
  step : {l k : Link} → Reach l → Step l k → Reach k
