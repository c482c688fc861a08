-- ===== src/Net/Examples.antt =====
-- A client sends a request, the socket is cut before it arrives, and the request is sent again on the next socket.
use scoutfs.Net.Session.{
  alloc_conn, connect_worker, drop_greetings, scoutfs_net_client_greeting, set_valid_greeting,
  shutdown_conn, shutdown_worker,
}
use scoutfs.Net.Codes.{code_of, net_response, net_response-no_code}
use scoutfs.Net.Link.{Link, cut_link, first_link, receive_link, send_link, submit_link, with_conn}
use scoutfs.Net.{
  Conn, Header, Msend, Submit, invalid_message, recv_message, send_worker, submit_send,
}
use scoutfs.Prelude.{List, [], einval, err, false, refl, some, true, ℕ, ◌∷◌, ◌≡◌}

abbrev request : Submit
request = record {
  cmd = 7;
  flags = 0;
  id = 0;
  net_err = 0;
  data_len = 16;
  has_data = true;
  resp_func = some 1;
}

abbrev connected_link : Link
connected_link =
    let open_link = with_conn (connect_worker (first_link false).conn) (first_link false) in
    with_conn (scoutfs_net_client_greeting open_link.conn false) open_link

abbrev sent_link : Link
sent_link = send_link (submit_link false true request connected_link)

abbrev again_link : Link
again_link =
    let cut = cut_link sent_link in
    let open_link = with_conn (connect_worker cut.conn) cut in
    with_conn (scoutfs_net_client_greeting open_link.conn false) open_link

abbrev request_header : Header
request_header = record {
  seq = 1;
  recv_seq = 0;
  id = 1;
  data_len = 16;
  cmd = 7;
  flags = 0;
  error = 0;
}

abbrev resent_link : Link
resent_link = receive_link request_header [] (send_link again_link)

request_is_processed : resent_link.processed ≡ 1 ∷ []
unfolding alloc_conn connect_worker scoutfs_net_client_greeting set_valid_greeting submit_send
    send_worker shutdown_worker shutdown_conn drop_greetings recv_message invalid_message
request_is_processed = refl

-- A request that is submitted after the connection is marked for shutdown and before the shutdown worker runs goes
-- ahead of one that was submitted before and not yet sent.
abbrev overtaken : Conn
overtaken =
    let first = (submit_send false true connected_link.conn request).1 in
    shutdown_worker (submit_send false true (shutdown_conn first) request).1

seqs_of : List Msend → List ℕ
seqs_of [] = []
seqs_of (m ∷ ms) = m.nh.seq ∷ seqs_of ms

second_goes_first : seqs_of overtaken.resend_queue ≡ 2 ∷ 1 ∷ []
unfolding alloc_conn connect_worker scoutfs_net_client_greeting set_valid_greeting submit_send
    send_worker shutdown_worker shutdown_conn drop_greetings seqs_of
second_goes_first = refl

-- ENOTCONN has no code.
net_response-no_code_example :
    net_response false true connected_link.conn 7 3 107 0 false ≡ (err einval, connected_link.conn)
unfolding code_of
net_response-no_code_example =
    net_response-no_code false true connected_link.conn 7 3 107 0 false refl refl
