-- ===== src/Net/Session.antt =====
-- kmod/src/net.c: the sockets of a connection one after the other, their shutdown and their greetings.
use scoutfs.Net.{Conn, Msend, is_greeting, nh_is_response}
use scoutfs.Prelude.{Bool, List, [], false, if◌then◌else◌, true, ◌++◌, ◌∷◌}

unfoldable pub drop_greetings : List Msend → List Msend
drop_greetings [] = []
drop_greetings (m ∷ ms) = if is_greeting m then drop_greetings ms else m ∷ drop_greetings ms

-- `shutdown_conn_locked`, and the part of the shutdown worker that deals with the queues; a client can retry
unfoldable pub shutdown_conn : Conn → Conn
shutdown_conn conn =
    if conn.shutting_down then conn else record conn { established = false; shutting_down = true }

unfoldable pub shutdown_worker : Conn → Conn
shutdown_worker conn = record conn {
  resend_queue = drop_greetings (conn.resend_queue ++ conn.send_queue);
  send_queue = [];
  saw_greeting = false;
  shutting_down = conn.is_accepted;
}

unfoldable pub connect_worker : Conn → Conn
connect_worker conn = record conn { valid_greeting = false; established = true }

unfoldable pub set_valid_greeting : Conn → Conn
set_valid_greeting conn = record conn {
  valid_greeting = true;
  send_queue = conn.send_queue ++ conn.resend_queue;
  resend_queue = [];
}

unfoldable pub drop_responses : List Msend → List Msend
drop_responses [] = []
drop_responses (m ∷ ms) = if nh_is_response m.nh then drop_responses ms else m ∷ drop_responses ms

unfoldable pub scoutfs_net_client_greeting : Conn → (new_server : Bool) → Conn
scoutfs_net_client_greeting conn new_server = set_valid_greeting (
    if new_server
    then record conn { recv_seq = 0; resend_queue = drop_responses conn.resend_queue }
    else conn)

-- The state that a server's new connection takes from the one that the client had
unfoldable pub migrate : (conn reconn : Conn) → Conn
migrate conn reconn = record conn {
  next_send_seq = reconn.next_send_seq;
  next_send_id = reconn.next_send_id;
  recv_seq = reconn.recv_seq;
  resend_queue = conn.resend_queue ++ reconn.resend_queue;
}

-- A new connection, as `scoutfs_net_alloc_conn` makes it
unfoldable pub alloc_conn : Bool → Conn
alloc_conn is_accepted = record {
  is_accepted = is_accepted;
  established = false;
  shutting_down = false;
  valid_greeting = false;
  saw_greeting = false;
  saw_farewell = false;
  next_send_seq = 1;
  next_send_id = 1;
  recv_seq = 0;
  send_queue = [];
  resend_queue = [];
}

-- The new connection of a client that is back at its server takes the state of the old one.
abbrev pub accept_conn : Conn → Conn
accept_conn conn =
    set_valid_greeting (migrate (record (alloc_conn true) { established = true }) conn)
