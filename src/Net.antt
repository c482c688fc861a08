-- ===== src/Net.antt =====
-- kmod/src/net.c: one end of a connection, its queues of messages to send, and what it does with a message that it
-- receives. The work queues, sockets and listeners are left out; a function that holds the lock is one step.
pub mod Session
pub mod Codes
pub mod Pending
pub mod Link
mod Examples
use scoutfs.Prelude.{
  Bool, List, Option, Result, [], einval, eio, enomem, err, false, if◌then◌else◌, leb, ltb, none,
  not, ok, some, true, ℕ, ◌%◌, ◌&&◌, ◌++◌, ◌+◌, ◌/◌, ◌==◌, ◌^◌, ◌||◌, ◌∷◌,
}

-- `struct scoutfs_net_header`, without its payload
pub record Header : Type 0 where
  pub seq : ℕ
  pub recv_seq : ℕ
  pub id : ℕ
  pub data_len : ℕ
  pub cmd : ℕ
  pub flags : ℕ
  pub error : ℕ

-- `struct message_send`; a response function is a number.
pub record Msend : Type 0 where
  pub nh : Header
  pub resp_func : Option ℕ
  pub dead : Bool

-- `struct scoutfs_net_connection`, with its flags
pub record Conn : Type 0 where
  pub is_accepted : Bool
  pub established : Bool
  pub shutting_down : Bool
  pub valid_greeting : Bool
  pub saw_greeting : Bool
  pub saw_farewell : Bool
  pub next_send_seq : ℕ
  pub next_send_id : ℕ
  pub recv_seq : ℕ
  pub send_queue : List Msend
  pub resend_queue : List Msend

abbrev pub cmd_greeting : ℕ
cmd_greeting = 0

abbrev pub cmd_farewell : ℕ
cmd_farewell = 19

abbrev pub cmd_unknown : ℕ
cmd_unknown = 20

abbrev pub err_unknown : ℕ
err_unknown = 6

abbrev pub max_data_len : ℕ
max_data_len = 1100

abbrev pub nh_is_response : Header → Bool
nh_is_response nh = nh.flags % 2 == 1

abbrev pub has_unknown_flags : ℕ → Bool
has_unknown_flags flags = not (flags / 2 == 0)

abbrev pub is_greeting : Msend → Bool
is_greeting m = m.nh.cmd == cmd_greeting

unfoldable pub search_list : ℕ → ℕ → List Msend → Option Msend
search_list cmd id [] = none
search_list cmd id (m ∷ ms) =
    if not (nh_is_response m.nh) && m.nh.cmd == cmd && m.nh.id == id
    then some m
    else search_list cmd id ms

abbrev pub alive : Msend → Option Msend
alive m = if m.dead then none else some m

unfoldable pub find_request : Conn → ℕ → ℕ → Option Msend
find_request conn cmd id = elim (search_list cmd id conn.resend_queue) [
  | some m ↦ alive m
  | none ↦ elim (search_list cmd id conn.send_queue) [ some m ↦ alive m | none ↦ none ]
]

-- The list without the message of this sequence number, which is its own in a connection
unfoldable pub list_del : ℕ → List Msend → List Msend
list_del seq [] = []
list_del seq (m ∷ ms) = if m.nh.seq == seq then ms else m ∷ list_del seq ms

-- Move a message to the head of the send queue, where it is freed.
unfoldable pub complete_send : Conn → Msend → Conn
complete_send conn m = if m.dead then conn else record conn {
  send_queue = record m { dead = true } ∷ list_del m.nh.seq conn.send_queue;
  resend_queue = list_del m.nh.seq conn.resend_queue;
}

-- The connection, and the response function that is called
unfoldable pub process_response : Conn → Header → Conn × Option ℕ
process_response conn nh = elim (find_request conn nh.cmd nh.id) [
  | some m ↦ (complete_send conn m, m.resp_func)
  | none ↦ (conn, none)
]

-- The messages that stay, and the acknowledged responses, of which the last met is the first
unfoldable pub take_acked : ℕ → List Msend → List Msend × List Msend
take_acked seq [] = ([], [])
take_acked seq (m ∷ ms) =
    let rest = take_acked seq ms in
    if ltb seq m.nh.seq
    then (m ∷ ms, [])
    else (if not (nh_is_response m.nh) || m.dead
        then (m ∷ rest.0, rest.1)
        else (rest.0, rest.1 ++ record m { dead = true } ∷ []))

-- Each is moved to the head of the send queue.
unfoldable pub free_acked_responses : Conn → ℕ → Conn
free_acked_responses conn seq =
    let sends = take_acked seq conn.send_queue in
    let resends = take_acked seq conn.resend_queue in
    record conn { send_queue = resends.1 ++ sends.1 ++ sends.0; resend_queue = resends.0 }

-- What the caller of `submit_send` gives
pub record Submit : Type 0 where
  pub cmd : ℕ
  pub flags : ℕ
  pub id : ℕ
  pub net_err : ℕ
  pub data_len : ℕ
  pub has_data : Bool
  pub resp_func : Option ℕ

abbrev pub is_bad_submit : Submit → Bool
is_bad_submit s =
    leb cmd_unknown s.cmd
    || has_unknown_flags s.flags
    || leb err_unknown s.net_err
    || ltb max_data_len s.data_len
    || (ltb 0 s.data_len && not s.has_data)
    || (ltb 0 s.net_err && not (s.flags % 2 == 1))
    || (s.id == 0 && s.flags % 2 == 1)

abbrev pub queue_send : Conn → Msend → Conn
queue_send conn m =
    if conn.established && (conn.valid_greeting || m.nh.cmd == cmd_greeting)
    then record conn { send_queue = conn.send_queue ++ m ∷ [] }
    else record conn { resend_queue = conn.resend_queue ++ m ∷ [] }

abbrev pub new_send : Conn → Submit → Msend
new_send conn s = record {
  nh = record {
    seq = conn.next_send_seq;
    recv_seq = 0;
    id = if s.id == 0 then conn.next_send_id else s.id;
    data_len = s.data_len;
    cmd = s.cmd;
    flags = s.flags;
    error = s.net_err;
  };
  resp_func = s.resp_func;
  dead = false;
}

-- The id of the message, and the connection with it; `rid` is that of the connection itself
unfoldable pub submit_send : (forcing_unmount allocs : Bool) → Conn → Submit → Result ℕ × Conn
submit_send forcing_unmount allocs conn s =
    if is_bad_submit s
    then (err einval, conn)
    else (if forcing_unmount
        then (err eio, conn)
        else (if not allocs then (err enomem, conn) else (
          ok (new_send conn s).nh.id,
          queue_send
              (record conn {
                next_send_seq = (conn.next_send_seq + 1) % 2 ^ 64;
                next_send_id =
                    if s.id == 0 then (conn.next_send_id + 1) % 2 ^ 64 else conn.next_send_id;
              })
              (new_send conn s),
        )))

abbrev pub same_bool : Bool → Bool → Bool
same_bool true b = b
same_bool false b = not b

unfoldable pub invalid_message : Conn → Header → Bool
invalid_message conn nh =
    (nh.seq == 0 || nh.id == 0)
    || (leb cmd_unknown nh.cmd || has_unknown_flags nh.flags || leb err_unknown nh.error)
    || ltb max_data_len nh.data_len
    || (not (nh_is_response nh) && not (nh.error == 0))
    || (nh.cmd == cmd_greeting
        && (conn.saw_greeting || not (same_bool conn.is_accepted (not (nh_is_response nh)))))

-- What the receive worker does with a message
pub data Received : Type 0 where
  breaks drops processes : Received

unfoldable pub recv_message : Conn → Header → Received × Conn
recv_message conn nh =
    if invalid_message conn nh
    then (breaks, conn)
    else (if nh.cmd == cmd_greeting
        then (processes, record conn { saw_greeting = true })
        else (if leb nh.seq conn.recv_seq
            then (drops, conn)
            else (processes, free_acked_responses (record conn { recv_seq = nh.seq }) nh.recv_seq)))

-- One turn of the send worker whose send succeeds: the message that it sent, if it did not free one
unfoldable pub send_worker : Conn → Option Header × Conn
send_worker conn = elim conn.send_queue [
  | [] ↦ (none, conn)
  | m ∷ ms ↦ if m.dead then (none, record conn { send_queue = ms }) else (
    some (record m.nh { recv_seq = conn.recv_seq }),
    record conn {
      saw_farewell = conn.saw_farewell || (m.nh.cmd == cmd_farewell && nh_is_response m.nh);
      send_queue = ms;
      resend_queue = conn.resend_queue ++ m ∷ [];
    },
  )
]
