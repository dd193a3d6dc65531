-- ===== src/Irc/Server.antt =====
-- irc/server.c: what `client_handler` does with the registry of clients and with the waiting list.
-- A message that a client sends is handled as one step: `client_mutex` is held where the code changes
-- the shared arrays, and the `recv` of a port is made under it.
mod Rows
pub mod Registry
pub mod Steps
pub mod Waiting
pub mod Members
use network_protocol_cli_too.Common.{
  ℕ, zero, suc, ◌-◌, Bool, true, false, not, ◌||◌, List, [], ◌∷◌, ◌++◌, map, Option, none, some,
  ltb, ◌==◌, if◌then◌else◌, length, take, drop, set, get_elem?, ℤ, pos, negsuc, Outcome, ok, fault,
  ◌>>=◌, ◌>>◌, undefined_if,
}
use network_protocol_cli_too.CString.{Bytes, codes, c_str, bytes_eq, starts_with}
use network_protocol_cli_too.CString.Decimal.{print_zu}
use network_protocol_cli_too.CString.Scan.{scan_word}
use network_protocol_cli_too.CString.Signed.{atoi}
pub use network_protocol_cli_too.Irc.Server.Rows.{
  max_clients, max_waiting, buffer_size, id_size, Client, literal, is_positive,
}
unfoldable pub use network_protocol_cli_too.Irc.Server.Rows.{
  first_line, received_line, print_d, index_of, remove_row, socket_row, lines,
}

-- The shared variables: all rows of `clients`, those behind `client_count` too, and the first
-- `waiting_count` rows of `waiting_clients`, which are the only ones that are read.
pub record Server : Type 0 where
  pub clients : List Client
  pub client_count : ℕ
  pub waiting : List Bytes

-- What a step leaves: the shared variables, what is sent to the client, and whether its loop goes on.
pub record Reply : Type 0 where
  pub server : Server
  pub sent : Bytes
  pub goes_on : Bool

abbrev pub answer : Server → Bytes → Reply
answer server sent = record { server = server; sent = sent; goes_on = true }

abbrev pub ids : Server → List Bytes
ids s = map (λ c. c.id) (take s.client_count s.clients)

-- The check of the ID and the new row, up to the loop. The arrays have no check of their size.
enter : Server → ℕ → Bytes → Option ℕ → Outcome Reply
enter s socket client_id (some i) = ok (record {
  server = s;
  sent = literal (codes "Client ID is already taken.\n") 29;
  goes_on = false;
})
enter s socket client_id none = do
  undefined_if (not (ltb s.client_count max_clients))
  ok (
      answer
        (record s {
          clients =
              set s.clients s.client_count
                (record { id = client_id; socket = socket; port = negsuc 0; in_chat = false });
          client_count = suc s.client_count;
        })
        (codes "Client " ++ client_id ++ codes " connected.\n"))

unfoldable pub register : Server → ℕ → Bytes → Outcome Reply
unfolding enter index_of received_line
register s socket message = do
  client_id ← received_line id_size message
  enter s socket client_id (index_of client_id (ids s))

-- `clients[i] = clients[client_count - 1]; client_count--;`
drop_row : Server → Option ℕ → Option Client → Server
drop_row s none last = s
drop_row s (some i) none = s
drop_row s (some i) (some c) = record s {
  clients = set s.clients i c;
  client_count = s.client_count - 1;
}

-- The end of the connection: the client's row goes, its row of the waiting list stays.
unfoldable pub disconnect : Server → ℕ → Server
unfolding drop_row socket_row
disconnect s socket =
    drop_row s (socket_row socket s.client_count s.clients)
      (get_elem? s.clients (s.client_count - 1))

-- The answer to `/list` is put together in an array of `BUFFER_SIZE` bytes.
list_waiting : Server → Outcome Reply
unfolding lines
list_waiting s =
    let response = codes "Waiting clients:\n" ++ lines s.waiting in
    do undefined_if (not (ltb (length response) buffer_size)); ok (answer s response)

unfoldable pub list_command : Server → Outcome Reply
unfolding list_waiting
list_command s =
    if length s.waiting == 0
    then ok (answer s (codes "No clients are waiting.\n"))
    else list_waiting s

pub set_port : ℤ → Option Client → List Client → ℕ → List Client
set_port port none cs i = cs
set_port port (some c) cs i = set cs i (record c { port = port; in_chat = true })

-- The port is stored in the row of `clients` whose number is `waiting_count`.
add_waiting : Server → Bytes → ℤ → Outcome Reply
unfolding set_port
add_waiting s client_id port = do
  undefined_if (not (ltb (length s.waiting) max_waiting))
  ok (
      answer
        (record s {
          waiting = s.waiting ++ (client_id ∷ []);
          clients =
              set_port port (get_elem? s.clients (length s.waiting)) s.clients (length s.waiting);
        })
        (literal (codes "Waiting for connection. (Ctrl+C to stop waiting)\n") 50))

start_wait : Server → Bytes → ℤ → Outcome Reply
unfolding add_waiting
start_wait s client_id port =
    if is_positive port
    then add_waiting s client_id port
    else ok (answer s (literal (codes "Invalid port number.\n") 22))

wait_at : Server → Bytes → Bytes → Option ℕ → Outcome Reply
unfolding start_wait
wait_at s client_id message (some i) =
    ok (answer s (literal (codes "You are already in WAIT mode.\n") 30))
wait_at s client_id message none = start_wait s client_id (atoi (c_str (take buffer_size message)))

-- `/wait`, with the message that follows it, whose text is taken to end with the buffer.
unfoldable pub wait_command : Server → Bytes → Bytes → Outcome Reply
unfolding wait_at index_of
wait_command s client_id message = wait_at s client_id message (index_of client_id s.waiting)

-- `clients[target_index].port`, within the array
port_at : Option Client → Outcome ℤ
port_at none = fault
port_at (some c) = ok c.port

unfoldable pub connect_reply : Bytes → ℤ → Bytes
unfolding print_d
connect_reply target_id port =
    take (buffer_size - 1)
      (codes "CONNECT " ++ target_id ++ codes " 127.0.0.1 " ++ print_d port ++ codes "\n")

connect_at : Server → Bytes → Option ℕ → Outcome Reply
unfolding port_at connect_reply remove_row
connect_at s target_id none = ok (answer s (literal (codes "Client is not waiting.\n") 24))
connect_at s target_id (some i) = do
  port ← port_at (get_elem? s.clients i)
  ok (answer (record s { waiting = remove_row i s.waiting }) (connect_reply target_id port))

-- The word behind the command goes to an array of 32 bytes; without one the array is not set, and
-- the first comparison reads it.
connect_to : Server → Option (Bytes × Bytes) → Outcome Reply
unfolding connect_at index_of
connect_to s none = do undefined_if (not (length s.waiting == 0)); connect_at s [] none
connect_to s (some (target_id, rest)) = do
  undefined_if (not (ltb (length target_id) id_size))
  connect_at s target_id (index_of target_id s.waiting)

unfoldable pub connect_target : Bytes → Option (Bytes × Bytes)
connect_target line = scan_word (length line) (drop 8 line)

-- `/connect`, on a line that starts with it
unfoldable pub connect_command : Server → Bytes → Outcome Reply
unfolding connect_to connect_target
connect_command s line = connect_to s (connect_target line)

stop_at : Server → Option ℕ → Outcome Reply
unfolding remove_row
stop_at s none = fault
stop_at s (some i) = ok (
    answer (record s { waiting = remove_row i s.waiting })
      (literal (codes "\nStopped waiting.\n") 18))

-- `/stop_wait`. `target_index` is not set where the client is not found.
unfoldable pub stop_command : Server → Bytes → Outcome Reply
unfolding stop_at index_of
stop_command s client_id = stop_at s (index_of client_id s.waiting)

-- The body of the loop for a line, with the message that a `/wait` reads.
unfoldable pub command : Server → Bytes → Bytes → Bytes → Outcome Reply
unfolding list_command wait_command connect_command stop_command
command s client_id line message =
    if starts_with (codes "/list") line
    then list_command s
    else if starts_with (codes "/wait") line
    then wait_command s client_id message
    else if starts_with (codes "/connect") line
    then connect_command s line
    else if starts_with (codes "/stop_wait") line
    then stop_command s client_id
    else if starts_with (codes "/quit") line
    then ok (record { server = s; sent = []; goes_on = false })
    else ok (answer s (literal (codes "Bad prompt.\n") 13))

-- One round of the loop: a `recv` that brings nothing ends the connection.
unfoldable pub round : Server → Bytes → ℕ → Bytes → Bytes → Outcome Reply
unfolding command disconnect received_line
round s client_id socket [] message =
    ok (record { server = disconnect s socket; sent = []; goes_on = false })
round s client_id socket (c ∷ text) message = do
  line ← received_line buffer_size (c ∷ text)
  command s client_id line message

-- `broadcast`: the sockets that the message goes to.
unfoldable pub receivers : ℕ → ℕ → List Client → List ℕ
receivers exclude zero cs = []
receivers exclude (suc n) [] = []
receivers exclude (suc n) (c ∷ cs) =
    let others = receivers exclude n cs in if c.socket == exclude then others else c.socket ∷ others
