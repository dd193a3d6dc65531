-- ===== src/Irc/Client.antt =====
-- irc/client.c: what a client does at each event: a signal, a line that is typed, a message of the
-- server or of the peer, a connection that comes in. The threads share `global_client_info` and
-- `global_peer_info`; an event is handled as one step of one thread.
pub mod Modes
pub mod Conversation
pub mod Connect
pub mod Commands
use network_protocol_cli_too.Common.{
  ℕ, zero, suc, ◌-◌, Bool, true, false, not, ◌||◌, List, [], ◌∷◌, ◌++◌, Option, none, some, ltb,
  leb, ◌==◌, if◌then◌else◌, length, take, ℤ, pos, negsuc, Outcome, ok, fault, ◌>>=◌, ◌>>◌,
  undefined_if,
}
use network_protocol_cli_too.CString.{Bytes, codes, c_str, bytes_eq, starts_with, strip_prefix}
use network_protocol_cli_too.CString.Scan.{scan_word}
use network_protocol_cli_too.CString.Signed.{scan_d}
use network_protocol_cli_too.Irc.Server.{first_line, print_d}

abbrev pub buffer_size : ℕ
buffer_size = 1024

abbrev pub id_size : ℕ
id_size = 32

abbrev pub address_size : ℕ
address_size = 16

pub data Mode : Type 0 where
  info wait chat : Mode

-- `ClientInfo` and `PeerInfo`. A socket that is -1, or has not been made, is `none`.
pub record State : Type 0 where
  pub id : Bytes
  pub listener : Option ℕ
  pub peer_id : Bytes
  pub peer : Option ℕ
  pub mode : Mode

-- What the client does to the outside: it sends to the server or to a peer, or closes a socket.
pub data Action : Type 0 where
  to_server : Bytes → Action
  to_peer : ℕ → Bytes → Action
  closes : ℕ → Action

-- What an event leaves: the state, the actions, and whether the process goes on.
pub record After : Type 0 where
  pub state : State
  pub actions : List Action
  pub goes_on : Bool

abbrev pub stays : State → List Action → After
stays s actions = record { state = s; actions = actions; goes_on = true }

abbrev exits : State → List Action → After
exits s actions = record { state = s; actions = actions; goes_on = false }

-- `send` and `close` on a socket that is -1 fail, and nobody looks.
abbrev pub send_peer : Option ℕ → Bytes → List Action
send_peer none message = []
send_peer (some socket) message = to_peer socket message ∷ []

abbrev pub close_socket : Option ℕ → List Action
close_socket none = []
close_socket (some socket) = closes socket ∷ []

-- `main` before its loop, and what it sends to the server. The ID is copied to an array of 32 bytes.
unfoldable pub start : Bytes → Outcome After
start id = do
  undefined_if (leb id_size (length id))
  ok (
      stays (record { id = id; listener = none; peer_id = []; peer = none; mode = info })
        (to_server id ∷ []))

on_signal : Mode → State → After
on_signal info s = stays s []
on_signal chat s = stays s (send_peer s.peer (codes "LEAVE"))
on_signal wait s =
    stays (record s { listener = none; mode = info })
      (to_server (codes "/stop_wait") ∷ close_socket s.listener)

-- `handle_sigint`
unfoldable pub interrupt : State → After
unfolding on_signal
interrupt s = on_signal s.mode s

-- The end of a conversation in `receive_peer_messages`.
unfoldable pub leave : State → After
leave s = stays (record s { peer = none; mode = info }) (close_socket s.peer)

-- A message of the peer, which is printed as a string. It is copied into 1024 zeroed bytes.
peer_text : State → Bytes → Outcome After
unfolding leave
peer_text s message =
    if starts_with (codes "LEAVE") (take buffer_size message) then ok (leave s) else do
      undefined_if (leb buffer_size (length (c_str (take buffer_size message))))
      ok (stays s [])

-- One round of `receive_peer_messages`: an empty message is the end of the connection, or an error.
unfoldable pub from_peer : State → Bytes → Outcome After
unfolding leave peer_text
from_peer s [] = ok (leave s)
from_peer s (c ∷ message) = peer_text s (c ∷ message)

-- The first message on a new connection is the peer's ID, in 32 zeroed bytes.
peer_named : State → ℕ → Bytes → Outcome After
peer_named s socket [] = ok (stays s (closes socket ∷ []))
peer_named s socket (c ∷ id) = do
  undefined_if (leb id_size (length (c ∷ id)))
  ok (stays (record s { peer = some socket; peer_id = c ∷ id; mode = chat }) [])

-- `wait_for_connection`: what `accept` returns, and the peer's message.
unfoldable pub accepted : State → Option ℕ → Bytes → Outcome After
unfolding peer_named
accepted s none message = ok (stays s [])
accepted s (some socket) message = peer_named s socket (c_str (take id_size message))

-- `handle_connect`: the result of `connect`, where there is a socket for it.
unfoldable pub handle_connect : State → Bytes → Option ℕ → After
handle_connect s peer_id none = stays (record s { peer = none }) (close_socket s.peer)
handle_connect s peer_id (some socket) =
    stays (record s { peer = some socket; peer_id = peer_id; mode = chat })
      (to_peer socket s.id ∷ [])

-- `sscanf(buffer, "CONNECT %s %s %d", …)`, where all three conversions are made. Each one is handed
-- what its directive scanned.
scan_port : Bytes → Bytes → Option (ℤ × Bytes) → Option (Bytes × Bytes × ℤ)
scan_port id ip none = none
scan_port id ip (some (port, rest)) = some (id, ip, port)

scan_address : Bytes → Option (Bytes × Bytes) → Option (Bytes × Bytes × ℤ)
unfolding scan_port scan_d
scan_address id none = none
scan_address id (some (ip, rest)) = scan_port id ip (scan_d rest)

scan_peer : Option (Bytes × Bytes) → Option (Bytes × Bytes × ℤ)
unfolding scan_address scan_word
scan_peer none = none
scan_peer (some (id, rest)) = scan_address id (scan_word (length rest) rest)

scan_behind : Option Bytes → Option (Bytes × Bytes × ℤ)
unfolding scan_peer scan_word
scan_behind none = none
scan_behind (some rest) = scan_peer (scan_word (length rest) rest)

unfoldable pub scan_connect : Bytes → Option (Bytes × Bytes × ℤ)
unfolding scan_behind strip_prefix
scan_connect text = scan_behind (strip_prefix (codes "CONNECT") text)

-- The words are written to arrays of 32 and 16 bytes. A conversion that is not made leaves a variable
-- unset that `handle_connect` reads.
connect_scanned : (Bytes → ℤ → Option ℕ) → State → Option (Bytes × Bytes × ℤ) → Outcome After
unfolding handle_connect
connect_scanned connects s none = fault
connect_scanned connects s (some (peer_id, ip, port)) = do
  undefined_if (leb id_size (length peer_id) || leb address_size (length ip))
  ok (handle_connect s peer_id (connects ip port))

abbrev pub taken_text : Bytes
taken_text = codes "Client ID is already taken.\n"

-- A message of the server as a string. The answer to `/wait` is only printed, like any other.
server_text : (Bytes → ℤ → Option ℕ) → State → Bytes → Outcome After
unfolding connect_scanned scan_connect
server_text connects s text =
    if starts_with (codes "CONNECT") text
    then connect_scanned connects s (scan_connect text)
    else if bytes_eq text taken_text
    then ok (exits s [])
    else ok (stays s [])

-- One round of `receive_server_messages`: `buffer[bytes_received] = '\0'` is out of bounds for 1024
-- bytes. The environment says what `connect` gives for an address and a port.
unfoldable pub from_server : (Bytes → ℤ → Option ℕ) → State → Bytes → Outcome After
unfolding server_text
from_server connects s [] = ok (exits s [])
from_server connects s (c ∷ message) =
    if leb buffer_size (length (c ∷ message))
    then fault
    else server_text connects s (c_str (c ∷ message))

-- What the calls for a `/wait` return: the listening socket, whether `bind` and `listen` work, and
-- the port that is assigned.
pub record Listening : Type 0 where
  pub socket : Option ℕ
  pub listens : Bool
  pub port : ℕ

-- `/quit`
on_quit : Mode → State → List Action
on_quit info s = []
on_quit wait s = close_socket s.listener
on_quit chat s = send_peer s.peer (codes "LEAVE") ++ close_socket s.peer

-- `/wait`, when the client does not wait yet: the line and the port go to the server. The mode is
-- changed before the calls that may fail.
begin_wait : Listening → State → Bytes → After
unfolding print_d
begin_wait l s line =
    stays (record s { listener = l.socket; mode = wait })
      (to_server line ∷ (if l.listens then to_server (print_d (pos l.port)) ∷ [] else []))

-- A line for the server.
on_info : Listening → Mode → State → Bytes → After
unfolding begin_wait
on_info l m s line =
    if starts_with (codes "/wait") line
    then elim m [ wait ↦ stays s [] | info ↦ begin_wait l s line | chat ↦ begin_wait l s line ]
    else if starts_with (codes "/connect") line
    then elim m [
      | wait ↦ stays s []
      | info ↦ stays s (to_server line ∷ [])
      | chat ↦ stays s (to_server line ∷ [])
    ]
    else stays s (to_server line ∷ [])

on_mode : Listening → Mode → State → Bytes → After
unfolding on_info
on_mode l chat s line = stays s (send_peer s.peer line)
on_mode l info s line = on_info l info s line
on_mode l wait s line = on_info l wait s line

typed_line : Listening → State → Bytes → After
unfolding on_quit on_mode
typed_line l s [] = stays s []
typed_line l s (c ∷ line) =
    if starts_with (codes "/quit") (c ∷ line)
    then exits s (on_quit s.mode s)
    else on_mode l s.mode s (c ∷ line)

-- One round of the loop of `main`, for what `fgets` can read. The process ends by `exit`, which closes
-- the connection to the server.
unfoldable pub typed : Listening → State → Bytes → After
unfolding typed_line first_line
typed l s input = typed_line l s (first_line (take (buffer_size - 1) input))
