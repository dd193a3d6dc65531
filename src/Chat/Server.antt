-- ===== src/Chat/Server.antt =====
-- archive/chat/src/myserver.c: `serverThread`, over the list of clients. The memory of an ID that is
-- freed while the list points to it is kept apart: whatever reads the IDs then is undefined.
pub mod Freed
use network_protocol_cli_too.Common.{
  ℕ, Bool, true, false, List, [], ◌∷◌, ◌++◌, Option, none, some, if◌then◌else◌, into, take, length,
  ltb, ℤ, pos, negsuc,
}
use network_protocol_cli_too.CString.{Bytes, codes, bytes_eq, c_str}
use network_protocol_cli_too.CString.Signed.{atoi}
use network_protocol_cli_too.CString.Search.{strtok}
use network_protocol_cli_too.Chat.ClientList.{
  ClientNode, ClientList, Result, returned, exited, blocked, undefined, insert_to_list,
  send_client_list, send_client_info, max_msg_length,
}

-- The list, and whether an ID in it has been freed.
pub record State : Type 0 where
  pub list : ClientList
  pub freed : Bool

-- What the system brings to a command: which `send` calls work, the text in the array `port`, and what
-- the array `command`, which is never set, holds before the `recv`.
pub record Input : Type 0 where
  pub sends : List Bool
  pub sent : Bool
  pub port : Bytes
  pub command : Bytes

-- What a call leaves: it goes on with a state and what it sent, the process ends by `exit(-1)`, the
-- thread waits for the mutex for ever, or it is undefined.
pub data Step : Type 0 where
  goes_on : State → List Bytes → Step
  exits : Step
  waits : Step
  is_undefined : Step

-- The result of `sendClientList` or `sendClientInfo`: -1 ends the process.
unfoldable pub replied : Bool → Result (ℤ × List Bytes) → Step
replied freed (returned (pos n, packets) l) = goes_on (record { list = l; freed = freed }) packets
replied freed (returned (negsuc n, packets) l) = exits
replied freed exited = exits
replied freed blocked = waits
replied freed undefined = is_undefined

-- The result of `insertToList`, and `free(id)`.
inserted : Result ℤ → Step
inserted (returned (pos n) l) = goes_on (record { list = l; freed = true }) []
inserted (returned (negsuc n) l) = exits
inserted exited = exits
inserted blocked = waits
inserted undefined = is_undefined

-- `/list` reads all IDs.
unfoldable pub list_command : State → Input → Step
unfolding replied send_client_list
list_command s input =
    if s.freed then is_undefined else replied s.freed (send_client_list input.sends s.list)

-- `/wait` reads the IDs of the list and that of the thread.
wait_command : State → Input → Bytes → Bytes → Step
unfolding inserted insert_to_list atoi
wait_command s input id ip =
    if s.freed then is_undefined else inserted (insert_to_list id ip (atoi input.port) s.list)

any_node : List ClientNode → Bool
any_node [] = false
any_node (n ∷ ns) = true

-- `/connect` compares the word behind it, which is NULL where there is none, with all IDs.
connect_command : State → Input → Option (Bytes × Bytes) → Step
unfolding replied send_client_info any_node
connect_command s input none =
    if any_node s.list.nodes
    then is_undefined
    else replied s.freed (send_client_info input.sent [] s.list)
connect_command s input (some (connect_id, rest)) =
    if s.freed
    then is_undefined
    else replied s.freed (send_client_info input.sent connect_id s.list)

on_token : State → Input → Bytes → Bytes → Option (Bytes × Bytes) → Step
unfolding list_command wait_command connect_command strtok
on_token s input id ip none = is_undefined
on_token s input id ip (some (token, rest)) =
    if bytes_eq token (codes "/list")
    then list_command s input
    else if bytes_eq token (codes "/wait")
    then wait_command s input id ip
    else if bytes_eq token (codes "/connect")
    then connect_command s input (strtok (codes " ") rest)
    else goes_on s []

-- One round of the loop: `recv` puts the message into the front of the array, and no NUL behind it. An
-- array without a NUL is no string.
unfoldable pub server_command : State → Input → Bytes → Bytes → Bytes → Step
unfolding on_token strtok c_str
server_command s input id ip message =
    let array = into input.command (take max_msg_length message) in
    if ltb (length (c_str array)) (length array)
    then on_token s input id ip (strtok (codes " ") (c_str array))
    else is_undefined

also_sent : List Bytes → Step → Step
also_sent packets (goes_on s more) = goes_on s (packets ++ more)
also_sent packets exits = exits
also_sent packets waits = waits
also_sent packets is_undefined = is_undefined

and_then : Step → (State → Step) → Step
unfolding also_sent
and_then (goes_on t packets) later = also_sent packets (later t)
and_then exits later = exits
and_then waits later = waits
and_then is_undefined later = is_undefined

-- The rounds of a thread, up to a `recv` that brings nothing.
unfoldable pub serve : State → Bytes → Bytes → List (Input × Bytes) → Step
unfolding server_command and_then
serve s id ip [] = goes_on s []
serve s id ip ((input, []) ∷ messages) = goes_on s []
serve s id ip ((input, c ∷ message) ∷ messages) =
    and_then (server_command s input id ip (c ∷ message)) (λ t. serve t id ip messages)

-- `serverThread`. Where no ID comes, the socket is closed, and `getpeername` fails on it.
unfoldable pub server_thread : State → Option Bytes → Option Bytes → List (Input × Bytes) → Step
unfolding serve
server_thread s none peer messages = exits
server_thread s (some id) none messages = exits
server_thread s (some id) (some ip) messages = serve s id ip messages

-- The loop of `main`: whether `accept` and `pthread_create` work, and the status with which the process
-- ends, in the first round.
unfoldable pub accept_round : Bool → Bool → ℕ
accept_round accepted created = if accepted then if created then 0 else 1 else 1
