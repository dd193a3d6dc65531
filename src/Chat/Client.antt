-- ===== src/Chat/Client.antt =====
-- archive/chat/src/myclient.c: the modes, and what each command sends and reads. `id` is a pointer that
-- is never set, so that whatever reads an ID through it is undefined.
pub mod Listing
use network_protocol_cli_too.Common.{
  ℕ, suc, Bool, true, false, not, List, [], ◌∷◌, ◌++◌, Option, none, some, ltb, ◌==◌, if◌then◌else◌,
  length, take, replicate, into, ℤ, pos, negsuc, Outcome, ok, fault, ◌>>=◌, ◌>>◌, undefined_if,
}
use network_protocol_cli_too.CString.{Bytes, codes, c_str, bytes_eq, starts_with}
use network_protocol_cli_too.CString.Decimal.{print_zu}
use network_protocol_cli_too.CString.Search.{strtok}
use network_protocol_cli_too.Chat.ClientList.{max_id_length, max_msg_length, padded}

pub data Mode : Type 0 where
  info wait chat : Mode

-- `clientMode` and `socketmode`
pub record State : Type 0 where
  pub mode : Mode
  pub info_socket : ℕ
  pub wait_socket : ℕ
  pub chat_socket : ℕ

-- What goes to the outside: a message on a socket, its shutdown or end, or a text for the user.
pub data Action : Type 0 where
  sends : ℕ → Bytes → Action
  shuts_down : ℕ → Action
  closes : ℕ → Action
  prints : Bytes → Action

on_signal : Mode → State → Outcome (State × List Action)
on_signal info s = ok (s, [])
on_signal wait s =
    ok
      (record s { mode = info }, shuts_down s.wait_socket ∷ prints (codes "Stopped waiting\n") ∷ [])
on_signal chat s = fault

-- `handler`: in CHAT mode it prints `id->requestClient`.
unfoldable pub handler : State → Outcome (State × List Action)
unfolding on_signal
handler s = on_signal s.mode s

abbrev entry : ℕ → Bytes → Bytes
entry i id = print_zu i ++ codes ") " ++ id ++ codes "\n"

next_entry : ℕ → Bytes → Outcome Bytes → Outcome Bytes
next_entry i got later = do
  undefined_if (not (ltb (length got) max_id_length))
  rest ← later
  ok (entry i got ++ rest)

-- The loop of `getClientList` over what each `recv` brings into the buffer of 32 bytes, which is
-- printed as a string and then cleared.
unfoldable pub list_entries : ℕ → Bytes → List Bytes → Outcome Bytes
unfolding c_str next_entry
list_entries i buffer [] = ok []
list_entries i buffer ([] ∷ packets) = ok []
list_entries i buffer ((c ∷ p) ∷ packets) =
    let later = list_entries (suc i) (replicate 32 0) packets in
    let got = into buffer (take max_id_length (c ∷ p)) in
    if c == 10 then ok [] else next_entry i (c_str got) later

listed_entries : State → Outcome Bytes → Outcome (ℤ × List Action)
listed_entries s entries = do
  text ← entries
  ok (pos 1, sends s.info_socket (codes "/list") ∷ prints text ∷ [])

-- `getClientList`: its value and the actions. The buffer is not set at first.
unfoldable pub get_client_list : State → Bool → Bytes → List Bytes → Outcome (ℤ × List Action)
unfolding list_entries listed_entries
get_client_list s sent buffer packets =
    if sent then listed_entries s (list_entries 0 buffer packets) else ok (negsuc 0, [])

-- What the calls of `joinWaitList` return: the socket, where it is made, bound, listening and named,
-- with its port; whether `send` works; what the array holds behind the text.
pub record Listening : Type 0 where
  pub socket : Option ℕ
  pub port : ℕ
  pub sent : Bool
  pub behind : Bytes

-- `sprintf(buffer, "%d", newsockfd)`, of which all 1024 bytes are sent.
abbrev port_message : Listening → Bytes
port_message l = take max_msg_length (print_zu l.port ++ (0 ∷ l.behind))

-- `joinWaitList`: it ends without `return` where all goes well.
joined : State → Listening → Option ℕ → ℤ → State × List Action × ℤ
joined s l none leftover = (s, [], negsuc 0)
joined s l (some socket) leftover =
    if l.sent
    then (
      record s { mode = wait; wait_socket = socket },
      sends s.info_socket (port_message l) ∷ [],
      leftover,
    )
    else (s, [], negsuc 0)

unfoldable pub join_wait_list : State → Listening → ℤ → State × List Action × ℤ
unfolding joined
join_wait_list s l leftover = joined s l l.socket leftover

-- What `select` returns in a round of `waitThread`.
pub data Selected : Type 0 where
  fails nothing : Selected
  ready : ℕ → Selected

selected : State → Selected → Outcome (State × List Action × Bool)
selected s fails = ok (s, [], false)
selected s nothing = ok (s, [], true)
selected s (ready socket) = fault

-- A round of `waitThread`, and whether there is another. Where a connection is accepted, an ID is sent
-- from the pointer that is not set.
waiting_round : Mode → State → Selected → Outcome (State × List Action × Bool)
unfolding selected
waiting_round info s r =
    ok (s, sends s.info_socket (padded max_msg_length (codes "/remove")) ∷ [], false)
waiting_round wait s r = selected s r
waiting_round chat s r = selected s r

unfoldable pub wait_round : State → Selected → Outcome (State × List Action × Bool)
unfolding waiting_round
wait_round s r = waiting_round s.mode s r

-- `connectClient`. The command has room for 31 bytes of the ID. Behind a `recv` that works, nothing is
-- scanned, and the address that is converted is not set; behind one that fails, the text that is
-- compared is not set.
unfoldable pub connect_client : Bytes → Bool → Outcome ℤ
connect_client id sent = do
  undefined_if (not (ltb (length id) max_id_length))
  (if sent then fault else ok (negsuc 0))

connect_word : Bool → Option (Bytes × Bytes) → Outcome (List Action)
unfolding connect_client
connect_word sent none = fault
connect_word sent (some (id, rest)) = do value ← connect_client id sent; ok []

-- What a command may use of the system.
pub record Answers : Type 0 where
  pub sent : Bool
  pub buffer : Bytes
  pub packets : List Bytes
  pub listening : Listening

listed : Outcome (ℤ × List Action) → State → Outcome (State × List Action)
listed m s = m >>= λ r. ok (s, r.1)

connected : Outcome (List Action) → State → Outcome (State × List Action)
connected m s = m >>= λ actions. ok (s, actions)

waits : State × List Action × ℤ → Outcome (State × List Action)
waits (t, actions, value) = ok (t, actions)

on_token : State → Answers → Option (Bytes × Bytes) → Outcome (State × List Action)
unfolding listed waits connected get_client_list join_wait_list connect_word strtok
on_token s a none = ok (s, [])
on_token s a (some (token, rest)) =
    if bytes_eq token (codes "/quit")
    then ok (s, closes s.info_socket ∷ [])
    else if bytes_eq token (codes "/list")
    then listed (get_client_list s a.sent a.buffer a.packets) s
    else if bytes_eq token (codes "/wait")
    then waits (join_wait_list s a.listening (pos 0))
    else if bytes_eq token (codes "/connect")
    then connected (connect_word a.sent (strtok (codes " ") rest)) s
    else ok (s, [])

-- The command that `main` reads, behind which it returns and the process ends.
unfoldable pub run_command : State → Answers → Bytes → Outcome (State × List Action)
unfolding on_token strtok
run_command s a line =
    if starts_with (codes "/") line then on_token s a (strtok (codes " ") line) else ok (s, [])
