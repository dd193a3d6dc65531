-- ===== src/Irc/Client/Modes.antt =====
-- The modes of irc/client.c over all events: what holds in every state that a client reaches, and how
-- a conversation ends on both sides.
pub mod Keep
use network_protocol_cli_too.Common.{
  ℕ, ◌<◌, ◌≡◌, ◌⊎◌, inl, inr, refl, subst, Bool, true, false, [], ◌∷◌, Option, none, some, arith,
  leb, length, take, ℤ, Outcome, ok, exit_failure, fault, ◌>>◌, undefined_if, if◌then◌else◌, ◌||◌,
}
use network_protocol_cli_too.CString.{Bytes, codes, c_str, bytes_eq, starts_with}
use network_protocol_cli_too.Irc.Client.{
  Mode, info, wait, chat, State, After, start, on_signal, interrupt, leave, peer_text, from_peer,
  peer_named, accepted, handle_connect, scan_connect, connect_scanned, taken_text, server_text,
  from_server, Listening, begin_wait, on_info, on_mode, typed_line, typed, id_size, buffer_size,
  address_size,
}
use network_protocol_cli_too.Irc.Client.Modes.Keep.{
  IsInOrder, Keeps, Keeps-guard, interrupt-IsInOrder, typed-IsInOrder, from_peer-IsInOrder,
  accepted-IsInOrder, from_server-IsInOrder,
}

-- What the threads react to, with what the system calls bring.
pub data Event : Type 0 where
  signal : Event
  line : Listening → Bytes → Event
  server_message : (Bytes → ℤ → Option ℕ) → Bytes → Event
  peer_message : Bytes → Event
  connection : Option ℕ → Bytes → Event

unfoldable pub react : Event → State → Outcome After
unfolding interrupt typed from_server from_peer accepted
react signal s = ok (interrupt s)
react (line l input) s = ok (typed l s input)
react (server_message connects message) s = from_server connects s message
react (peer_message message) s = from_peer s message
react (connection socket message) s = accepted s socket message

-- The states of a client that is called `id` and has not ended.
pub data Reachable (id : Bytes) : State → Type 0 where
  started : (a : After) → start id ≡ ok a → Reachable id a.state
  reacted :
      {s : State} (event : Event) (a : After)
      → Reachable id s
      → react event s ≡ ok a
      → a.goes_on ≡ true
      → Reachable id a.state

react-IsInOrder :
    (id : Bytes) (event : Event) (s : State) → IsInOrder id s → Keeps id (react event s)
unfolding react
react-IsInOrder id signal s v = interrupt-IsInOrder id s v
react-IsInOrder id (line l input) s v = typed-IsInOrder id l s input v
react-IsInOrder id (server_message connects message) s v =
    from_server-IsInOrder id connects s message v
react-IsInOrder id (peer_message message) s v = from_peer-IsInOrder id s message v
react-IsInOrder id (connection socket message) s v = accepted-IsInOrder id s socket message v

start-IsInOrder : (id : Bytes) → Keeps id (start id)
unfolding start
start-IsInOrder id =
    Keeps-guard id (leb id_size (length id)) _ (λ h. record {
      same = refl;
      fits = ground arith;
      peer_fits = omega arith;
      chatting = inl refl;
    })

-- In every state that a client reaches from its start, whatever the events and their order, as long
-- as they are defined and the process goes on, it has kept its ID, this ID and the peer's fit their
-- arrays of 32 bytes, and it has a socket to a peer in CHAT mode only.
pub Reachable-IsInOrder : {id : Bytes} {s : State} → Reachable id s → IsInOrder id s
Reachable-IsInOrder {id} (started a e) = subst (Keeps id) e (start-IsInOrder id)
Reachable-IsInOrder {id} (reacted {s} event a r e g) =
    subst (Keeps id) e (react-IsInOrder id event s (Reachable-IsInOrder r))
