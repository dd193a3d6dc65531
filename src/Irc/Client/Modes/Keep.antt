-- ===== src/Irc/Client/Modes/Keep.antt =====
-- The handlers of irc/client.c, one by one: what they keep of the state.
use network_protocol_cli_too.Common.{
  ℕ, ◌<◌, ◌≡◌, ◌⊎◌, inl, inr, refl, Bool, true, false, [], ◌∷◌, Option, none, some, arith, leb,
  length, take, ℤ, Outcome, ok, exit_failure, fault, ◌>>◌, undefined_if, if◌then◌else◌, ◌||◌,
}
use network_protocol_cli_too.CString.{Bytes, codes, c_str, bytes_eq, starts_with}
use network_protocol_cli_too.Irc.Client.{
  Mode, info, wait, chat, State, After, on_signal, interrupt, leave, peer_text, from_peer,
  peer_named, accepted, handle_connect, scan_connect, connect_scanned, taken_text, server_text,
  from_server, Listening, begin_wait, on_info, on_mode, typed_line, typed, id_size, buffer_size,
  address_size,
}

-- The client keeps its ID, both IDs fit their arrays, and there is a socket to a peer in a
-- conversation only.
pub record IsInOrder (id : Bytes) (s : State) : Type 0 where
  pub same : s.id ≡ id
  pub fits : length s.id < id_size
  pub peer_fits : length s.peer_id < id_size
  pub chatting : (s.peer ≡ none) ⊎ (s.mode ≡ chat)

abbrev pub Keeps : Bytes → Outcome After → Type 0
Keeps id (ok a) = IsInOrder id a.state
Keeps id exit_failure = Unit {0}
Keeps id fault = Unit {0}

pub Keeps-guard :
    (id : Bytes) (b : Bool) (m : Outcome After)
    → (b ≡ false → Keeps id m)
    → Keeps id (undefined_if b >> m)
Keeps-guard id true m h = tt
Keeps-guard id false m h = h refl

Keeps-if :
    (id : Bytes) (b : Bool) (m n : Outcome After)
    → Keeps id m
    → Keeps id n
    → Keeps id (if b then m else n)
Keeps-if id true m n h k = h
Keeps-if id false m n h k = k

Keeps-if-After :
    (id : Bytes) (b : Bool) (m n : After)
    → IsInOrder id m.state
    → IsInOrder id n.state
    → Keeps id (ok (if b then m else n))
Keeps-if-After id true m n h k = h
Keeps-if-After id false m n h k = k

-- A change to a mode without a peer.
alone :
    {id : Bytes} {s : State} (listener : Option ℕ) (mode : Mode)
    → IsInOrder id s
    → IsInOrder id (record s { listener = listener; peer = none; mode = mode })
alone listener mode v = record {
  same = v.same;
  fits = v.fits;
  peer_fits = v.peer_fits;
  chatting = inl refl;
}

joined :
    {id : Bytes} {s : State} (socket : ℕ) (peer_id : Bytes)
    → length peer_id < id_size
    → IsInOrder id s
    → IsInOrder id (record s { peer = some socket; peer_id = peer_id; mode = chat })
joined socket peer_id h v = record {
  same = v.same;
  fits = v.fits;
  peer_fits = h;
  chatting = inr refl;
}

-- Outside a conversation there is no socket to a peer.
no_peer : {id : Bytes} {s : State} → IsInOrder id s → (s.mode ≡ chat → ⊥) → s.peer ≡ none
no_peer v h = elim v.chatting [ inl e ↦ e | inr e ↦ absurd (h e) ]

without_peer :
    {id : Bytes} {s : State} (listener : Option ℕ) (mode : Mode)
    → s.peer ≡ none
    → IsInOrder id s
    → IsInOrder id (record s { listener = listener; mode = mode })
without_peer listener mode e v = record {
  same = v.same;
  fits = v.fits;
  peer_fits = v.peer_fits;
  chatting = inl e;
}

on_signal-IsInOrder :
    (id : Bytes) (m : Mode) (s : State)
    → s.mode ≡ m
    → IsInOrder id s
    → IsInOrder id (on_signal m s).state
unfolding on_signal
on_signal-IsInOrder id info s e v = v
on_signal-IsInOrder id chat s e v = v
on_signal-IsInOrder id wait s e v = without_peer none info (no_peer v (λ c. cc)) v

begin_wait-IsInOrder :
    (id : Bytes) (l : Listening) (s : State) (text : Bytes)
    → s.peer ≡ none
    → IsInOrder id s
    → IsInOrder id (begin_wait l s text).state
unfolding begin_wait
begin_wait-IsInOrder id l s text e v = without_peer l.socket wait e v

on_info-IsInOrder :
    (id : Bytes) (l : Listening) (s : State) (text : Bytes)
    → s.peer ≡ none
    → IsInOrder id s
    → Keeps id (ok (on_info l info s text)) × Keeps id (ok (on_info l wait s text))
unfolding on_info
on_info-IsInOrder id l s text e v = (
  Keeps-if-After id (starts_with (codes "/wait") text) _ _ (begin_wait-IsInOrder id l s text e v)
      (Keeps-if-After id (starts_with (codes "/connect") text) _ _ v v),
  Keeps-if-After id (starts_with (codes "/wait") text) _ _ v
      (Keeps-if-After id (starts_with (codes "/connect") text) _ _ v v),
)

on_mode-IsInOrder :
    (id : Bytes) (l : Listening) (m : Mode) (s : State) (text : Bytes)
    → s.mode ≡ m
    → IsInOrder id s
    → IsInOrder id (on_mode l m s text).state
unfolding on_mode
on_mode-IsInOrder id l chat s text e v = v
on_mode-IsInOrder id l info s text e v = (on_info-IsInOrder id l s text (no_peer v (λ c. cc)) v).0
on_mode-IsInOrder id l wait s text e v = (on_info-IsInOrder id l s text (no_peer v (λ c. cc)) v).1

typed_line-IsInOrder :
    (id : Bytes) (l : Listening) (s : State) (text : Bytes)
    → IsInOrder id s
    → IsInOrder id (typed_line l s text).state
unfolding typed_line
typed_line-IsInOrder id l s [] v = v
typed_line-IsInOrder id l s (c ∷ text) v =
    Keeps-if-After id (starts_with (codes "/quit") (c ∷ text)) _ _ v
      (on_mode-IsInOrder id l s.mode s (c ∷ text) refl v)

peer_text-IsInOrder :
    (id : Bytes) (s : State) (message : Bytes) → IsInOrder id s → Keeps id (peer_text s message)
unfolding peer_text leave
peer_text-IsInOrder id s message v =
    Keeps-if id (starts_with (codes "LEAVE") (take buffer_size message)) _ _
      (alone s.listener info v)
      (Keeps-guard id (leb buffer_size (length (c_str (take buffer_size message)))) _ (λ h. v))

pub from_peer-IsInOrder :
    (id : Bytes) (s : State) (message : Bytes) → IsInOrder id s → Keeps id (from_peer s message)
unfolding from_peer leave
from_peer-IsInOrder id s [] v = alone s.listener info v
from_peer-IsInOrder id s (c ∷ message) v = peer_text-IsInOrder id s (c ∷ message) v

peer_named-IsInOrder :
    (id : Bytes) (s : State) (socket : ℕ) (peer_id : Bytes)
    → IsInOrder id s
    → Keeps id (peer_named s socket peer_id)
unfolding peer_named
peer_named-IsInOrder id s socket [] v = v
peer_named-IsInOrder id s socket (c ∷ peer_id) v =
    Keeps-guard id (leb id_size (length (c ∷ peer_id))) _
      (λ h. joined socket (c ∷ peer_id) (ground arith) v)

pub accepted-IsInOrder :
    (id : Bytes) (s : State) (socket : Option ℕ) (message : Bytes)
    → IsInOrder id s
    → Keeps id (accepted s socket message)
unfolding accepted
accepted-IsInOrder id s none message v = v
accepted-IsInOrder id s (some socket) message v =
    peer_named-IsInOrder id s socket (c_str (take id_size message)) v

handle_connect-IsInOrder :
    (id : Bytes) (s : State) (peer_id : Bytes) (socket : Option ℕ)
    → length peer_id < id_size
    → IsInOrder id s
    → IsInOrder id (handle_connect s peer_id socket).state
unfolding handle_connect
handle_connect-IsInOrder id s peer_id none h v = alone s.listener s.mode v
handle_connect-IsInOrder id s peer_id (some socket) h v = joined socket peer_id h v

connect_scanned-IsInOrder :
    (id : Bytes) (connects : Bytes → ℤ → Option ℕ) (s : State) (found : Option (Bytes × Bytes × ℤ))
    → IsInOrder id s
    → Keeps id (connect_scanned connects s found)
unfolding connect_scanned
connect_scanned-IsInOrder id connects s none v = tt
connect_scanned-IsInOrder id connects s (some (peer_id, ip, port)) v =
    Keeps-guard id (leb id_size (length peer_id) || leb address_size (length ip)) _
      (λ h. handle_connect-IsInOrder id s peer_id (connects ip port) (ground arith) v)

server_text-IsInOrder :
    (id : Bytes) (connects : Bytes → ℤ → Option ℕ) (s : State) (text : Bytes)
    → IsInOrder id s
    → Keeps id (server_text connects s text)
unfolding server_text
server_text-IsInOrder id connects s text v =
    Keeps-if id (starts_with (codes "CONNECT") text) _ _
      (connect_scanned-IsInOrder id connects s (scan_connect text) v)
      (Keeps-if id (bytes_eq text taken_text) _ _ v v)

pub from_server-IsInOrder :
    (id : Bytes) (connects : Bytes → ℤ → Option ℕ) (s : State) (message : Bytes)
    → IsInOrder id s
    → Keeps id (from_server connects s message)
unfolding from_server
from_server-IsInOrder id connects s [] v = v
from_server-IsInOrder id connects s (c ∷ message) v =
    Keeps-if id (leb buffer_size (length (c ∷ message))) _ _ tt
      (server_text-IsInOrder id connects s (c_str (c ∷ message)) v)

pub interrupt-IsInOrder :
    (id : Bytes) (s : State) → IsInOrder id s → IsInOrder id (interrupt s).state
unfolding interrupt
interrupt-IsInOrder id s v = on_signal-IsInOrder id s.mode s refl v

pub typed-IsInOrder :
    (id : Bytes) (l : Listening) (s : State) (input : Bytes)
    → IsInOrder id s
    → IsInOrder id (typed l s input).state
unfolding typed
typed-IsInOrder id l s input v = typed_line-IsInOrder id l s _ v
