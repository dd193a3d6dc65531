-- ===== src/Irc/Client/Connect.antt =====
-- The answer of irc/server.c to a `/connect`, read by `receive_server_messages` of irc/client.c.
use network_protocol_cli_too.Common.{
  ℕ, ◌<◌, ◌≤◌, ◌^◌, ◌-◌, ◌≡◌, refl, ap, ◌∙◌, false, [], ◌∷◌, ◌++◌, Option, some, arith, leb, length,
  length-append, take, take_all, ℤ, pos, ok, fault, append_assoc, if◌then◌else◌,
}
use network_protocol_cli_too.CString.{
  Bytes, codes, c_str, starts_with, strip_prefix_append, is_space, is_digit, HasNoNul,
  HasNoNul-append, c_str-HasNoNul,
}
use network_protocol_cli_too.CString.Decimal.{print_zu, length-print_zu, print_zu-HasNoNul}
use network_protocol_cli_too.CString.Scan.{
  IsWord, scan_word_append, scan_word_space, IsWord-HasNoNul,
}
use network_protocol_cli_too.CString.Signed.RoundTrip.{scan_d-print_zu, scan_d_space}
use network_protocol_cli_too.Irc.Server.{connect_reply, print_d, buffer_size, id_size}
use network_protocol_cli_too.Irc.Client.{
  chat, State, to_peer, stays, from_server, server_text, connect_scanned, scan_connect, scan_behind,
  scan_peer, scan_address, scan_port, handle_connect,
}

abbrev pub localhost : Bytes
localhost = codes "127.0.0.1"

abbrev ending : ℕ → Bytes
ending port = print_zu port ++ (10 ∷ [])

abbrev text_of : Bytes → ℕ → Bytes
text_of id port = codes "CONNECT " ++ (id ++ (codes " 127.0.0.1 " ++ ending port))

length-text_of : (id : Bytes) (port : ℕ) → length id < id_size → length (text_of id port) ≤ 1023
length-text_of id port h = omega (
  arith,
  h,
  length-append id (codes " 127.0.0.1 " ++ ending port),
  length-append (print_zu port) (10 ∷ []),
  length-print_zu port,
)

associated :
    (id : Bytes) (port : ℕ)
    → codes "CONNECT " ++ id ++ codes " 127.0.0.1 " ++ print_zu port ++ (10 ∷ []) ≡ text_of id port
associated id port = simp append_assoc

connect_reply-text :
    (id : Bytes) (port : ℕ) → length id < id_size → connect_reply id (pos port) ≡ text_of id port
unfolding connect_reply print_d
connect_reply-text id port h =
    ap (take (buffer_size - 1)) (associated id port)
    ∙ take_all (buffer_size - 1) (text_of id port) (omega (arith, length-text_of id port h))

text_of-HasNoNul : (id : Bytes) (port : ℕ) → IsWord id → HasNoNul (text_of id port)
text_of-HasNoNul id port w = HasNoNul-append (codes "CONNECT ") _ (ground arith) (
    HasNoNul-append id _ (IsWord-HasNoNul id w) (
      HasNoNul-append (codes " 127.0.0.1 ") _ (ground arith)
        (HasNoNul-append (print_zu port) _ (print_zu-HasNoNul port) (ground arith))))

localhost-IsWord : IsWord localhost
unfolding is_space
localhost-IsWord = ground arith

scan_address-localhost :
    (id : Bytes) (port : ℕ)
    → port < 2 ^ 31
    → scan_address id (some (localhost, 32 ∷ ending port)) ≡ some (id, localhost, pos port)
unfolding scan_address scan_port
scan_address-localhost id port h =
    ap (scan_port id localhost)
      (scan_d_space (ending port) ∙ scan_d-print_zu port (10 ∷ []) h (unfold is_digit in refl))

scan_peer_word :
    (c : ℕ) (id : Bytes) (port : ℕ)
    → IsWord (c ∷ id)
    → port < 2 ^ 31
    → scan_peer (some (c ∷ id, codes " 127.0.0.1 " ++ ending port))
      ≡ some (c ∷ id, localhost, pos port)
unfolding scan_peer
scan_peer_word c id port w h =
    ap (scan_address (c ∷ id)) (
      scan_word_space n 32 (localhost ++ (32 ∷ ending port)) (unfold is_space in refl)
      ∙ scan_word_append n 49 (codes "27.0.0.1") (32 ∷ ending port) localhost-IsWord
          (unfold is_space in refl) (omega arith))
    ∙ scan_address-localhost (c ∷ id) port h
  where
    n : ℕ
    n = length (codes " 127.0.0.1 " ++ ending port)

scan_connect_reply :
    (c : ℕ) (id : Bytes) (port : ℕ)
    → IsWord (c ∷ id)
    → port < 2 ^ 31
    → scan_connect (text_of (c ∷ id) port) ≡ some (c ∷ id, localhost, pos port)
unfolding scan_connect
scan_connect_reply c id port w h =
    ap scan_behind (strip_prefix_append (codes "CONNECT") (32 ∷ rest))
    ∙ unfold scan_behind in
      (ap scan_peer (
          scan_word_space n 32 rest (unfold is_space in refl)
          ∙ scan_word_append n c id _ w (unfold is_space in refl)
              (omega (arith, length-append (c ∷ id) (codes " 127.0.0.1 " ++ ending port))))
        ∙ scan_peer_word c id port w h)
  where
    rest : Bytes
    rest = (c ∷ id) ++ (codes " 127.0.0.1 " ++ ending port)

    n : ℕ
    n = length (32 ∷ rest)

connect_scanned_found :
    (connects : Bytes → ℤ → Option ℕ) (s : State) (id : Bytes) (port : ℤ) (socket : ℕ)
    → length id < id_size
    → connects localhost port ≡ some socket
    → connect_scanned connects s (some (id, localhost, port))
      ≡ ok (
          stays
            (record s { peer = some socket; peer_id = id; mode = chat })
            (to_peer socket s.id ∷ []))
unfolding connect_scanned handle_connect
connect_scanned_found connects s id port socket h e = rw (fits, e)
  where
    fits : leb id_size (length id) ≡ false
    fits = ground arith

from_server_text :
    (connects : Bytes → ℤ → Option ℕ) (s : State) (id : Bytes) (port : ℕ)
    → length id < id_size
    → IsWord id
    → from_server connects s (text_of id port)
      ≡ connect_scanned connects s (scan_connect (text_of id port))
unfolding from_server server_text starts_with
from_server_text connects s id port h w =
    ap (λ b. if b then fault else server_text connects s (c_str (text_of id port))) fits
    ∙ ap (server_text connects s) (c_str-HasNoNul (text_of id port) (text_of-HasNoNul id port w))
  where
    fits : leb buffer_size (length (text_of id port)) ≡ false
    fits = ground (arith, length-text_of id port h)

-- The answer that irc/server.c puts together for a usable ID and a port makes the client connect to
-- this port on its own host, send its ID there and converse with this peer.
pub from_server-connect_reply :
    (connects : Bytes → ℤ → Option ℕ) (s : State) (c : ℕ) (id : Bytes) (port socket : ℕ)
    → IsWord (c ∷ id)
    → length (c ∷ id) < id_size
    → port < 2 ^ 31
    → connects localhost (pos port) ≡ some socket
    → from_server connects s (connect_reply (c ∷ id) (pos port))
      ≡ ok (
          stays
            (record s { peer = some socket; peer_id = c ∷ id; mode = chat })
            (to_peer socket s.id ∷ []))
from_server-connect_reply connects s c id port socket w h p e =
    ap (from_server connects s) (connect_reply-text (c ∷ id) port h)
    ∙ from_server_text connects s (c ∷ id) port h w
    ∙ ap (connect_scanned connects s) (scan_connect_reply c id port w p)
    ∙ connect_scanned_found connects s (c ∷ id) (pos port) socket h e
