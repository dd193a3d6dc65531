-- ===== src/Tests/Irc.antt =====
-- Two clients of the chat server.
mod Members
use network_protocol_cli_too.Common.{
  ◌≡◌, refl, true, false, [], ◌∷◌, ◌++◌, none, some, arith, take, replicate, pos, ok,
}
use network_protocol_cli_too.CString.{codes, c_str, bytes_eq, starts_with, IsWordChar-space}
use network_protocol_cli_too.CString.Signed.{atoi}
use network_protocol_cli_too.CString.Scan.{IsWord}
use network_protocol_cli_too.Irc.Server.{
  Client, Server, Reply, answer, ids, index_of, connect_reply, connect_command, round,
  received_line, buffer_size, id_size,
}
use network_protocol_cli_too.Irc.Server.Registry.{IsValid}
use network_protocol_cli_too.Irc.Server.Steps.{handled, done, more, Steps-IsValid}
use network_protocol_cli_too.Irc.Server.Waiting.{connect_line, connect_shifted}

abbrev nobody : Client
nobody = record { id = []; socket = 0; port = pos 0; in_chat = false }

abbrev ann : Client
ann = record { id = codes "ann"; socket = 4; port = pos 4000; in_chat = true }

abbrev empty : Server
empty = record { clients = replicate 100 nobody; client_count = 0; waiting = [] }

abbrev one : Server
one = record { clients = ann ∷ replicate 99 nobody; client_count = 1; waiting = [] }

abbrev two : Server
two = record {
  clients = ann ∷ replicate 99 nobody;
  client_count = 1;
  waiting = codes "ann" ∷ codes "bob" ∷ [];
}

empty-IsValid : IsValid empty
empty-IsValid = record {
  rows = refl;
  count = omega arith;
  room = omega arith;
  once = tt;
  distinct = λ i j a b hi hj gi gj e. absurd (omega arith);
}

list_empty :
    round empty (codes "ann") 4 (codes "/list\n") []
    ≡ ok (answer empty (codes "No clients are waiting.\n"))
unfolding round starts_with
list_empty = refl

Steps-IsValid_example : IsValid empty
Steps-IsValid_example =
    Steps-IsValid
      (more
        (handled (answer empty (codes "No clients are waiting.\n")) (codes "ann") 4
          (codes "/list\n") [] list_empty)
        done)
      empty-IsValid

ann-IsWord : IsWord (codes "ann")
ann-IsWord = (
  IsWordChar-space 97 (omega arith),
  (IsWordChar-space 110 (omega arith), (IsWordChar-space 110 (omega arith), tt)),
)

bob-IsWord : IsWord (codes "bob")
bob-IsWord = (
  IsWordChar-space 98 (omega arith),
  (IsWordChar-space 111 (omega arith), (IsWordChar-space 98 (omega arith), tt)),
)

not_waiting : index_of (codes "ann") [] ≡ none
unfolding index_of
not_waiting = refl

port_sent : atoi (c_str (take buffer_size (codes "4000"))) ≡ pos 4000
unfolding atoi c_str
port_sent = refl

connect_shifted_example :
    (r : Reply) × (connect_command two (connect_line (codes "ann")) ≡ ok r)
    × (r.sent ≡ connect_reply (codes "ann") (pos 4000))
    × (connect_command r.server (connect_line (codes "bob"))
        ≡ ok (answer (record two { waiting = [] }) (connect_reply (codes "bob") (pos 4000))))
connect_shifted_example =
    connect_shifted two b'a' b'b' (codes "nn") (codes "ob") ann ann-IsWord bob-IsWord (omega arith)
      (omega arith) refl refl

registered : index_of (codes "ann") (ids one) ≡ some 0
unfolding index_of bytes_eq
registered = refl

login : received_line id_size (codes "ann\n") ≡ ok (codes "ann")
unfolding received_line
login = refl
