-- ===== src/Tests/IrcClient.antt =====
-- Clients of the chat server: one waits, one connects, they talk.
use network_protocol_cli_too.Common.{
  ℕ, ◌≡◌, refl, true, false, [], ◌∷◌, ◌++◌, Option, none, some, arith, ℤ, pos, ok, replicate,
}
use network_protocol_cli_too.CString.{Bytes, codes, c_str, starts_with, IsWordChar-space}
use network_protocol_cli_too.CString.Decimal.{print_zu}
use network_protocol_cli_too.CString.Scan.{IsWord}
use network_protocol_cli_too.Irc.Server.{
  Client, Server, Reply, answer, index_of, connect_reply, round,
}
use network_protocol_cli_too.Irc.Server.Registry.{IsValid}
use network_protocol_cli_too.Irc.Server.Waiting.{connect_line}
use network_protocol_cli_too.Irc.Client.{
  chat, info, wait, State, to_peer, to_server, stays, start, interrupt, from_server, accepted,
  Listening, typed,
}
use network_protocol_cli_too.Irc.Client.Modes.{
  connection, react, started, reacted, Reachable-IsInOrder,
}
use network_protocol_cli_too.Irc.Client.Modes.Keep.{IsInOrder}
use network_protocol_cli_too.Irc.Client.Conversation.{
  conversation, speak, IsSpoken, speak-conversation,
}
use network_protocol_cli_too.Irc.Meeting.{meet}

abbrev ann_info : State
ann_info = record { id = codes "ann"; listener = none; peer_id = []; peer = none; mode = info }

abbrev bob_info : State
bob_info = record { id = codes "bob"; listener = none; peer_id = []; peer = none; mode = info }

abbrev ann_chat : State
ann_chat = record {
  id = codes "ann";
  listener = none;
  peer_id = codes "bob";
  peer = some 5;
  mode = chat;
}

abbrev bob_chat : State
bob_chat = record {
  id = codes "bob";
  listener = none;
  peer_id = codes "ann";
  peer = some 7;
  mode = chat;
}

ann_started : start (codes "ann") ≡ ok (stays ann_info (to_server (codes "ann") ∷ []))
unfolding start
ann_started = refl

bob_comes : react (connection (some 5) (codes "bob")) ann_info ≡ ok (stays ann_chat [])
unfolding react accepted c_str
bob_comes = refl

Reachable-IsInOrder_example : IsInOrder (codes "ann") ann_chat
Reachable-IsInOrder_example = Reachable-IsInOrder (
    reacted (connection (some 5) (codes "bob")) (stays ann_chat [])
      (started (stays ann_info (to_server (codes "ann") ∷ [])) ann_started) bob_comes refl)

abbrev listening : Listening
listening = record { socket = some 3; listens = true; port = 4000 }

abbrev hello : Bytes
hello = codes "hi"

hello-IsSpoken : IsSpoken hello
hello-IsSpoken = record {
  plain = ground arith;
  short = omega arith;
  some_text = λ e. cc;
  no_quit = unfold starts_with in refl;
  no_leave = unfold starts_with in refl;
}

speak-conversation_example :
    (speak listening ann_chat (hello ∷ []) ≡ (ann_chat, to_peer 5 hello ∷ []))
    × (interrupt ann_chat ≡ stays ann_chat (to_peer 5 (codes "LEAVE") ∷ []))
    × (conversation bob_chat (hello ∷ codes "LEAVE" ∷ hello ∷ [])
        ≡ ok (record bob_chat { peer = none; mode = info }))
    × (conversation ann_chat ([] ∷ hello ∷ []) ≡ ok (record ann_chat { peer = none; mode = info }))
speak-conversation_example =
    speak-conversation listening ann_chat bob_chat 5 7 (hello ∷ []) (hello ∷ []) refl refl refl
      (hello-IsSpoken, tt)

abbrev nobody : Client
nobody = record { id = []; socket = 0; port = pos 0; in_chat = false }

abbrev idle : Server
idle = record { clients = replicate 100 nobody; client_count = 0; waiting = [] }

idle-IsValid : IsValid idle
idle-IsValid = record {
  rows = refl;
  count = omega arith;
  room = omega arith;
  once = tt;
  distinct = λ i j a b hi hj gi gj e. absurd (omega arith);
}

abbrev reached : Bytes → ℤ → Option ℕ
reached ip port = some 7

ann-IsWord : IsWord (codes "ann")
ann-IsWord = (
  IsWordChar-space 97 (omega arith),
  (IsWordChar-space 110 (omega arith), (IsWordChar-space 110 (omega arith), tt)),
)

unknown : index_of (codes "ann") [] ≡ none
unfolding index_of
unknown = refl

meet_example :
    (typed listening ann_info (codes "/wait\n")
      ≡ stays
          (record ann_info { listener = some 3; mode = wait })
          (to_server (codes "/wait") ∷ to_server (print_zu 4000) ∷ []))
    × (typed listening bob_info (connect_line (codes "ann") ++ (10 ∷ []))
        ≡ stays bob_info (to_server (connect_line (codes "ann")) ∷ []))
    × ((r : Reply) × (round idle (codes "ann") 3 (codes "/wait") (print_zu 4000) ≡ ok r)
        × ((t : Server) × (round r.server (codes "bob") 4 (connect_line (codes "ann")) []
              ≡ ok (answer t (connect_reply (codes "ann") (pos 4000))))
            × (t.waiting ≡ [])))
    × (from_server reached bob_info (connect_reply (codes "ann") (pos 4000))
        ≡ ok (stays bob_chat (to_peer 7 (codes "bob") ∷ [])))
    × (accepted (record ann_info { listener = some 3; mode = wait }) (some 5) (codes "bob")
        ≡ ok (stays (record ann_chat { listener = some 3 }) []))
meet_example =
    meet idle b'a' (codes "nn") 3999 idle-IsValid ann-IsWord (omega arith) unknown (omega arith)
      listening refl refl (omega arith) ann_info refl bob_info refl (λ e. cc) (ground arith)
      (omega arith) reached 7 5 3 4 refl
