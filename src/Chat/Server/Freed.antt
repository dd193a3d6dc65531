-- ===== src/Chat/Server/Freed.antt =====
-- What follows a `/wait`: the list holds an ID that has been freed.
use network_protocol_cli_too.Common.{
  ℕ, suc, ◌≡◌, ◌⊎◌, refl, ap, ◌∙◌, arith, if◌then◌else◌, ltb, length, drop, true, false, [], ◌∷◌,
}
use network_protocol_cli_too.CString.{Bytes, codes, bytes_eq, c_str}
use network_protocol_cli_too.CString.Search.{strtok}
use network_protocol_cli_too.CString.Signed.{atoi}
use network_protocol_cli_too.Chat.ClientList.{ClientNode, link}
use network_protocol_cli_too.Chat.Server.{
  State, Input, goes_on, is_undefined, list_command, on_token, server_command, Step,
}

abbrev new_node : Input → Bytes → Bytes → ClientNode
new_node input id ip = record { id = id; ip = ip; port = atoi input.port }

-- The state behind a `/wait` that is entered.
abbrev pub behind_wait : State → Input → Bytes → Bytes → State
behind_wait s input id ip = record {
  list = record {
    nodes = link (new_node input id ip) s.list.nodes;
    num_clients = suc s.list.num_clients;
    locked = false;
  };
  freed = true;
}

-- What `recv` makes of a command of five bytes: the string that it is, if a NUL stands behind it.
five_bytes :
    (s : State) (input : Input) (id ip rest : Bytes) (a b c d e : ℕ)
    → c_str (a ∷ b ∷ c ∷ d ∷ e ∷ 0 ∷ rest) ≡ a ∷ b ∷ c ∷ d ∷ e ∷ []
    → drop 5 input.command ≡ 0 ∷ rest
    → server_command s input id ip (a ∷ b ∷ c ∷ d ∷ e ∷ [])
      ≡ on_token s input id ip (strtok (codes " ") (a ∷ b ∷ c ∷ d ∷ e ∷ []))
unfolding server_command
five_bytes s input id ip rest a b c d e string n =
    ap (λ t. taken (a ∷ b ∷ c ∷ d ∷ e ∷ t)) n
    ∙ ap
        (λ t.
          if ltb (length t) (length (a ∷ b ∷ c ∷ d ∷ e ∷ 0 ∷ rest))
          then on_token s input id ip (strtok (codes " ") t)
          else is_undefined)
        string
    ∙ ap
        (λ t.
          if t
          then on_token s input id ip (strtok (codes " ") (a ∷ b ∷ c ∷ d ∷ e ∷ []))
          else is_undefined)
        behind
  where
    taken : Bytes → Step
    taken array =
        if ltb (length (c_str array)) (length array)
        then on_token s input id ip (strtok (codes " ") (c_str array))
        else is_undefined

    behind : ltb 5 (length (a ∷ b ∷ c ∷ d ∷ e ∷ 0 ∷ rest)) ≡ true
    behind = ground arith

-- The five bytes of `/list` are a command where a NUL stands behind them in the array.
pub command_list :
    (s : State) (input : Input) (id ip rest : Bytes)
    → drop 5 input.command ≡ 0 ∷ rest
    → server_command s input id ip (codes "/list") ≡ list_command s input
command_list s input id ip rest n =
    five_bytes s input id ip rest 47 108 105 115 116 (unfold c_str in refl) n
    ∙ (unfold on_token strtok bytes_eq in refl)

-- A step that is undefined, or does nothing.
abbrev pub IsIdle : State → Step → Type 0
IsIdle s r = (r ≡ is_undefined) ⊎ (r ≡ goes_on s [])
