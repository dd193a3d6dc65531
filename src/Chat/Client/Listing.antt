-- ===== src/Chat/Client/Listing.antt =====
-- `getClientList` of the client reads what `sendClientList` of the server sends.
use network_protocol_cli_too.Common.{
  ℕ, suc, ◌-◌, ◌<◌, ◌≡◌, ◌≢◌, refl, ap, ◌∙◌, Bool, true, false, List, [], ◌∷◌, ◌++◌, arith, ltb,
  ◌==◌, if◌then◌else◌, length, drop, length-append, length-replicate, take, take_all, drop_all,
  replicate, append-nil, into, pos, ok,
}
use network_protocol_cli_too.CString.{Bytes, codes, c_str, HasNoNul}
use network_protocol_cli_too.Chat.ClientList.{ClientNode, max_id_length, padded, send_client_list}
use network_protocol_cli_too.Chat.ClientList.Send.{
  AllFit, all_work, packets, c_str-padded, send_client_list-packets,
}
use network_protocol_cli_too.Chat.Server.{
  Input, goes_on, is_undefined, replied, list_command, server_command,
}
use network_protocol_cli_too.Chat.Server.Freed.{command_list}
use network_protocol_cli_too.Chat.Server as Server
use network_protocol_cli_too.Chat.Client.{
  State, sends, prints, entry, next_entry, list_entries, listed_entries, get_client_list,
}

-- IDs that are not empty and do not start with the byte that ends the list.
abbrev pub AllShown : List ClientNode → Type 0
AllShown [] = Unit {0}
AllShown (n ∷ ns) = (0 < length n.id) × (take 1 n.id ≢ 10 ∷ []) × AllShown ns

-- The text that is printed: the IDs with their numbers, one to a line.
abbrev pub listing : ℕ → List ClientNode → Bytes
listing i [] = []
listing i (n ∷ ns) = entry i n.id ++ listing (suc i) ns

length-padded : (id : Bytes) → length id < max_id_length → length (padded max_id_length id) ≡ 32
length-padded id h =
    length-append id (replicate (max_id_length - length id) 0)
    ∙ omega (arith, h, length-replicate {A = ℕ} (max_id_length - length id) 0)

-- What the buffer holds of a packet, as a string.
packet_text :
    (buffer id : Bytes)
    → length buffer ≡ 32
    → length id < max_id_length
    → HasNoNul id
    → c_str (into buffer (take max_id_length (padded max_id_length id))) ≡ id
packet_text buffer id b h k =
    ap (λ t. c_str (into buffer t))
      (take_all max_id_length (padded max_id_length id) (omega (arith, length-padded id h)))
    ∙ ap (λ t. c_str (padded max_id_length id ++ t))
        (drop_all (length (padded max_id_length id)) buffer (omega (arith, length-padded id h, b)))
    ∙ ap c_str (append-nil (padded max_id_length id))
    ∙ c_str-padded (max_id_length - length id) id k

list_entries_byte :
    (i c : ℕ) (buffer p : Bytes) (later : List Bytes)
    → c ≢ 10
    → list_entries i buffer ((c ∷ p) ∷ later)
      ≡ next_entry i
          (c_str (into buffer (take max_id_length (c ∷ p))))
          (list_entries (suc i) (replicate 32 0) later)
unfolding list_entries
list_entries_byte i c buffer p later n = rw other
  where
    other : (c == 10) ≡ false
    other = ground arith

next_entry_ok :
    (i : ℕ) (id rest : Bytes)
    → length id < max_id_length
    → next_entry i id (ok rest) ≡ ok (entry i id ++ rest)
unfolding next_entry
next_entry_ok i id rest h = rw fits
  where
    fits : ltb (length id) max_id_length ≡ true
    fits = ground arith

-- One packet of the list.
list_entries_packet :
    (i : ℕ) (buffer id : Bytes) (later : List Bytes)
    → length buffer ≡ 32
    → length id < max_id_length
    → HasNoNul id
    → 0 < length id
    → take 1 id ≢ 10 ∷ []
    → list_entries i buffer (padded max_id_length id ∷ later)
      ≡ next_entry i id (list_entries (suc i) (replicate 32 0) later)
list_entries_packet i buffer [] later b h k p n = absurd (omega arith)
list_entries_packet i buffer (c ∷ id) later b h k p n =
    list_entries_byte i c buffer (id ++ replicate (max_id_length - length (c ∷ id)) 0) later
      (λ e. n (ap (λ d. d ∷ []) e))
    ∙ ap (λ t. next_entry i t (list_entries (suc i) (replicate 32 0) later))
        (packet_text buffer (c ∷ id) b h k)

list_entries-packets :
    (i : ℕ) (buffer : Bytes) (ns : List ClientNode)
    → length buffer ≡ 32
    → AllFit ns
    → AllShown ns
    → list_entries i buffer (packets ns) ≡ ok (listing i ns)
list_entries-packets i buffer [] b f s = unfold list_entries in refl
list_entries-packets i buffer (n ∷ ns) b f s =
    list_entries_packet i buffer n.id (packets ns) b f.0 f.1 s.0 s.1
    ∙ ap (next_entry i n.id)
        (list_entries-packets (suc i) (replicate 32 0) ns (length-replicate {A = ℕ} 32 0) f.2 s.2)
    ∙ next_entry_ok i n.id (listing (suc i) ns) f.0

get_client_list-entries :
    (s : State) (buffer : Bytes) (ps : List Bytes) (text : Bytes)
    → list_entries 0 buffer ps ≡ ok text
    → get_client_list s true buffer ps
      ≡ ok (pos 1, sends s.info_socket (codes "/list") ∷ prints text ∷ [])
unfolding get_client_list listed_entries
get_client_list-entries s buffer ps text e = rw e

list_served :
    (s : Server.State) (input : Input)
    → s.freed ≡ false
    → s.list.locked ≡ false
    → AllFit s.list.nodes
    → input.sends ≡ all_work (length s.list.nodes)
    → list_command s input ≡ goes_on s (packets s.list.nodes)
unfolding list_command replied
list_served s input f l fit e =
    ap (λ b. if b then is_undefined else replied s.freed (send_client_list input.sends s.list)) f
    ∙ ap (λ w. replied s.freed (send_client_list w s.list)) e
    ∙ ap (replied s.freed) (send_client_list-packets s.list l fit)

-- With the mutex free and no ID freed, if the server's array, which gets the five bytes of `/list`
-- without a NUL, holds a NUL behind them, each `send` works, and all IDs of the list fit their
-- messages, hold no NUL, are not empty and do not start with a newline: the server answers the
-- `/list` that `getClientList` sends by packets that make the client print all IDs in their order,
-- numbered from 0, whatever its buffer of 32 bytes held; the list is as before.
pub get_client_list-server_command :
    (client : State) (buffer : Bytes) (s : Server.State) (sent : Bool)
    (port command rest id ip : Bytes)
    → length buffer ≡ 32
    → s.freed ≡ false
    → s.list.locked ≡ false
    → AllFit s.list.nodes
    → AllShown s.list.nodes
    → drop 5 command ≡ 0 ∷ rest
    → (server_command s
          (record {
            sends = all_work (length s.list.nodes);
            sent = sent;
            port = port;
            command = command;
          })
          id
          ip
          (codes "/list")
        ≡ goes_on s (packets s.list.nodes))
      × (get_client_list client true buffer (packets s.list.nodes)
          ≡ ok (
            pos 1,
            sends client.info_socket (codes "/list") ∷ prints (listing 0 s.list.nodes) ∷ [],
          ))
get_client_list-server_command client buffer s sent port command rest id ip b f l fit shown n = (
  command_list s input id ip rest n ∙ list_served s input f l fit refl,
  get_client_list-entries client buffer (packets s.list.nodes) (listing 0 s.list.nodes)
      (list_entries-packets 0 buffer s.list.nodes b fit shown),
)
  where
    input : Input
    input = record {
      sends = all_work (length s.list.nodes);
      sent = sent;
      port = port;
      command = command;
    }
