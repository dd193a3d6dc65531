-- ===== src/Tests/Chat.antt =====
-- A list of clients.
use network_protocol_cli_too.Common.{
  ℕ, ◌≡◌, ◌≢◌, replicate, ok, fault, get_or, refl, ap, true, false, [], ◌∷◌, none, some, arith,
  length, pos,
}
use network_protocol_cli_too.CString.{codes, bytes_eq, starts_with}
use network_protocol_cli_too.Chat.ClientList.{
  ClientNode, ClientList, returned, lookup, insert_to_list, remove_from_list, size,
  free_client_list,
}
use network_protocol_cli_too.Chat.ClientList.Life.{Lives, fresh, inserted, Lives-IsValid}
use network_protocol_cli_too.Chat.ClientList.Laws.{
  IsValid, insert_to_list-remove_from_list, remove_from_list-lookup,
}
use network_protocol_cli_too.Chat.Server.{State, Input, goes_on, server_command}
use network_protocol_cli_too.Chat.Client as Client
use network_protocol_cli_too.Chat.Client.{
  sends, prints, get_client_list, connect_client, run_command,
}
use network_protocol_cli_too.Chat.Client.Listing.{listing, get_client_list-server_command}
use network_protocol_cli_too.Chat.ClientList.Send.{AllFit, packets}

abbrev ann : ClientNode
ann = record { id = codes "ann"; ip = codes "10.0.0.1"; port = pos 80 }

abbrev list : ClientList
list = record { nodes = ann ∷ []; num_clients = 1; locked = false }

unknown : lookup [] (codes "ann") ≡ none
unfolding lookup bytes_eq
unknown = refl

known : lookup (ann ∷ []) (codes "ann") ≡ some (codes "ann")
unfolding lookup bytes_eq
known = refl

list-IsValid : IsValid list
list-IsValid = record { count = refl; free = refl; distinct = (unknown, tt) }

bob_new : lookup (ann ∷ []) (codes "bob") ≡ none
unfolding lookup bytes_eq
bob_new = refl

insert_to_list-remove_from_list_example :
    (t : ClientList) × (insert_to_list (codes "bob") (codes "10.0.0.2") (pos 81) list
      ≡ returned (pos 1) t)
    × (t.nodes ≡ ann ∷ record { id = codes "bob"; ip = codes "10.0.0.2"; port = pos 81 } ∷ [])
    × (lookup t.nodes (codes "bob") ≡ some (codes "bob"))
    × (remove_from_list (codes "bob") t ≡ returned tt list)
insert_to_list-remove_from_list_example =
    insert_to_list-remove_from_list list list-IsValid (codes "bob") (codes "10.0.0.2") (pos 81)
      bob_new

different : codes "jo" ≢ codes "ann"
different e = absurd (omega (arith, ap length e))

remove_from_list-lookup_example :
    (t : ClientList) × (remove_from_list (codes "ann") list ≡ returned tt t)
    × (lookup t.nodes (codes "ann") ≡ none)
    × (lookup t.nodes (codes "jo") ≡ lookup (ann ∷ []) (codes "jo"))
remove_from_list-lookup_example =
    remove_from_list-lookup list (codes "ann") (codes "ann") (codes "jo") list-IsValid known
      different

a_nul : ◌≢◌ {A = ℕ} 97 0
a_nul = λ e. absurd (omega arith)

n_nul : ◌≢◌ {A = ℕ} 110 0
n_nul = λ e. absurd (omega arith)

fits : AllFit (ann ∷ [])
fits = (omega arith, (a_nul, (n_nul, (n_nul, tt))), tt)

abbrev free_list : State
free_list = record { list = list; freed = false }

abbrev input : Input
input = record { sends = []; sent = true; port = codes "81"; command = replicate 1024 0 }

abbrev idle : Client.State
idle = record { mode = Client.info; info_socket = 3; wait_socket = 0; chat_socket = 0 }

get_client_list-server_command_example :
    (server_command free_list
        (record { sends = true ∷ true ∷ []; sent = true; port = []; command = replicate 8 0 })
        (codes "dan")
        (codes "10.0.0.3")
        (codes "/list")
      ≡ goes_on free_list (packets (ann ∷ [])))
    × (get_client_list idle true (replicate 32 7) (packets (ann ∷ []))
        ≡ ok (pos 1, sends 3 (codes "/list") ∷ prints (listing 0 (ann ∷ [])) ∷ []))
get_client_list-server_command_example =
    get_client_list-server_command idle (replicate 32 7) free_list true [] (replicate 8 0)
      (0 ∷ 0 ∷ []) (codes "dan") (codes "10.0.0.3") refl refl refl fits
      (omega arith, (λ e. absurd (omega (arith, ap (λ l. get_or l 0 0) e))), tt) refl

abbrev all_sent : Client.Answers
all_sent = record {
  sent = true;
  buffer = [];
  packets = [];
  listening = record { socket = none; port = 0; sent = true; behind = [] };
}

-- Whatever the client is asked to connect to, it comes to use an address that is not set.
connect_undefined : run_command idle all_sent (codes "/connect ann") ≡ fault
unfolding run_command connect_client starts_with bytes_eq
connect_undefined = refl

lives : Lives (record { nodes = ann ∷ []; num_clients = 1; locked = false })
unfolding insert_to_list lookup
lives = inserted _ (codes "ann") (codes "10.0.0.1") (pos 80) fresh refl

Lives-IsValid_example :
    IsValid list × (size list ≡ length list.nodes) × (free_client_list (some list) ≡ ok none)
Lives-IsValid_example = Lives-IsValid lives
