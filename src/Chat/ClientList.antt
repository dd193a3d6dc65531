-- ===== src/Chat/ClientList.antt =====
-- archive/chat/src/clientlist.c: the operations of the list of clients, with the mutex that they share
-- and the calls that end the process.
pub mod Laws
pub mod Send
pub mod Life
use network_protocol_cli_too.Common.{
  ℕ, zero, suc, ◌-◌, Bool, true, false, List, [], ◌∷◌, ◌++◌, Option, none, some, ltb, ◌==◌,
  if◌then◌else◌, length, replicate, ℤ, pos, negsuc, Outcome, ok, exit_failure, fault,
}
use network_protocol_cli_too.CString.{Bytes, codes, bytes_eq}

-- `ClientNode`, without the link to the next one
pub record ClientNode : Type 0 where
  pub id : Bytes
  pub ip : Bytes
  pub port : ℤ

-- `ClientList`: the nodes from `top` on, the counter, and whether `mutex` is held.
pub record ClientList : Type 0 where
  pub nodes : List ClientNode
  pub num_clients : ℕ
  pub locked : Bool

-- How a call ends: with a value, in `exit`, waiting for a mutex that no one will unlock, or in
-- undefined behaviour.
pub data Result (A : Type 0) : Type 0 where
  returned : A → ClientList → Result A
  exited : Result A
  blocked : Result A
  undefined : Result A

-- `newClientList`
abbrev pub new_client_list : ClientList
new_client_list = record { nodes = []; num_clients = 0; locked = false }

unfoldable pub is_empty : ClientList → Bool
is_empty l = l.num_clients == 0

-- `pthread_mutex_lock` in front of the rest of a call
unfoldable pub locking : {A : Type 0} → (ClientList → Result A) → ClientList → Result A
locking f l = if l.locked then blocked else f (record l { locked = true })

-- The loop of `makeEmpty`: it follows `top` once for each client that is counted.
drop_nodes : ℕ → List ClientNode → Option (List ClientNode)
drop_nodes zero ns = some ns
drop_nodes (suc k) [] = none
drop_nodes (suc k) (n ∷ ns) = drop_nodes k ns

emptied : ClientList → Option (List ClientNode) → Result (Unit {0})
emptied l none = undefined
emptied l (some ns) = returned tt (record l { nodes = ns; num_clients = 0 })

unfoldable pub make_empty : ClientList → Result (Unit {0})
unfolding is_empty emptied drop_nodes
make_empty l = if is_empty l then exited else emptied l (drop_nodes l.num_clients l.nodes)

-- `freeClientList`: nothing is done with a null pointer, and the pointer is null behind it.
freed : Result (Unit {0}) → Outcome (Option ClientList)
freed (returned u l) = ok none
freed exited = exit_failure
freed blocked = fault
freed undefined = fault

unfoldable pub free_client_list : Option ClientList → Outcome (Option ClientList)
unfolding freed make_empty is_empty
free_client_list none = ok none
free_client_list (some l) = if is_empty l then ok none else freed (make_empty l)

-- `size`
unfoldable pub size : ClientList → ℕ
size l = l.num_clients

-- `newNode`
unfoldable pub new_node : Bytes → Bytes → ℤ → ClientNode
new_node id ip port = record { id = id; ip = ip; port = port }

-- `lookup`: the ID that the list holds, or NULL.
unfoldable pub lookup : List ClientNode → Bytes → Option Bytes
lookup [] id = none
lookup (n ∷ ns) id = let later = lookup ns id in if bytes_eq id n.id then some n.id else later

-- The walk to the last node, behind which the new one is linked.
unfoldable pub insert_last : ClientNode → ClientNode → List ClientNode → List ClientNode
insert_last new n [] = n ∷ new ∷ []
insert_last new n (m ∷ ns) = n ∷ insert_last new m ns

unfoldable pub link : ClientNode → List ClientNode → List ClientNode
unfolding insert_last
link new [] = new ∷ []
link new (n ∷ ns) = insert_last new n ns

-- Behind the lookup, with the mutex held: an ID that is there ends the call without an unlock.
unfoldable pub insert_found : ClientNode → Option Bytes → ClientList → Result ℤ
unfolding link
insert_found new (some id) l = returned (negsuc 0) l
insert_found new none l =
    returned (pos 1)
      (record { nodes = link new l.nodes; num_clients = suc l.num_clients; locked = false })

-- `insertToList`
unfoldable pub insert_to_list : Bytes → Bytes → ℤ → ClientList → Result ℤ
unfolding locking insert_found lookup new_node
insert_to_list id ip port = locking (λ l. insert_found (new_node id ip port) (lookup l.nodes id) l)

-- The loop of `removeFromList`, from a node that stays.
remove_next : Bytes → ClientNode → List ClientNode → List ClientNode
remove_next id n [] = n ∷ []
remove_next id n (m ∷ ns) =
    let later = remove_next id m ns in if bytes_eq m.id id then n ∷ ns else n ∷ later

pub unlink : Bytes → List ClientNode → List ClientNode
unfolding remove_next
unlink id [] = []
unlink id (n ∷ ns) = if bytes_eq n.id id then ns else remove_next id n ns

remove_found : Bytes → Option Bytes → ClientList → Result (Unit {0})
unfolding unlink
remove_found id none l = exited
remove_found id (some found) l =
    returned tt
      (record { nodes = unlink id l.nodes; num_clients = l.num_clients - 1; locked = false })

-- `removeFromList`
unfoldable pub remove_from_list : Bytes → ClientList → Result (Unit {0})
unfolding locking remove_found lookup
remove_from_list id = locking (λ l. remove_found id (lookup l.nodes id) l)

abbrev pub max_id_length : ℕ
max_id_length = 32

abbrev pub max_msg_length : ℕ
max_msg_length = 1024

-- A string in a zeroed buffer of `n` bytes
abbrev pub padded : ℕ → Bytes → Bytes
padded n s = s ++ replicate (n - length s) 0

-- What a run of `send` calls puts on the socket, and whether all of them worked; none if an ID is
-- copied over the end of the buffer. The environment says which calls work.
send_ids : List ClientNode → List Bool → Option (List Bytes × Bool)
send_ids [] [] = some ([], false)
send_ids [] (works ∷ sends) = if works then some ((10 ∷ []) ∷ [], true) else some ([], false)
send_ids (n ∷ ns) [] = if ltb (length n.id) max_id_length then some ([], false) else none
send_ids (n ∷ ns) (works ∷ sends) =
    let later = send_ids ns sends in
    if ltb (length n.id) max_id_length
    then if works
      then elim later [ none ↦ none | some r ↦ some (padded max_id_length n.id ∷ r.0, r.1) ]
      else some ([], false)
    else none

listed : ClientList → Option (List Bytes × Bool) → Result (ℤ × List Bytes)
listed l none = undefined
listed l (some (packets, all)) =
    returned (if all then pos 1 else negsuc 0, packets) (record l { locked = false })

-- `sendClientList`: the value that it returns and what it sends.
unfoldable pub send_client_list : List Bool → ClientList → Result (ℤ × List Bytes)
unfolding locking listed send_ids
send_client_list sends = locking (λ l. listed l (send_ids l.nodes sends))

unfoldable pub info_found : Bool → Option Bytes → ClientList → Result (ℤ × List Bytes)
info_found sent (some id) l = undefined
info_found sent none l =
    returned (negsuc 0, if sent then padded max_msg_length (codes "DNE") ∷ [] else [])
      (record l { locked = false })

-- `sendClientInfo`. For a client that is found, `sprintf` is given the port for a `%s`.
unfoldable pub send_client_info : Bool → Bytes → ClientList → Result (ℤ × List Bytes)
unfolding locking info_found lookup
send_client_info sent id = locking (λ l. info_found sent (lookup l.nodes id) l)
