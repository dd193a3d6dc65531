-- ===== src/Chat/ClientList/Laws.antt =====
-- What the operations make of the list, as a map from IDs.
use network_protocol_cli_too.Common.{
  suc, ◌-◌, ◌≡◌, ◌≢◌, refl, sym, ap, ap₂, ◌∙◌, Bool, true, false, List, [], ◌∷◌, ◌++◌, none, some,
  arith, inl, inr, if◌then◌else◌, length, ℤ, pos, negsuc, Bool-cases,
}
use network_protocol_cli_too.CString.{Bytes, bytes_eq, bytes_eq_iff}
use network_protocol_cli_too.Chat.ClientList.{
  ClientNode, ClientList, returned, blocked, locking, new_node, lookup, insert_last, link,
  insert_found, insert_to_list, remove_next, unlink, remove_found, remove_from_list,
  send_client_list, send_client_info,
}

pub bytes_eq_comm : (s t : Bytes) → bytes_eq s t ≡ bytes_eq t s
unfolding bytes_eq
bytes_eq_comm [] [] = refl
bytes_eq_comm [] (d ∷ t) = refl
bytes_eq_comm (c ∷ s) [] = refl
bytes_eq_comm (c ∷ s) (d ∷ t) = ground (arith, bytes_eq_comm s t)

bytes_eq_self : (s : Bytes) → bytes_eq s s ≡ true
bytes_eq_self s = (bytes_eq_iff s s).1 refl

bytes_eq_ne : (s t : Bytes) → s ≢ t → bytes_eq s t ≡ false
bytes_eq_ne s t n = elim (Bool-cases (bytes_eq s t)) [
  | inl e ↦ absurd (n ((bytes_eq_iff s t).0 e))
  | inr e ↦ e
]

pub lookup-none :
    (n : ClientNode) (ns : List ClientNode) (id : Bytes)
    → lookup (n ∷ ns) id ≡ none
    → (bytes_eq id n.id ≡ false) × (lookup ns id ≡ none)
unfolding lookup
lookup-none n ns id h = ground arith

insert_last-append :
    (new n : ClientNode) (ns : List ClientNode) → insert_last new n ns ≡ (n ∷ ns) ++ (new ∷ [])
unfolding insert_last
insert_last-append new n [] = refl
insert_last-append new n (m ∷ ns) = ap (◌∷◌ n) (insert_last-append new m ns)

pub link-append : (new : ClientNode) (ns : List ClientNode) → link new ns ≡ ns ++ (new ∷ [])
unfolding link
link-append new [] = refl
link-append new (n ∷ ns) = insert_last-append new n ns

-- The nodes without the first one that has the ID.
abbrev pub without : Bytes → List ClientNode → List ClientNode
without id [] = []
without id (n ∷ ns) = if bytes_eq n.id id then ns else n ∷ without id ns

remove_next-without :
    (id : Bytes) (n : ClientNode) (ns : List ClientNode) → remove_next id n ns ≡ n ∷ without id ns
unfolding remove_next
remove_next-without id n [] = refl
remove_next-without id n (m ∷ ns) = elim (Bool-cases (bytes_eq m.id id)) [
  | inl e ↦ rw e
  | inr e ↦ rw (e, remove_next-without id m ns)
]

pub unlink-without : (id : Bytes) (ns : List ClientNode) → unlink id ns ≡ without id ns
unfolding unlink
unlink-without id [] = refl
unlink-without id (n ∷ ns) =
    ap (λ r. if bytes_eq n.id id then ns else r) (remove_next-without id n ns)

without-append :
    (new : ClientNode) (ns : List ClientNode)
    → lookup ns new.id ≡ none
    → without new.id (ns ++ (new ∷ [])) ≡ ns
without-append new [] h = rw (bytes_eq_self new.id)
without-append new (n ∷ ns) h =
    let (other, later) = lookup-none n ns new.id h in
    rw (bytes_eq_comm n.id new.id, other, without-append new ns later)

lookup-append :
    (new : ClientNode) (ns : List ClientNode)
    → lookup ns new.id ≡ none
    → lookup (ns ++ (new ∷ [])) new.id ≡ some new.id
unfolding lookup
lookup-append new [] h = rw (bytes_eq_self new.id)
lookup-append new (n ∷ ns) h =
    let (other, later) = lookup-none n ns new.id h in rw (other, lookup-append new ns later)

-- The counter is the number of nodes, the mutex is free, and no two nodes have the same ID.
abbrev pub IsDistinct : List ClientNode → Type 0
IsDistinct [] = Unit {0}
IsDistinct (n ∷ ns) = (lookup ns n.id ≡ none) × IsDistinct ns

pub record IsValid (l : ClientList) : Type 0 where
  pub count : l.num_clients ≡ length l.nodes
  pub free : l.locked ≡ false
  pub distinct : IsDistinct l.nodes

pub insert_new :
    (l : ClientList) (id ip : Bytes) (port : ℤ)
    → l.locked ≡ false
    → lookup l.nodes id ≡ none
    → insert_to_list id ip port l
      ≡ returned (pos 1) (record {
        nodes = link (record { id = id; ip = ip; port = port }) l.nodes;
        num_clients = suc l.num_clients;
        locked = false;
      })
unfolding insert_to_list locking insert_found new_node
insert_new l id ip port free h = rw (free, h)

pub remove_known :
    (l : ClientList) (id found : Bytes)
    → l.locked ≡ false
    → lookup l.nodes id ≡ some found
    → remove_from_list id l
      ≡ returned tt
          (record { nodes = unlink id l.nodes; num_clients = l.num_clients - 1; locked = false })
unfolding remove_from_list locking remove_found
remove_known l id found free h = rw (free, h)

module _ (l : ClientList) (valid : IsValid l) (id ip : Bytes) (port : ℤ) where
  -- In a list in order, a new ID is entered behind the others: it is then found, and its removal
  -- gives the list back.
  pub insert_to_list-remove_from_list :
      lookup l.nodes id ≡ none
      → (t : ClientList) × (insert_to_list id ip port l ≡ returned (pos 1) t)
        × (t.nodes ≡ l.nodes ++ (record { id = id; ip = ip; port = port } ∷ []))
        × (lookup t.nodes id ≡ some id)
        × (remove_from_list id t ≡ returned tt l)
  insert_to_list-remove_from_list h =
      let at_end = link-append new l.nodes in
      let found = ap (λ ns. lookup ns id) at_end ∙ lookup-append new l.nodes h in
      let gone =
        unlink-without id (link new l.nodes)
        ∙ ap (without id) at_end
        ∙ without-append new l.nodes h in
      (
        _,
        insert_new l id ip port valid.free h,
        at_end,
        found,
        remove_known _ id id refl found
            ∙ ap₂ (λ ns k. returned tt (record { nodes = ns; num_clients = k; locked = false }))
                gone (omega arith)
            ∙ ap (λ b. returned tt (record l { locked = b })) (sym valid.free),
      )
    where
      new : ClientNode
      new = record { id = id; ip = ip; port = port }

-- With the mutex free, an ID that is in the list already is refused, and the mutex stays held:
-- every further call that takes it waits for ever.
pub insert_collision :
    (l : ClientList) (id ip found : Bytes) (port : ℤ) (other other_ip : Bytes) (other_port : ℤ)
    (sends : List Bool) (sent : Bool)
    → l.locked ≡ false
    → lookup l.nodes id ≡ some found
    → (t : ClientList) × (insert_to_list id ip port l ≡ returned (negsuc 0) t)
      × (t.nodes ≡ l.nodes)
      × (insert_to_list other other_ip other_port t ≡ blocked)
      × (remove_from_list other t ≡ blocked)
      × (send_client_list sends t ≡ blocked)
      × (send_client_info sent other t ≡ blocked)
insert_collision l id ip found port other other_ip other_port sends sent free h =
    unfold insert_to_list remove_from_list send_client_list send_client_info locking insert_found in
    (record l { locked = true }, rw (free, h), refl, refl, refl, refl, refl)

lookup_skip :
    (n : ClientNode) (ns : List ClientNode) (id : Bytes)
    → bytes_eq id n.id ≡ false
    → lookup (n ∷ ns) id ≡ lookup ns id
unfolding lookup
lookup_skip n ns id e = rw e

lookup-without_other :
    (id other : Bytes) (ns : List ClientNode)
    → other ≢ id
    → lookup (without id ns) other ≡ lookup ns other
unfolding lookup
lookup-without_other id other [] n = refl
lookup-without_other id other (m ∷ ns) n = elim (Bool-cases (bytes_eq m.id id)) [
  | inl e ↦
      let same : m.id ≡ id = (bytes_eq_iff m.id id).0 e in
      let different : bytes_eq other m.id ≡ false = bytes_eq_ne other m.id (λ t. n (t ∙ same)) in
      rw (e, different)
  | inr e ↦ rw (e, lookup-without_other id other ns n)
]

lookup-without :
    (id : Bytes) (ns : List ClientNode) → IsDistinct ns → lookup (without id ns) id ≡ none
lookup-without id [] d = unfold lookup in refl
lookup-without id (m ∷ ns) d = elim (Bool-cases (bytes_eq m.id id)) [
  | inl e ↦
      let same : m.id ≡ id = (bytes_eq_iff m.id id).0 e in rw e (ap (lookup ns) (sym same) ∙ d.0)
  | inr e ↦
      let other : bytes_eq id m.id ≡ false = bytes_eq_comm id m.id ∙ e in
      rw e (lookup_skip m (without id ns) id other ∙ lookup-without id ns d.1)
]

-- The removal of a client that is in a list in order: its ID is not found any more, and every
-- other ID is found as before.
pub remove_from_list-lookup :
    (l : ClientList) (id found other : Bytes)
    → IsValid l
    → lookup l.nodes id ≡ some found
    → other ≢ id
    → (t : ClientList) × (remove_from_list id l ≡ returned tt t)
      × (lookup t.nodes id ≡ none)
      × (lookup t.nodes other ≡ lookup l.nodes other)
remove_from_list-lookup l id found other v h n = (
  _,
  remove_known l id found v.free h,
  ap (λ ns. lookup ns id) (unlink-without id l.nodes) ∙ lookup-without id l.nodes v.distinct,
  ap (λ ns. lookup ns other) (unlink-without id l.nodes) ∙ lookup-without_other id other l.nodes n,
)
