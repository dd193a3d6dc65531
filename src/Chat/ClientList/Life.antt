-- ===== src/Chat/ClientList/Life.antt =====
-- A list from its construction to its destruction.
use network_protocol_cli_too.Common.{
  suc, ◌≡◌, refl, sym, ap, subst, ◌∙◌, true, false, List, [], ◌∷◌, ◌++◌, none, some, arith, length,
  length-append, ℤ, pos, negsuc, ok, Bool-cases, Option-cases, inl, inr,
}
use network_protocol_cli_too.CString.{Bytes, bytes_eq}
use network_protocol_cli_too.Chat.ClientList.{
  ClientNode, ClientList, returned, exited, new_client_list, lookup, locking, insert_found,
  insert_to_list, remove_found, remove_from_list, is_empty, drop_nodes, emptied, freed,
  free_client_list, size,
}
use network_protocol_cli_too.Chat.ClientList.Laws.{
  IsValid, IsDistinct, without, lookup-none, link-append, unlink-without, insert_new, remove_known,
  bytes_eq_comm,
}

-- The lists that come of new ones by insertions that work and by removals that return.
pub data Lives : ClientList → Type 0 where
  fresh : Lives new_client_list
  inserted :
      {l : ClientList} (l' : ClientList) (id ip : Bytes) (port : ℤ)
      → Lives l
      → insert_to_list id ip port l ≡ returned (pos 1) l'
      → Lives l'
  removed :
      {l : ClientList} (l' : ClientList) (id : Bytes)
      → Lives l
      → remove_from_list id l ≡ returned tt l'
      → Lives l'

returned-injective : {A : Type 0} (a b : A) (l k : ClientList) → returned a l ≡ returned b k → l ≡ k
returned-injective a b l k e = cc

returned_value : {A : Type 0} {a b : A} {l k : ClientList} → returned a l ≡ returned b k → a ≡ b
returned_value e = cc

lookup_miss :
    (n : ClientNode) (ns : List ClientNode) (id : Bytes)
    → bytes_eq id n.id ≡ false
    → lookup ns id ≡ none
    → lookup (n ∷ ns) id ≡ none
unfolding lookup
lookup_miss n ns id h e = rw (h, e)

lookup-append_other :
    (new : ClientNode) (ns : List ClientNode) (id : Bytes)
    → bytes_eq id new.id ≡ false
    → lookup ns id ≡ none
    → lookup (ns ++ (new ∷ [])) id ≡ none
lookup-append_other new [] id h e = lookup_miss new [] id h e
lookup-append_other new (n ∷ ns) id h e =
    let (other, later) = lookup-none n ns id e in
    lookup_miss n (ns ++ (new ∷ [])) id other (lookup-append_other new ns id h later)

IsDistinct-append :
    (new : ClientNode) (ns : List ClientNode)
    → lookup ns new.id ≡ none
    → IsDistinct ns
    → IsDistinct (ns ++ (new ∷ []))
IsDistinct-append new [] h d = ((unfold lookup in refl), tt)
IsDistinct-append new (n ∷ ns) h d =
    let (other, later) = lookup-none n ns new.id h in
    (
      lookup-append_other new ns n.id (bytes_eq_comm n.id new.id ∙ other) d.0,
      IsDistinct-append new ns later d.1,
    )

lookup-without :
    (id x : Bytes) (ns : List ClientNode) → lookup ns x ≡ none → lookup (without id ns) x ≡ none
lookup-without id x [] h = h
lookup-without id x (n ∷ ns) h =
    let (other, later) = lookup-none n ns x h in
    elim (Bool-cases (bytes_eq n.id id)) [
      | inl e ↦ rw e later
      | inr e ↦ rw e (lookup_miss n (without id ns) x other (lookup-without id x ns later))
    ]

IsDistinct-without :
    (id : Bytes) (ns : List ClientNode) → IsDistinct ns → IsDistinct (without id ns)
IsDistinct-without id [] d = tt
IsDistinct-without id (n ∷ ns) d = elim (Bool-cases (bytes_eq n.id id)) [
  | inl e ↦ rw e (d.1)
  | inr e ↦ rw e (lookup-without id n.id ns d.0, IsDistinct-without id ns d.1)
]

length-without :
    (id found : Bytes) (ns : List ClientNode)
    → lookup ns id ≡ some found
    → suc (length (without id ns)) ≡ length ns
unfolding lookup
length-without id found [] h = cc
length-without id found (n ∷ ns) h = elim (Bool-cases (bytes_eq n.id id)) [
  | inl e ↦ rw e refl
  | inr e ↦
      let later : lookup ns id ≡ some found =
        (let e' : bytes_eq id n.id ≡ false = bytes_eq_comm id n.id ∙ e in rw e' at h) in
      rw e (ap suc (length-without id found ns later))
]

-- An ID that is in the list ends the insertion without success.
insert_known :
    (l : ClientList) (id ip found : Bytes) (port : ℤ)
    → l.locked ≡ false
    → lookup l.nodes id ≡ some found
    → insert_to_list id ip port l ≡ returned (negsuc 0) (record l { locked = true })
unfolding insert_to_list locking insert_found
insert_known l id ip found port free h = rw (free, h)

insert_to_list-IsValid :
    (l l' : ClientList) (id ip : Bytes) (port : ℤ)
    → IsValid l
    → insert_to_list id ip port l ≡ returned (pos 1) l'
    → IsValid l'
insert_to_list-IsValid l l' id ip port v e = elim (Option-cases (lookup l.nodes id)) [
  | inr (found, h) ↦
      let no : negsuc 0 ≡ pos 1 =
        returned_value (sym (insert_known l id ip found port v.free h) ∙ e) in
      cc
  | inl h ↦
      subst IsValid
        (returned-injective (pos 1) (pos 1) _ l' (sym (insert_new l id ip port v.free h) ∙ e))
        (record {
          count =
              ap suc v.count
              ∙ omega (arith, length-append l.nodes (record { id = id; ip = ip; port = port } ∷ []))
              ∙ ap length (sym (link-append (record { id = id; ip = ip; port = port }) l.nodes));
          free = refl;
          distinct =
              subst IsDistinct
                (sym (link-append (record { id = id; ip = ip; port = port }) l.nodes))
                (IsDistinct-append _ l.nodes h v.distinct);
        })
]

exited≢returned : {A : Type 0} {a : A} {l : ClientList} → exited ≡ returned a l → ⊥
exited≢returned e = cc

-- The removal of an ID that is not in the list ends the process.
remove_unknown :
    (l : ClientList) (id : Bytes)
    → l.locked ≡ false
    → lookup l.nodes id ≡ none
    → remove_from_list id l ≡ exited
unfolding remove_from_list locking remove_found
remove_unknown l id free h = rw (free, h)

remove_from_list-IsValid :
    (l l' : ClientList) (id : Bytes)
    → IsValid l
    → remove_from_list id l ≡ returned tt l'
    → IsValid l'
remove_from_list-IsValid l l' id v e = elim (Option-cases (lookup l.nodes id)) [
  | inl h ↦ absurd (exited≢returned (sym (remove_unknown l id v.free h) ∙ e))
  | inr (found, h) ↦
      subst IsValid (returned-injective tt tt _ l' (sym (remove_known l id found v.free h) ∙ e))
        (record {
          count = omega (
            arith,
            v.count,
            length-without id found l.nodes h,
            ap length (unlink-without id l.nodes),
          );
          free = refl;
          distinct =
              subst IsDistinct (sym (unlink-without id l.nodes))
                (IsDistinct-without id l.nodes v.distinct);
        })
]

drop_nodes_all : (ns : List ClientNode) → drop_nodes (length ns) ns ≡ some []
unfolding drop_nodes
drop_nodes_all [] = refl
drop_nodes_all (n ∷ ns) = drop_nodes_all ns

free_counted :
    (l : ClientList) → l.num_clients ≡ length l.nodes → free_client_list (some l) ≡ ok none
unfolding free_client_list emptied freed
free_counted l c = elim (Bool-cases (is_empty l)) [
  | inl e ↦ rw e refl
  | inr e ↦ rw (e, dropped) refl
]
  where
    dropped : drop_nodes l.num_clients l.nodes ≡ some []
    dropped = ap (λ k. drop_nodes k l.nodes) c ∙ drop_nodes_all l.nodes

Lives-in_order : {l : ClientList} → Lives l → IsValid l
Lives-in_order fresh = record { count = refl; free = refl; distinct = tt }
Lives-in_order (inserted {l} l' id ip port h e) =
    insert_to_list-IsValid l l' id ip port (Lives-in_order h) e
Lives-in_order (removed {l} l' id h e) = remove_from_list-IsValid l l' id (Lives-in_order h) e

-- Through any sequence of insertions that work and of removals that return, the list is in order:
-- the counter is the number of nodes, the mutex is free, and no ID is there twice. At its end the
-- list is freed without a fault, empty or not.
pub Lives-IsValid :
    {l : ClientList}
    → Lives l
    → IsValid l × (size l ≡ length l.nodes) × (free_client_list (some l) ≡ ok none)
unfolding size
Lives-IsValid {l} h = let v = Lives-in_order h in (v, v.count, free_counted l v.count)
