-- ===== src/Chat/ClientList/Send.antt =====
-- What `sendClientList` puts on the socket.
use network_protocol_cli_too.Common.{
  ℕ, zero, suc, ◌-◌, ◌<◌, ◌≡◌, refl, ap₂, Bool, true, false, List, [], ◌∷◌, ◌++◌, map, some, arith,
  ltb, length, replicate, pos,
}
use network_protocol_cli_too.CString.{Bytes, c_str, HasNoNul}
use network_protocol_cli_too.Chat.ClientList.{
  ClientNode, ClientList, returned, locking, max_id_length, padded, send_ids, listed,
  send_client_list,
}

-- IDs that fit the buffer of a message
abbrev pub AllFit : List ClientNode → Type 0
AllFit [] = Unit {0}
AllFit (n ∷ ns) = (length n.id < max_id_length) × HasNoNul n.id × AllFit ns

abbrev pub all_work : ℕ → List Bool
all_work n = replicate (suc n) true

send_ids_all :
    (ns : List ClientNode)
    → AllFit ns
    → send_ids ns (all_work (length ns))
      ≡ some (map (λ n. padded max_id_length n.id) ns ++ ((10 ∷ []) ∷ []), true)
unfolding send_ids
send_ids_all [] f = refl
send_ids_all (n ∷ ns) f =
    let short : ltb (length n.id) max_id_length ≡ true = ground (arith, f.0) in
    rw (short, send_ids_all ns f.2)

pub c_str-padded : (k : ℕ) (s : Bytes) → HasNoNul s → c_str (s ++ replicate k 0) ≡ s
unfolding c_str
c_str-padded zero [] h = refl
c_str-padded (suc k) [] h = refl
c_str-padded k (c ∷ s) h = ground (arith, c_str-padded k s h.1)

c_strs :
    (ns : List ClientNode)
    → AllFit ns
    → map c_str (map (λ n. padded max_id_length n.id) ns ++ ((10 ∷ []) ∷ []))
      ≡ map (λ n. n.id) ns ++ ((10 ∷ []) ∷ [])
c_strs [] f = unfold c_str in refl
c_strs (n ∷ ns) f = ap₂ ◌∷◌ (c_str-padded (max_id_length - length n.id) n.id f.1) (c_strs ns f.2)

-- The packets of a list, each ID in one of 32 bytes.
abbrev pub packets : List ClientNode → List Bytes
packets ns = map (λ n. padded max_id_length n.id) ns ++ ((10 ∷ []) ∷ [])

pub send_client_list-packets :
    (l : ClientList)
    → l.locked ≡ false
    → AllFit l.nodes
    → send_client_list (all_work (length l.nodes)) l ≡ returned (pos 1, packets l.nodes) l
unfolding send_client_list locking listed
send_client_list-packets l free f = rw (free, send_ids_all l.nodes f)

-- With the mutex free, if all IDs fit their messages and each `send` works, the client reads the
-- IDs of the list in their order and a newline, and the list is as before.
pub send_client_list-ids :
    (l : ClientList)
    → l.locked ≡ false
    → AllFit l.nodes
    → (packets : List Bytes) × (send_client_list (all_work (length l.nodes)) l
        ≡ returned (pos 1, packets) l)
      × (map c_str packets ≡ map (λ n. n.id) l.nodes ++ ((10 ∷ []) ∷ []))
send_client_list-ids l free f = (_, send_client_list-packets l free f, c_strs l.nodes f)
