-- ===== src/Irc/Server/Steps.antt =====
-- What each step does to the registry and to the waiting list of irc/server.c.
pub mod Keep
use network_protocol_cli_too.Common.{
  ℕ, ◌-◌, ◌≤◌, ◌<◌, ◌≡◌, inl, inr, refl, subst, ◌∙◌, Bool, true, false, not, List, [], ◌∷◌, ◌++◌,
  Option, none, some, arith, ltb, ◌==◌, if◌then◌else◌, length, take, get_elem?, length-set,
  length-append, ℤ, Outcome, ok, exit_failure, fault, ◌>>=◌, ◌>>◌, undefined_if, Option-cases,
}
use network_protocol_cli_too.CString.{Bytes, codes, c_str, starts_with}
use network_protocol_cli_too.CString.Signed.{atoi}
use network_protocol_cli_too.Irc.Server.{
  Client, Server, Reply, answer, ids, index_of, remove_row, enter, register, socket_row, drop_row,
  disconnect, list_waiting, list_command, set_port, add_waiting, start_wait, wait_at, wait_command,
  lines, port_at, connect_at, connect_to, connect_target, stop_at, command, round, received_line,
  id_size, is_positive, buffer_size, max_clients, max_waiting,
}
use network_protocol_cli_too.Irc.Server.Registry.{
  Absent, NoRepeats, IsValid, index_of-Absent, NoRepeats-remove_row, NoRepeats-append,
  length-remove_row, moved_row, DistinctIds-new, DistinctIds-kept,
}
use network_protocol_cli_too.Irc.Server.Steps.Keep.{Keeps, Keeps-guard, Keeps-bind, command-Keeps}

enter-IsValid :
    (s : Server) (socket : ℕ) (id : Bytes) (found : Option ℕ)
    → index_of id (ids s) ≡ found
    → IsValid s
    → Keeps IsValid (enter s socket id found)
unfolding enter
enter-IsValid s socket id (some i) e v = v
enter-IsValid s socket id none e v =
    Keeps-guard IsValid (not (ltb s.client_count max_clients)) _ (λ h. record {
      rows = length-set s.clients s.client_count _ ∙ v.rows;
      count = ground arith;
      room = v.room;
      once = v.once;
      distinct = DistinctIds-new s.client_count s.clients _ (ground (arith, v.rows)) e v.distinct;
    })

drop_row-IsValid :
    (s : Server) (found : Option ℕ) (last : Option Client)
    → get_elem? s.clients (s.client_count - 1) ≡ last
    → IsValid s
    → IsValid (drop_row s found last)
unfolding drop_row
drop_row-IsValid s none last e v = v
drop_row-IsValid s (some i) none e v = v
drop_row-IsValid s (some i) (some c) e v = record {
  rows = length-set s.clients i c ∙ v.rows;
  count = omega (arith, v.count);
  room = v.room;
  once = v.once;
  distinct = λ j k a b hj hk ej ek same.
      let (j', fj, wj) =
        moved_row s.clients i (s.client_count - 1) j c a (omega (arith, v.rows, v.count)) e ej in
      let (k', fk, wk) =
        moved_row s.clients i (s.client_count - 1) k c b (omega (arith, v.rows, v.count)) e ek in
      let old : j' ≡ k' = v.distinct j' k' a b (ground arith) (ground arith) fj fk same in
      ground arith;
}

set_port-IsValid :
    (s : Server) (waiting : List Bytes) (port : ℤ) (i : ℕ) (found : Option Client)
    → get_elem? s.clients i ≡ found
    → IsValid s
    → length waiting ≤ max_waiting
    → NoRepeats waiting
    → IsValid (record s { waiting = waiting; clients = set_port port found s.clients i })
unfolding set_port
set_port-IsValid s waiting port i none e v l r = record {
  rows = v.rows;
  count = v.count;
  room = l;
  once = r;
  distinct = v.distinct;
}
set_port-IsValid s waiting port i (some c) e v l r = record {
  rows = length-set s.clients i _ ∙ v.rows;
  count = v.count;
  room = l;
  once = r;
  distinct =
      DistinctIds-kept s.client_count s.clients i c (record c { port = port; in_chat = true }) e
        refl v.distinct;
}

remove-IsValid :
    (s : Server) (i : ℕ) → IsValid s → IsValid (record s { waiting = remove_row i s.waiting })
remove-IsValid s i v = record {
  rows = v.rows;
  count = v.count;
  room = omega (arith, v.room, length-remove_row i s.waiting);
  once = NoRepeats-remove_row i s.waiting v.once;
  distinct = v.distinct;
}

-- A line that a client sends, whatever it is, keeps the arrays in order.
command-IsValid :
    (s : Server) (client_id line message : Bytes)
    → IsValid s
    → Keeps IsValid (command s client_id line message)
command-IsValid s client_id line message v =
    command-Keeps IsValid s client_id v (λ i. remove-IsValid s i v)
      (λ port a h.
        set_port-IsValid s (s.waiting ++ (client_id ∷ [])) port (length s.waiting) _ refl v
          (omega (arith, length-append s.waiting (client_id ∷ [])))
          (NoRepeats-append client_id s.waiting a v.once))
      line message

register-IsValid :
    (s : Server) (socket : ℕ) (message : Bytes)
    → IsValid s
    → Keeps IsValid (register s socket message)
unfolding register
register-IsValid s socket message v =
    Keeps-bind IsValid (received_line id_size message)
      (λ id. enter s socket id (index_of id (ids s)))
      (λ id. enter-IsValid s socket id (index_of id (ids s)) refl v)

round-IsValid :
    (s : Server) (client_id : Bytes) (socket : ℕ) (text message : Bytes)
    → IsValid s
    → Keeps IsValid (round s client_id socket text message)
unfolding round
round-IsValid s client_id socket [] message v =
    unfold disconnect in drop_row-IsValid s (socket_row socket s.client_count s.clients) _ refl v
round-IsValid s client_id socket (c ∷ text) message v =
    Keeps-bind IsValid (received_line buffer_size (c ∷ text))
      (λ line. command s client_id line message)
      (λ line. command-IsValid s client_id line message v)

-- What a thread does with the shared variables: it enters its client, or it handles a message.
pub data Step : Server → Server → Type 0 where
  entered :
      {s : Server} (r : Reply) (socket : ℕ) (message : Bytes)
      → register s socket message ≡ ok r
      → Step s r.server
  handled :
      {s : Server} (r : Reply) (client_id : Bytes) (socket : ℕ) (text message : Bytes)
      → round s client_id socket text message ≡ ok r
      → Step s r.server

pub data Steps : Server → Server → Type 0 where
  done : {s : Server} → Steps s s
  more : {s t u : Server} → Step s t → Steps t u → Steps s u

Step-IsValid : {s t : Server} → Step s t → IsValid s → IsValid t
Step-IsValid (entered {s} r socket message e) v =
    subst (Keeps IsValid) e (register-IsValid s socket message v)
Step-IsValid (handled {s} r client_id socket text message e) v =
    subst (Keeps IsValid) e (round-IsValid s client_id socket text message v)

-- From a state in order, whatever the clients send and in whatever order their threads take the
-- steps that are defined: the registry never holds an ID twice, no client waits twice, and the
-- counters stay within the arrays.
pub Steps-IsValid : {s t : Server} → Steps s t → IsValid s → IsValid t
Steps-IsValid done v = v
Steps-IsValid (more x xs) v = Steps-IsValid xs (Step-IsValid x v)
