-- ===== src/Irc/Server/Waiting.antt =====
-- The waiting list: what follows a `/wait`, and what `/connect` answers.
use network_protocol_cli_too.Common.{
  ℕ, suc, ◌<◌, ◌≡◌, refl, sym, ap, ◌∙◌, true, false, List, [], ◌∷◌, ◌++◌, none, some, arith, ltb,
  length, take, get_elem?, get_elem?-some, get_elem?-set_self, append-nil, ℤ, pos, ok,
}
use network_protocol_cli_too.CString.{
  Bytes, codes, c_str, bytes_eq, bytes_eq_iff, starts_with, is_space,
}
use network_protocol_cli_too.CString.Scan.{scan_word, IsWord, scan_word_append, scan_word_space}
use network_protocol_cli_too.CString.Signed.{atoi}
use network_protocol_cli_too.Irc.Server.{
  Client, Server, Reply, answer, literal, ids, index_of, remove_row, register, enter, set_port,
  add_waiting, start_wait, wait_at, wait_command, port_at, connect_reply, connect_at, connect_to,
  connect_target, connect_command, stop_at, stop_command, command, round, received_line, first_line,
  max_waiting, buffer_size, id_size,
}
use network_protocol_cli_too.Irc.Server.Registry.{IsValid, index_of-none}

bytes_eq_self : (x : Bytes) → bytes_eq x x ≡ true
bytes_eq_self x = (bytes_eq_iff x x).1 refl

index_of_head : (x : Bytes) (xs : List Bytes) → index_of x (x ∷ xs) ≡ some 0
unfolding index_of
index_of_head x xs = rw (bytes_eq_self x)

index_of-append :
    (x : Bytes) (xs : List Bytes)
    → index_of x xs ≡ none
    → index_of x (xs ++ (x ∷ [])) ≡ some (length xs)
unfolding index_of
index_of-append x [] h = rw (bytes_eq_self x)
index_of-append x (y ∷ ys) h =
    let (other, later) = index_of-none x y ys h in rw (other, index_of-append x ys later)

remove_row_last : (x : Bytes) (xs : List Bytes) → remove_row (length xs) (xs ++ (x ∷ [])) ≡ xs
unfolding remove_row
remove_row_last x [] = refl
remove_row_last x (y ∷ ys) = ap (◌∷◌ y) (remove_row_last x ys)

-- The line that a client types.
abbrev pub connect_line : Bytes → Bytes
connect_line id = codes "/connect " ++ id

connect_target_line :
    (c : ℕ) (id : Bytes)
    → IsWord (c ∷ id)
    → connect_target (connect_line (c ∷ id)) ≡ some (c ∷ id, [])
unfolding connect_target
connect_target_line c id w =
    scan_word_space n 32 (c ∷ id) (unfold is_space in refl)
    ∙ ap (scan_word n) (sym (append-nil (c ∷ id)))
    ∙ scan_word_append n c id [] w tt (omega arith)
  where
    n : ℕ
    n = length (connect_line (c ∷ id))

connect_at_found :
    (s : Server) (id : Bytes) (i : ℕ) (row : Client)
    → get_elem? s.clients i ≡ some row
    → connect_at s id (some i)
      ≡ ok (answer (record s { waiting = remove_row i s.waiting }) (connect_reply id row.port))
unfolding connect_at port_at
connect_at_found s id i row g = rw g

connect_to_found :
    (s : Server) (id rest : Bytes) (i : ℕ)
    → length id < id_size
    → index_of id s.waiting ≡ some i
    → connect_to s (some (id, rest)) ≡ connect_at s id (some i)
unfolding connect_to
connect_to_found s id rest i l e = rw (short, e)
  where
    short : ltb (length id) id_size ≡ true
    short = ground arith

-- A `/connect` to a waiting client is answered with its ID and the port of the row of `clients` that
-- has the number of the client's row of the waiting list, which it leaves.
pub connect_found :
    (s : Server) (c : ℕ) (id : Bytes) (i : ℕ) (row : Client)
    → IsWord (c ∷ id)
    → length (c ∷ id) < id_size
    → index_of (c ∷ id) s.waiting ≡ some i
    → get_elem? s.clients i ≡ some row
    → connect_command s (connect_line (c ∷ id))
      ≡ ok
          (answer (record s { waiting = remove_row i s.waiting }) (connect_reply (c ∷ id) row.port))
unfolding connect_command
connect_found s c id i row w l e g =
    ap (connect_to s) (connect_target_line c id w)
    ∙ connect_to_found s (c ∷ id) [] i l e
    ∙ connect_at_found s (c ∷ id) i row g

stop_found :
    (s : Server) (id : Bytes) (i : ℕ)
    → index_of id s.waiting ≡ some i
    → stop_command s id
      ≡ ok (
          answer
            (record s { waiting = remove_row i s.waiting })
            (literal (codes "\nStopped waiting.\n") 18))
unfolding stop_command stop_at
stop_found s id i e = ap (stop_at s) e

-- Where exactly two clients with usable IDs wait and the first is connected to, a `/connect` to
-- the second is answered with the port of row 0, which the first was answered with: the rows of
-- `waiting_clients` move, the rows of `clients` do not.
pub connect_shifted :
    (s : Server) (c d : ℕ) (first second : Bytes) (row : Client)
    → IsWord (c ∷ first)
    → IsWord (d ∷ second)
    → length (c ∷ first) < id_size
    → length (d ∷ second) < id_size
    → s.waiting ≡ (c ∷ first) ∷ (d ∷ second) ∷ []
    → get_elem? s.clients 0 ≡ some row
    → (r : Reply) × (connect_command s (connect_line (c ∷ first)) ≡ ok r)
      × (r.sent ≡ connect_reply (c ∷ first) row.port)
      × (connect_command r.server (connect_line (d ∷ second))
          ≡ ok (answer (record s { waiting = [] }) (connect_reply (d ∷ second) row.port)))
connect_shifted s c d first second row wc wd lc ld waits g = (
  answer t (connect_reply (c ∷ first) row.port),
  connect_found s c first 0 row wc lc
      (ap (index_of (c ∷ first)) waits ∙ index_of_head (c ∷ first) ((d ∷ second) ∷ [])) g,
  refl,
  connect_found t d second 0 row wd ld
        (ap (λ w. index_of (d ∷ second) (remove_row 0 w)) waits
          ∙ unfold remove_row in index_of_head (d ∷ second) [])
        g
      ∙ ap (λ w. ok (answer (record s { waiting = w }) (connect_reply (d ∷ second) row.port)))
          (ap (λ w. remove_row 0 (remove_row 0 w)) waits ∙ unfold remove_row in refl),
)
  where
    t : Server
    t = record s { waiting = remove_row 0 s.waiting }

-- The state behind a successful `/wait`
abbrev behind_wait : Server → Bytes → ℤ → Server
behind_wait s id port = record s {
  waiting = s.waiting ++ (id ∷ []);
  clients = set_port port (get_elem? s.clients (length s.waiting)) s.clients (length s.waiting);
}

wait_lem :
    (s : Server) (id message : Bytes) (p : ℕ)
    → index_of id s.waiting ≡ none
    → length s.waiting < max_waiting
    → atoi (c_str (take buffer_size message)) ≡ pos (suc p)
    → wait_command s id message
      ≡ ok (
          answer
            (behind_wait s id (pos (suc p)))
            (literal (codes "Waiting for connection. (Ctrl+C to stop waiting)\n") 50))
unfolding wait_command wait_at start_wait add_waiting
wait_lem s id message p e l a = rw (e, a, positive, in_room)
  where
    positive : ltb 0 (suc p) ≡ true
    positive = ground arith

    in_room : ltb (length s.waiting) max_waiting ≡ true
    in_room = ground arith

set_port_row :
    (cs : List Client) (i : ℕ) (port : ℤ)
    → i < length cs
    → (row : Client) × (get_elem? (set_port port (get_elem? cs i) cs i) i ≡ some row)
      × (row.port ≡ port)
unfolding set_port
set_port_row cs i port h =
    let (old, e) = get_elem?-some cs i h in
    (
      record old { port = port; in_chat = true },
      ap (λ o. get_elem? (set_port port o cs i) i) e ∙ get_elem?-set_self cs i _ h,
      refl,
    )

module _ (s : Server) (c : ℕ) (name message : Bytes) (p : ℕ) (valid : IsValid s)
    (usable : IsWord (c ∷ name)) (short : length (c ∷ name) < id_size)
    (fresh : index_of (c ∷ name) s.waiting ≡ none) (room : length s.waiting < max_waiting)
    (port : atoi (c_str (take buffer_size message)) ≡ pos (suc p)) where
  -- In a state in order, a client with a usable ID that is not waiting, while fewer than 100 wait,
  -- sends `/wait` and a positive port: it is answered, the next `/connect` to it is answered with
  -- its ID and this port, and the waiting list is as before; it is as before too if the client
  -- sends `/stop_wait` instead.
  pub wait-connect :
      (r : Reply) × (wait_command s (c ∷ name) message ≡ ok r)
      × ((t : Server) × (connect_command r.server (connect_line (c ∷ name))
            ≡ ok (answer t (connect_reply (c ∷ name) (pos (suc p)))))
          × (t.waiting ≡ s.waiting))
      × ((q : Reply) × (stop_command r.server (c ∷ name) ≡ ok q) × (q.server.waiting ≡ s.waiting))
  wait-connect =
      let (row, g, e) =
        set_port_row s.clients (length s.waiting) (pos (suc p)) (omega (arith, room, valid.rows)) in
      let found = index_of-append (c ∷ name) s.waiting fresh in
      let same = remove_row_last (c ∷ name) s.waiting in
      (
        _,
        wait_lem s (c ∷ name) message p fresh room port,
        (
          _,
          connect_found t c name (length s.waiting) row usable short found g
              ∙ ap
                  (λ q. ok (
                    answer (record t { waiting = remove_row (length s.waiting) t.waiting })
                      (connect_reply (c ∷ name) q)))
                  e,
          same,
        ),
        (_, stop_found t (c ∷ name) (length s.waiting) found, same),
      )
    where
      t : Server
      t = behind_wait s (c ∷ name) (pos (suc p))

-- `/quit` ends the connection of a client in the registry and leaves its row there: whoever then
-- sends its ID is refused.
pub quit-register :
    (s : Server) (id : Bytes) (i socket other : ℕ) (message login : Bytes)
    → index_of id (ids s) ≡ some i
    → received_line id_size login ≡ ok id
    → (r : Reply) × (round s id socket (codes "/quit\n") message ≡ ok r)
      × (r.goes_on ≡ false)
      × (register r.server other login
          ≡ ok (record {
            server = s;
            sent = codes "Client ID is already taken.\n" ++ (0 ∷ []);
            goes_on = false;
          }))
quit-register s id i socket other message login e l = (
  record { server = s; sent = []; goes_on = false },
  unfold round received_line first_line command starts_with in refl,
  refl,
  unfold register enter in rw (l, e),
)
