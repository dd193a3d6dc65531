-- ===== src/Irc/Meeting.antt =====
-- irc/client.c and irc/server.c together: one client waits, another one connects to it.
use network_protocol_cli_too.Common.{
  ℕ, suc, ◌<◌, ◌^◌, ◌-◌, ◌≡◌, ◌≢◌, refl, subst, ap, sym, ◌∙◌, true, [], ◌∷◌, ◌++◌, Option, none,
  some, arith, ltb, length, take, take_all, append-nil, ℤ, pos, ok, ◌>>=◌,
}
use network_protocol_cli_too.CString.{Bytes, codes, c_str, starts_with, HasNoNul, c_str-HasNoNul}
use network_protocol_cli_too.CString.Decimal.{print_zu, length-print_zu, print_zu-HasNoNul}
use network_protocol_cli_too.CString.Scan.{IsWord}
use network_protocol_cli_too.CString.Signed.{atoi}
use network_protocol_cli_too.CString.Signed.RoundTrip.{atoi-print_zu}
use network_protocol_cli_too.Irc.Server.{
  Server, Reply, answer, index_of, first_line, received_line, command, connect_command,
  connect_reply, wait_command, round, buffer_size, id_size, max_waiting,
}
use network_protocol_cli_too.Irc.Server.Registry.{IsValid}
use network_protocol_cli_too.Irc.Server.Waiting.{connect_line, wait-connect}
use network_protocol_cli_too.Irc.Client.{
  chat, info, wait, State, to_peer, to_server, stays, from_server, accepted, Listening, typed,
}
use network_protocol_cli_too.Irc.Client.Conversation.{IsPlain}
use network_protocol_cli_too.Irc.Client.Connect.{from_server-connect_reply, localhost}
use network_protocol_cli_too.Irc.Client.Commands.{
  connect_line-IsPlain, typed_wait, typed_connect, accepted_name,
}

first_line_plain : (text : Bytes) → IsPlain text → first_line text ≡ text
unfolding first_line
first_line_plain [] h = refl
first_line_plain (c ∷ text) h = ground (arith, first_line_plain text h.2)

received_line_plain :
    (room : ℕ) (text : Bytes)
    → IsPlain text
    → length text < room
    → received_line room text ≡ ok text
unfolding received_line
received_line_plain room text h l =
    rw (take_all room text (omega arith), first_line_plain text h, fits)
  where
    fits : ltb (length text) room ≡ true
    fits = ground arith

-- The server's rounds for the two commands
round_wait :
    (s : Server) (id : Bytes) (socket : ℕ) (message : Bytes)
    → round s id socket (codes "/wait") message ≡ wait_command s id message
unfolding round received_line first_line command starts_with
round_wait s id socket message = refl

round_connect :
    (s : Server) (id target message : Bytes) (socket : ℕ)
    → IsWord target
    → length target < id_size
    → round s id socket (connect_line target) message ≡ connect_command s (connect_line target)
unfolding round command starts_with
round_connect s id target message socket w h =
    ap (λ r. r >>= λ line. command s id line message)
      (received_line_plain buffer_size (connect_line target) (connect_line-IsPlain target w)
        (omega arith))

module _ (s : Server) (c : ℕ) (name : Bytes) (p : ℕ) (valid : IsValid s)
    (usable : IsWord (c ∷ name)) (short : length (c ∷ name) < id_size)
    (fresh : index_of (c ∷ name) s.waiting ≡ none) (room : length s.waiting < max_waiting)
    (l : Listening) (listens : l.listens ≡ true) (port : l.port ≡ suc p) (small : p < 2 ^ 16 - 1)
    (b : State) (waits : b.mode ≡ info) (a : State) (calls : a.mode ≡ info) (named : a.id ≢ [])
    (clean : HasNoNul a.id) (fits : length a.id < id_size) (connects : Bytes → ℤ → Option ℕ)
    (x y u v : ℕ) (network : connects localhost (pos (suc p)) ≡ some x) where
  sent_port : atoi (c_str (take buffer_size (print_zu (suc p)))) ≡ pos (suc p)
  sent_port =
      ap (λ t. atoi (c_str t))
        (take_all buffer_size (print_zu (suc p)) (omega (arith, length-print_zu (suc p))))
      ∙ ap atoi (
          c_str-HasNoNul (print_zu (suc p)) (print_zu-HasNoNul (suc p))
          ∙ sym (append-nil (print_zu (suc p))))
      ∙ atoi-print_zu (suc p) [] (omega arith) tt

  -- The server's state is in order, the first client's ID is usable and not waiting, and fewer than 100
  -- wait. The first client, in INFO mode, enters `/wait` and gets a port; the server handles these two
  -- messages. The second, in INFO mode with an ID of its own, enters `/connect` and the first one's ID;
  -- the server answers with the ID and the port, and its waiting list is as before. If this port of the
  -- host can be connected to, the second is in CHAT mode with the first as its peer, and the first, when
  -- its `accept` brings the connection and the ID, in CHAT mode with the second as its peer.
  pub meet :
      (typed l b (codes "/wait\n")
        ≡ stays
            (record b { listener = l.socket; mode = wait })
            (to_server (codes "/wait") ∷ to_server (print_zu (suc p)) ∷ []))
      × (typed l a (connect_line (c ∷ name) ++ (10 ∷ []))
          ≡ stays a (to_server (connect_line (c ∷ name)) ∷ []))
      × ((r : Reply) × (round s (c ∷ name) u (codes "/wait") (print_zu (suc p)) ≡ ok r)
          × ((t : Server) × (round r.server a.id v (connect_line (c ∷ name)) []
                ≡ ok (answer t (connect_reply (c ∷ name) (pos (suc p)))))
              × (t.waiting ≡ s.waiting)))
      × (from_server connects a (connect_reply (c ∷ name) (pos (suc p)))
          ≡ ok (
              stays
                (record a { peer = some x; peer_id = c ∷ name; mode = chat })
                (to_peer x a.id ∷ [])))
      × (accepted (record b { listener = l.socket; mode = wait }) (some y) a.id
          ≡ ok (
              stays
                (record b { listener = l.socket; peer = some y; peer_id = a.id; mode = chat })
                []))
  meet =
      let (r, w, (t, q, e), stop) =
        wait-connect s c name (print_zu (suc p)) p valid usable short fresh room sent_port in
      (
        subst
            (λ n.
              typed l b (codes "/wait\n")
              ≡ stays (record b { listener = l.socket; mode = wait })
                  (to_server (codes "/wait") ∷ to_server (print_zu n) ∷ []))
            port (typed_wait l b waits listens),
        typed_connect l a (c ∷ name) calls usable short,
        (
          r,
          round_wait s (c ∷ name) u (print_zu (suc p)) ∙ w,
          (t, round_connect r.server a.id (c ∷ name) [] v usable short ∙ q, e),
        ),
        from_server-connect_reply connects a c name (suc p) x usable short (omega arith) network,
        accepted_name (record b { listener = l.socket; mode = wait }) y a.id named clean fits,
      )
