-- ===== src/Irc/Client/Commands.antt =====
-- What irc/client.c sends for `/wait` and `/connect`, and what it makes of a connection that comes in.
use network_protocol_cli_too.Common.{
  ℕ, ◌<◌, ◌-◌, ◌≡◌, ◌≢◌, refl, ap, ◌∙◌, true, false, [], ◌∷◌, ◌++◌, some, arith, length,
  length-append, take_all, ok,
}
use network_protocol_cli_too.CString.{
  Bytes, codes, c_str, starts_with, is_space, HasNoNul, c_str-HasNoNul,
}
use network_protocol_cli_too.CString.Decimal.{print_zu}
use network_protocol_cli_too.CString.Scan.{IsWord}
use network_protocol_cli_too.Irc.Server.{first_line, print_d}
use network_protocol_cli_too.Irc.Server.Waiting.{connect_line}
use network_protocol_cli_too.Irc.Client.{
  chat, info, wait, State, to_server, stays, accepted, peer_named, Listening, begin_wait, on_info,
  on_mode, typed_line, typed, id_size, buffer_size,
}
use network_protocol_cli_too.Irc.Client.Conversation.{IsPlain, first_line_typed}

-- A word is part of a line.
IsWord-IsPlain : (w : Bytes) → IsWord w → IsPlain w
IsWord-IsPlain [] h = tt
IsWord-IsPlain (c ∷ w) h = (h.0.1, no_newline c h.0.0, IsWord-IsPlain w h.1)
  where
    no_newline : (d : ℕ) → is_space d ≡ false → d ≢ 10
    no_newline d e = unfold is_space in ground arith

pub connect_line-IsPlain : (w : Bytes) → IsWord w → IsPlain (connect_line w)
connect_line-IsPlain w h = ground (arith, IsWord-IsPlain w h)

-- The two lines that are typed
pub typed_wait :
    (l : Listening) (b : State)
    → b.mode ≡ info
    → l.listens ≡ true
    → typed l b (codes "/wait\n")
      ≡ stays
          (record b { listener = l.socket; mode = wait })
          (to_server (codes "/wait") ∷ to_server (print_zu l.port) ∷ [])
unfolding typed typed_line first_line starts_with on_mode on_info begin_wait print_d
typed_wait l b m e = rw (m, e)

pub typed_connect :
    (l : Listening) (a : State) (target : Bytes)
    → a.mode ≡ info
    → IsWord target
    → length target < id_size
    → typed l a (connect_line target ++ (10 ∷ [])) ≡ stays a (to_server (connect_line target) ∷ [])
unfolding typed
typed_connect l a target m w h =
    ap (λ t. typed_line l a (first_line t))
      (take_all (buffer_size - 1) (connect_line target ++ (10 ∷ []))
        (omega (arith, length-append (connect_line target) (10 ∷ []))))
    ∙ ap (typed_line l a) (first_line_typed (connect_line target) (connect_line-IsPlain target w))
    ∙ unfold typed_line on_mode on_info starts_with in
      ap (λ k. on_mode l k a (connect_line target)) m

pub accepted_name :
    (b : State) (socket : ℕ) (id : Bytes)
    → id ≢ []
    → HasNoNul id
    → length id < id_size
    → accepted b (some socket) id
      ≡ ok (stays (record b { peer = some socket; peer_id = id; mode = chat }) [])
unfolding accepted
accepted_name b socket id n k h =
    ap (λ t. peer_named b socket (c_str t)) (take_all id_size id (omega arith))
    ∙ ap (peer_named b socket) (c_str-HasNoNul id k)
    ∙ named b socket id n h
  where
    named :
        (b : State) (socket : ℕ) (id : Bytes)
        → id ≢ []
        → length id < id_size
        → peer_named b socket id
          ≡ ok (stays (record b { peer = some socket; peer_id = id; mode = chat }) [])
    named b socket [] n h = absurd (n refl)
    named b socket (c ∷ id) n h = unfold peer_named in ground arith
