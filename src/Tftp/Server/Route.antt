-- ===== src/Tftp/Server/Route.antt =====
-- What the receiving loop makes of the datagrams that clients send.
use network_protocol_cli_too.Common.{
  ℕ, ◌≤◌, ◌<◌, ◌≡◌, sym, ap, ◌∙◌, ◌↔◌, ◌≢◌, Bool, true, false, some, arith, leb, if◌then◌else◌,
  length, take_all, length-take, size_max, Bool-cases, inl, inr, leb→le,
}
use network_protocol_cli_too.CString.{Bytes, codes, c_str, starts_with}
use network_protocol_cli_too.Transfer.Protocol.{
  Params, get_request, ack_packet, scan_request, scan_ack,
}
use network_protocol_cli_too.Transfer.Protocol.RoundTrip.{
  IsFilename, get_request-fits, length-get_text, scan_request-get_request, c_str-get_request,
  scan_ack-ack_packet, length-ack_packet, ack_packet-starts, get_request-starts,
}
use network_protocol_cli_too.Tftp.Packet.{buffer_size}
use network_protocol_cli_too.Tftp.AckQueue.{AckQueue, enqueue}
use network_protocol_cli_too.Tftp.Server.{
  acknowledged, started, overflow, routed_ack, routed_request, route_text, route,
}

module _ (old : Params) (old_seq_num : ℕ) (q : AckQueue) (client_addr addr_len : ℕ) where
  routed_request-fits : (r : ℕ × Params) → routed_request client_addr addr_len r ≢ overflow
  unfolding routed_request
  routed_request-fits (count, params) = ground arith

  routed_ack-fits : (r : AckQueue × Bool) → routed_ack r ≢ overflow
  unfolding routed_ack
  routed_ack-fits (q', woken) = ground arith

  route_text-fits :
      (received : Bytes) → route_text old old_seq_num q client_addr addr_len received ≢ overflow
  unfolding route_text
  route_text-fits received = elim (Bool-cases (starts_with (codes "ACK") (c_str received))) [
    | inl e ↦ rw e (routed_ack-fits _)
    | inr e ↦ rw e (routed_request-fits _)
  ]

  -- A datagram that fits into the buffer with its NUL.
  route_fits :
      (datagram : Bytes)
      → length datagram < buffer_size
      → route old old_seq_num q client_addr addr_len (some datagram)
        ≡ route_text old old_seq_num q client_addr addr_len datagram
  unfolding route
  route_fits datagram h =
      ap
        (λ d.
          if leb buffer_size (length d)
          then overflow
          else route_text old old_seq_num q client_addr addr_len d)
        (take_all buffer_size datagram (omega arith))
      ∙ ground arith

  route_overflows :
      (datagram : Bytes)
      → buffer_size ≤ length datagram
      → route old old_seq_num q client_addr addr_len (some datagram) ≡ overflow
  unfolding route
  route_overflows datagram h = ground (arith, length-take buffer_size datagram)

  -- The loop writes behind the end of its buffer exactly for datagrams of 1024 bytes or more,
  -- whatever they hold.
  pub route-overflow :
      (datagram : Bytes)
      → (route old old_seq_num q client_addr addr_len (some datagram) ≡ overflow)
        ↔ (buffer_size ≤ length datagram)
  route-overflow datagram = (
    λ e. elim (Bool-cases (leb buffer_size (length datagram))) [
      | inl h ↦ leb→le buffer_size (length datagram) h
      | inr h ↦ absurd (route_text-fits datagram (sym (route_fits datagram (ground arith)) ∙ e))
    ],
    route_overflows datagram,
  )

  route_text_request :
      (received : Bytes)
      → starts_with (codes "ACK") (c_str received) ≡ false
      → route_text old old_seq_num q client_addr addr_len received
        ≡ routed_request client_addr addr_len (scan_request old (c_str received))
  unfolding route_text
  route_text_request received h = rw h

  route_text_ack :
      (received : Bytes)
      → starts_with (codes "ACK") (c_str received) ≡ true
      → route_text old old_seq_num q client_addr addr_len received
        ≡ routed_ack (
            enqueue q (record {
              seq_num = scan_ack old_seq_num received;
              client_addr = client_addr;
              addr_len = addr_len;
            }))
  unfolding route_text
  route_text_ack received h = rw h

  -- A GET request of a client, with a name of one word of at most 255 bytes and numbers that fit
  -- `size_t`, starts a thread with exactly its fields and the client's address.
  pub route-get_request :
      (name : Bytes) (offset size : ℕ)
      → IsFilename name
      → offset ≤ size_max
      → size ≤ size_max
      → route old old_seq_num q client_addr addr_len
          (some (get_request buffer_size name offset size))
        ≡ started (record {
          params = record {
            command = codes "GET";
            filename = name;
            offset = offset;
            chunk_size = size;
          };
          client_addr = client_addr;
          addr_len = addr_len;
        })
  unfolding routed_request
  route-get_request name offset size v o s =
      route_fits request (
        omega (
          arith,
          ap length (get_request-fits buffer_size name offset size room v.1),
          length-get_text name offset size,
          v.1,
        ))
      ∙ route_text_request request (
          ap (starts_with (codes "ACK")) whole
          ∙ get_request-starts buffer_size name offset size room v.1)
      ∙ ap (λ t. routed_request client_addr addr_len (scan_request old t)) whole
      ∙ ap (routed_request client_addr addr_len)
          (scan_request-get_request old buffer_size name offset size room v o s)
    where
      request : Bytes
      request = get_request buffer_size name offset size

      room : 301 < buffer_size
      room = omega arith

      whole : c_str request ≡ request
      whole = c_str-get_request buffer_size name offset size room v

  -- An ACK of a client whose number fits `size_t` is put into the queue under its number and the
  -- client's address.
  pub route-ack_packet :
      (seq_num : ℕ)
      → seq_num ≤ size_max
      → route old old_seq_num q client_addr addr_len (some (ack_packet buffer_size seq_num)) ≡ (
          let (q', woken) =
            enqueue q
              (record { seq_num = seq_num; client_addr = client_addr; addr_len = addr_len }) in
          acknowledged q' woken)
  unfolding routed_ack
  route-ack_packet seq_num s =
      route_fits (ack_packet buffer_size seq_num)
        (omega (arith, length-ack_packet buffer_size seq_num))
      ∙ route_text_ack (ack_packet buffer_size seq_num)
          (ack_packet-starts buffer_size seq_num (omega arith))
      ∙ ap
          (λ n.
            routed_ack
              (enqueue q (record { seq_num = n; client_addr = client_addr; addr_len = addr_len })))
          (scan_ack-ack_packet old_seq_num buffer_size seq_num (omega arith) s)
