-- ===== src/Tftp/Client/Paced/Packets.antt =====
-- A round of a thread of tftp/client.c that brings a numbered packet.
use network_protocol_cli_too.Common.{
  ℕ, ◌+◌, ◌-◌, ◌≤◌, ◌≡◌, ap, ◌∙◌, true, false, [], ◌∷◌, arith, ltb, length, write_at, take_all,
  size_max,
}
use network_protocol_cli_too.CString.{Bytes}
use network_protocol_cli_too.Transfer.Protocol.{ack_packet}
use network_protocol_cli_too.Tftp.Packet.{
  buffer_size, data_packet, packet_seq_num, packet_payload, length-data_packet,
  packet_payload-data_packet, packet_seq_num-data_packet,
}
use network_protocol_cli_too.Tftp.Client.{datagram, Loop, loop_head, store, round}
use network_protocol_cli_too.Tftp.Client.Receive.{moved}

module _ (l : Loop) (file_data : Bytes) where
  store_fits :
      (packet : Bytes)
      → 8 ≤ length packet
      → length packet - 8 ≤ l.remaining
      → l.position + (length packet - 8) ≤ l.limit
      → store l file_data packet ≡ (
        loop_head (moved l (length packet - 8)),
        write_at file_data l.position (packet_payload packet),
      )
  unfolding store
  store_fits packet long fits inside = rw (
    (let e : ltb (length packet) 8 ≡ false = ground arith in e),
    (let e : ltb l.remaining (length packet - 8) ≡ false = ground arith in e),
    (let e : ltb l.limit (l.position + (length packet - 8)) ≡ false = ground arith in e),
  )

  store-data_packet :
      (seq_num : ℕ) (payload : Bytes)
      → length payload ≤ l.remaining
      → l.position + l.remaining ≡ l.limit
      → store l file_data (data_packet seq_num payload)
        ≡ (loop_head (moved l (length payload)), write_at file_data l.position payload)
  store-data_packet seq_num payload fits aligned =
      let size : length (data_packet seq_num payload) - 8 ≡ length payload =
        omega (arith, length-data_packet seq_num payload) in
      store_fits (data_packet seq_num payload) (omega (arith, length-data_packet seq_num payload))
        (omega (arith, size)) (omega (arith, size))
      ∙ ap
          (λ n. (
            loop_head (moved l n),
            write_at file_data l.position (packet_payload (data_packet seq_num payload)),
          ))
          size
      ∙ ap (λ b. (loop_head (moved l (length payload)), write_at file_data l.position b))
          (packet_payload-data_packet seq_num payload)

  -- A packet that fits is acknowledged under its number, and its payload stored.
  pub round-data_packet :
      (seq_num : ℕ) (payload : Bytes)
      → seq_num ≤ size_max
      → length payload ≤ 1016
      → length payload ≤ l.remaining
      → l.position + l.remaining ≡ l.limit
      → round l file_data (datagram (data_packet seq_num payload) true) ≡ record {
        sent = ack_packet buffer_size seq_num ∷ [];
        thread = loop_head (moved l (length payload));
        file_data = write_at file_data l.position payload;
      }
  unfolding round
  round-data_packet seq_num payload s short fits aligned =
      ap
        (λ packet. record {
          sent = ack_packet buffer_size (packet_seq_num packet) ∷ [];
          thread = (store l file_data packet).0;
          file_data = (store l file_data packet).1;
        })
        (take_all buffer_size (data_packet seq_num payload)
          (omega (arith, length-data_packet seq_num payload)))
      ∙ ap
          (λ n. record {
            sent = ack_packet buffer_size n ∷ [];
            thread = (store l file_data (data_packet seq_num payload)).0;
            file_data = (store l file_data (data_packet seq_num payload)).1;
          })
          (packet_seq_num-data_packet seq_num payload s)
      ∙ ap
          (λ r. record {
            sent = ack_packet buffer_size seq_num ∷ [];
            thread = r.0;
            file_data = r.1;
          })
          (store-data_packet seq_num payload fits aligned)
