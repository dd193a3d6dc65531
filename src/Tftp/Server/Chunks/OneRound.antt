-- ===== src/Tftp/Server/Chunks/OneRound.antt =====
-- One round of the sending loop of tftp/server.c.
use network_protocol_cli_too.Common.{
  ℕ, ◌+◌, ◌-◌, ◌≤◌, ◌<◌, ◌≡◌, refl, ap, ◌∙◌, false, List, [], ◌∷◌, ◌++◌, some, arith, ltb, ◌==◌,
  if◌then◌else◌, length, take, drop, add_size, sub_size, take-add, length-take,
}
use network_protocol_cli_too.CString.{Bytes}
use network_protocol_cli_too.Tftp.Packet.{data_packet, length-data_packet}
use network_protocol_cli_too.Tftp.AckQueue.{AckQueue}
use network_protocol_cli_too.Tftp.Server.{
  Served, Round, done, sent_too_much, waiting, stop, sent_first, took_first, after_ack, after_send,
  send_payload, send_chunk, payload_size_of,
}

-- One round of the loop on a payload that is not empty.
send_payload_lem :
    (seq_num client_addr remaining : ℕ) (r : Round) (later : ℕ → Served) (payload : Bytes)
    → 0 < length payload
    → send_payload seq_num client_addr remaining r later payload
      ≡ sent_first (data_packet seq_num payload) (
          after_send seq_num client_addr remaining r.looks later
            (r.sendto (length (data_packet seq_num payload))))
unfolding send_payload
send_payload_lem seq_num client_addr remaining r later [] h = absurd (omega arith)
send_payload_lem seq_num client_addr remaining r later (b ∷ payload) h = refl

pub payload_size_of_bounds :
    (remaining : ℕ)
    → 0 < remaining
    → (0 < payload_size_of remaining)
      × (payload_size_of remaining ≤ 1016)
      × (payload_size_of remaining ≤ remaining)
payload_size_of_bounds remaining h = ground arith

-- The size that the thread subtracts is the payload's.
payload_sent : (n : ℕ) → n ≤ 1016 → sub_size (8 + n) 8 ≡ n
payload_sent n h = omega arith

pub after_ack_whole :
    (remaining n : ℕ) (later : ℕ → Served) (q : AckQueue)
    → n ≤ 1016
    → n ≤ remaining
    → after_ack remaining (8 + n) later (some q) ≡ took_first q (later (remaining - n))
unfolding after_ack
after_ack_whole remaining n later q h l =
    ap (λ k. took_first q (if ltb remaining k then stop sent_too_much else later (remaining - k)))
      (payload_sent n h)
    ∙ ap (took_first q) (ground arith)

pub send_chunk_round :
    (client_addr : ℕ) (r : Round) (rounds : List Round) (seq_num remaining : ℕ) (rest : Bytes)
    → 0 < remaining
    → remaining ≤ length rest
    → let n = payload_size_of remaining in
      send_chunk client_addr (r ∷ rounds) seq_num remaining rest
      ≡ sent_first (data_packet seq_num (take n rest)) (
          after_send seq_num client_addr remaining r.looks
            (λ left. send_chunk client_addr rounds (add_size seq_num 1) left (drop n rest))
            (r.sendto (8 + n)))
unfolding send_chunk
send_chunk_round client_addr r rounds seq_num remaining rest p h = rw positive (
    send_payload_lem seq_num client_addr remaining r later payload
      (omega (arith, size, payload_size_of_bounds remaining p))
    ∙ ap
        (λ k.
          sent_first (data_packet seq_num payload)
            (after_send seq_num client_addr remaining r.looks later (r.sendto k)))
        (omega (arith, length-data_packet seq_num payload, size)))
  where
    payload : Bytes
    payload = take (payload_size_of remaining) rest

    later : ℕ → Served
    later = λ left.
        send_chunk client_addr rounds (add_size seq_num 1) left
          (drop (payload_size_of remaining) rest)

    positive : (remaining == 0) ≡ false
    positive = ground arith

    size : length payload ≡ payload_size_of remaining
    size =
        omega
          (arith, length-take (payload_size_of remaining) rest, payload_size_of_bounds remaining p)

pub send_chunk_empty :
    (client_addr : ℕ) (rounds : List Round) (seq_num remaining : ℕ) (rest : Bytes)
    → remaining ≡ 0
    → send_chunk client_addr rounds seq_num remaining rest ≡ stop done
unfolding send_chunk
send_chunk_empty client_addr [] seq_num remaining rest e = rw e
send_chunk_empty client_addr (r ∷ rounds) seq_num remaining rest e = ground arith

pub send_chunk_stuck :
    (client_addr seq_num remaining : ℕ) (rest : Bytes)
    → 0 < remaining
    → send_chunk client_addr [] seq_num remaining rest ≡ stop waiting
unfolding send_chunk
send_chunk_stuck client_addr seq_num remaining rest h = ap stop (ground arith)

-- The chunk from here on is the next payload and the chunk behind it.
pub take-payload :
    (n remaining : ℕ) (rest : Bytes)
    → n ≤ remaining
    → take remaining rest ≡ take n rest ++ take (remaining - n) (drop n rest)
take-payload n remaining rest h =
    ap (λ k. take k rest) (omega arith) ∙ take-add n (remaining - n) rest
