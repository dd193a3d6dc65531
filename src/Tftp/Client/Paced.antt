-- ===== src/Tftp/Client/Paced.antt =====
-- One thread that gets numbered packets in order, with pauses between them.
pub mod Packets
use network_protocol_cli_too.Common.{
  ℕ, zero, suc, ◌+◌, ◌-◌, ◌≤◌, ◌<◌, ◌≡◌, refl, sym, ap, subst, ◌∙◌, true, false, List, [], ◌∷◌,
  ◌++◌, arith, ltb, length, replicate, write_at, write_at-nil, write_at-append, take_all,
  length-append, add_size, size_max, get_or, drop,
}
use network_protocol_cli_too.CString.{Bytes}
use network_protocol_cli_too.Transfer.Protocol.{ack_packet}
use network_protocol_cli_too.Tftp.Packet.{
  buffer_size, max_retries, data_packet, packet_seq_num, packet_payload, length-data_packet,
  packet_payload-data_packet, packet_seq_num-data_packet,
}
use network_protocol_cli_too.Tftp.Server.Chunks.{payloads, Numbered}
use network_protocol_cli_too.Tftp.Client.{
  Event, timeout, datagram, exited, Loop, Thread, running, ended, Round, loop_head, store, round,
  receive,
}
use network_protocol_cli_too.Tftp.Client.Receive.{moved, receive_timeout, retry_again}
use network_protocol_cli_too.Tftp.Client.Paced.Packets.{round-data_packet}

-- The packets as events: before each one some `recvfrom` calls bring nothing.
abbrev pub delayed : List Bytes → List ℕ → List Event
delayed [] pauses = []
delayed (p ∷ ps) pauses =
    replicate (get_or pauses 0 0) timeout ++ (datagram p true ∷ delayed ps (drop 1 pauses))

-- No pause is longer than the retries.
abbrev pub Patient : List ℕ → Type 0
Patient [] = Unit {0}
Patient (n ∷ pauses) = (n ≤ max_retries) × Patient pauses

pub Patient-head :
    (pauses : List ℕ) → Patient pauses → (get_or pauses 0 0 ≤ max_retries) × Patient (drop 1 pauses)
Patient-head [] t = (omega arith, tt)
Patient-head (n ∷ pauses) t = t

-- The acknowledgements of the packets, in order
abbrev pub acks : ℕ → List Bytes → List Bytes
acks seq_num [] = []
acks seq_num (p ∷ ps) = ack_packet buffer_size seq_num ∷ acks (add_size seq_num 1) ps

-- The loop behind `n` calls that brought nothing.
abbrev pub waited : Loop → ℕ → Loop
waited l n = record l { retry_count = l.retry_count + n }

pub receive-pause :
    (n : ℕ) (l : Loop) (file_data : Bytes) (events : List Event)
    → l.retry_count + n ≤ max_retries
    → receive (running l) file_data (replicate n timeout ++ events)
      ≡ receive (running (waited l n)) file_data events
receive-pause zero l file_data events h =
    ap (λ k. receive (running (record l { retry_count = k })) file_data events) (omega arith)
receive-pause (suc n) l file_data events h =
    receive_timeout l file_data (replicate n timeout ++ events)
    ∙ ap (λ t. receive t file_data (replicate n timeout ++ events)) (retry_again l (omega arith))
    ∙ receive-pause n (waited l 1) file_data events (omega arith)
    ∙ ap (λ k. receive (running (record l { retry_count = k })) file_data events) (omega arith)

-- What a thread sends first, and then the rest.
abbrev sends : Bytes → Round → Round
sends text r = record r { sent = text ∷ r.sent }

receive-data_packet :
    (l : Loop) (file_data : Bytes) (seq_num : ℕ) (payload : Bytes) (events : List Event)
    → seq_num ≤ size_max
    → length payload ≤ 1016
    → length payload ≤ l.remaining
    → l.position + l.remaining ≡ l.limit
    → receive (running l) file_data (datagram (data_packet seq_num payload) true ∷ events)
      ≡ sends (ack_packet buffer_size seq_num) (
          receive
            (loop_head (moved l (length payload)))
            (write_at file_data l.position payload)
            events)
unfolding receive
receive-data_packet l file_data seq_num payload events s short fits aligned =
    ap
      (λ r.
        let later = receive r.thread r.file_data events in
        record later { sent = r.sent ++ later.sent })
      (round-data_packet l file_data seq_num payload s short fits aligned)

pub loop_head_more : (l : Loop) → 0 < l.remaining → loop_head l ≡ running l
unfolding loop_head
loop_head_more l h = ground arith

pub loop_head_done : (l : Loop) → l.remaining ≡ 0 → loop_head l ≡ ended (exited 0)
unfolding loop_head
loop_head_done l h = rw h

pub add_size_small : (n : ℕ) → add_size n 1 ≤ size_max
add_size_small n = omega arith

receive_end :
    (e : Thread) (x : Bytes) → receive e x [] ≡ record { sent = []; thread = e; file_data = x }
unfolding receive
receive_end e x = refl

-- A round trip of one packet, behind a pause.
receive_round :
    (l : Loop) (file_data : Bytes) (n seq_num : ℕ) (payload : Bytes) (events : List Event)
    → l.retry_count + n ≤ max_retries
    → seq_num ≤ size_max
    → 0 < length payload
    → length payload ≤ 1016
    → length payload ≤ l.remaining
    → l.position + l.remaining ≡ l.limit
    → receive
        (loop_head l)
        file_data
        (replicate n timeout ++ (datagram (data_packet seq_num payload) true ∷ events))
      ≡ sends (ack_packet buffer_size seq_num) (
          receive
            (loop_head (moved l (length payload)))
            (write_at file_data l.position payload)
            events)
receive_round l file_data n seq_num payload events h s p short fits aligned =
    ap (λ t. receive t file_data (replicate n timeout ++ (packet ∷ events)))
      (loop_head_more l (omega arith))
    ∙ receive-pause n l file_data (packet ∷ events) h
    ∙ receive-data_packet (waited l n) file_data seq_num payload events s short fits aligned
  where
    packet : Event
    packet = datagram (data_packet seq_num payload) true

-- What a thread leaves that has got all of its packets: their acknowledgements, and their payloads
-- in its part of the buffer.
abbrev pub completed : ℕ → List Bytes → ℕ → Bytes → Round
completed seq_num packets position file_data = record {
  sent = acks seq_num packets;
  thread = ended (exited 0);
  file_data = write_at file_data position (payloads packets);
}

sends-completed :
    (seq_num position : ℕ) (payload : Bytes) (ps : List Bytes) (file_data : Bytes)
    → sends (ack_packet buffer_size seq_num) (
        completed
          (add_size seq_num 1)
          ps
          (position + length payload)
          (write_at file_data position payload))
      ≡ completed seq_num (data_packet seq_num payload ∷ ps) position file_data
sends-completed seq_num position payload ps file_data =
    ap
      (λ b. record {
        sent = acks seq_num (data_packet seq_num payload ∷ ps);
        thread = ended (exited 0);
        file_data = b;
      })
      (write_at-append file_data position payload (payloads ps)
        ∙ ap (λ b. write_at file_data position (b ++ payloads ps))
            (sym (packet_payload-data_packet seq_num payload)))

pub length-payloads :
    (seq_num : ℕ) (payload : Bytes) (ps : List Bytes)
    → length (payloads (data_packet seq_num payload ∷ ps)) ≡ length payload + length (payloads ps)
length-payloads seq_num payload ps =
    length-append (packet_payload (data_packet seq_num payload)) (payloads ps)
    ∙ ap (λ b. length b + length (payloads ps)) (packet_payload-data_packet seq_num payload)

receive_step :
    (l : Loop) (file_data : Bytes) (n seq_num : ℕ) (payload : Bytes) (ps : List Bytes)
    (events : List Event)
    → n ≤ max_retries
    → l.retry_count ≡ 0
    → seq_num ≤ size_max
    → 0 < length payload
    → length payload ≤ 1016
    → l.remaining ≡ length payload + length (payloads ps)
    → l.position + l.remaining ≡ l.limit
    → receive (loop_head (moved l (length payload))) (write_at file_data l.position payload) events
      ≡ completed
          (add_size seq_num 1)
          ps
          (l.position + length payload)
          (write_at file_data l.position payload)
    → receive
        (loop_head l)
        file_data
        (replicate n timeout ++ (datagram (data_packet seq_num payload) true ∷ events))
      ≡ completed seq_num (data_packet seq_num payload ∷ ps) l.position file_data
receive_step l file_data n seq_num payload ps events h r s p short left aligned later =
    receive_round l file_data n seq_num payload events (omega arith) s p short (omega arith) aligned
    ∙ ap (sends (ack_packet buffer_size seq_num)) later
    ∙ sends-completed seq_num l.position payload ps file_data

-- A thread that gets its packets in order, and never waits for more than five calls, acknowledges
-- each one, and exits with 0 and all payloads in its part.
pub receive-Numbered :
    (packets : List Bytes) (pauses : List ℕ) (seq_num : ℕ) (l : Loop) (file_data : Bytes)
    → Numbered seq_num packets
    → Patient pauses
    → seq_num ≤ size_max
    → l.retry_count ≡ 0
    → l.remaining ≡ length (payloads packets)
    → l.position + l.remaining ≡ l.limit
    → receive (loop_head l) file_data (delayed packets pauses)
      ≡ completed seq_num packets l.position file_data
receive-Numbered [] pauses seq_num l file_data n t s r left aligned =
    ap (λ h. receive h file_data []) (loop_head_done l left)
    ∙ receive_end (ended (exited 0)) file_data
    ∙ ap (λ b. record { sent = []; thread = ended (exited 0); file_data = b })
        (sym (write_at-nil file_data l.position))
receive-Numbered (p ∷ ps) pauses seq_num l file_data ((payload, e, pos, short), n) t s r left
      aligned =
    let (now, then_on) = Patient-head pauses t in
    subst
      (λ q.
        receive (loop_head l) file_data (delayed (q ∷ ps) pauses)
        ≡ completed seq_num (q ∷ ps) l.position file_data)
      (sym e)
      (receive_step l file_data (get_or pauses 0 0) seq_num payload ps (delayed ps (drop 1 pauses))
        now r s pos short size aligned
        (receive-Numbered ps (drop 1 pauses) (add_size seq_num 1) (moved l (length payload))
          (write_at file_data l.position payload) n then_on (add_size_small seq_num) refl
          (omega (arith, size)) (omega (arith, size))))
  where
    size : l.remaining ≡ length payload + length (payloads ps)
    size = left ∙ ap (λ q. length (payloads (q ∷ ps))) e ∙ length-payloads seq_num payload ps
