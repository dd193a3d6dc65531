-- ===== src/Tftp/Server.antt =====
-- tftp/server.c: the receiving loop of `main` and the thread `handle_request`. The operating system
-- answers by arguments: what is received, what `sendto` returns, which files there are, and the
-- queue of acknowledgements at each moment when a thread holds its lock.
pub mod Chunks
pub mod Route
pub mod Get
pub mod Acked
pub mod Shared
pub mod Main
use network_protocol_cli_too.Common.{
  ℕ, zero, suc, ◌+◌, ◌-◌, ◌≡◌, refl, Bool, true, false, ◌||◌, List, [], ◌∷◌, ◌++◌, Option, none,
  some, ltb, leb, ◌==◌, if◌then◌else◌, length, take, drop, add_size, sub_size, min,
}
use network_protocol_cli_too.CString.{Bytes, codes, c_str, bytes_eq, starts_with}
use network_protocol_cli_too.Transfer.Protocol.{
  Params, scan_request, scan_ack, ok_response, not_found,
}
use network_protocol_cli_too.Tftp.Packet.{buffer_size, data_packet}
use network_protocol_cli_too.Tftp.AckQueue.{AckPacket, AckQueue, enqueue, take_ack}

-- `ClientRequest`, without the socket
pub record ClientRequest : Type 0 where
  pub params : Params
  pub open params use *
  pub client_addr : ℕ
  pub addr_len : ℕ

-- What becomes of one datagram in `main`: the queue with an ACK, and whether the threads are woken; a
-- request that is refused; a new thread; or a write behind the end of the buffer.
pub data Routed : Type 0 where
  ignored : Routed
  acknowledged : AckQueue → Bool → Routed
  malformed : Routed
  started : ClientRequest → Routed
  overflow : Routed

routed_ack : AckQueue × Bool → Routed
routed_ack (q, woken) = acknowledged q woken

routed_request : ℕ → ℕ → ℕ × Params → Routed
routed_request client_addr addr_len (count, params) =
    if ltb count 2
    then malformed
    else started (record { params = params; client_addr = client_addr; addr_len = addr_len })

-- A datagram that is shorter than the buffer. `old_params` and `old_seq_num` are what the fresh
-- request and `seq_num` happen to hold.
route_text : Params → ℕ → AckQueue → ℕ → ℕ → Bytes → Routed
unfolding routed_ack routed_request
route_text old_params old_seq_num q client_addr addr_len received =
    if starts_with (codes "ACK") (c_str received)
    then routed_ack (
        enqueue q (record {
          seq_num = scan_ack old_seq_num received;
          client_addr = client_addr;
          addr_len = addr_len;
        }))
    else routed_request client_addr addr_len (scan_request old_params (c_str received))

-- One round of `while (1)`. `none` stands for a `recvfrom` that fails, else at most `BUFFER_SIZE`
-- bytes are received, and `buffer[received] = '\0'`.
unfoldable pub route : Params → ℕ → AckQueue → ℕ → ℕ → Option Bytes → Routed
unfolding route_text
route old_params old_seq_num q client_addr addr_len none = ignored
route old_params old_seq_num q client_addr addr_len (some datagram) =
    let received = take buffer_size datagram in
    if leb buffer_size (length received)
    then overflow
    else route_text old_params old_seq_num q client_addr addr_len received

-- How far a thread has come: its end, or a wait that the rounds given do not end.
pub data Ended : Type 0 where
  done : Ended
  file_missing : Ended
  short_file : Ended
  send_failed : Ended
  sent_too_much : Ended
  process_exit : Ended
  waiting : Ended

-- What a thread has sent, the queues that it left when it took its ACKs, and how it ended.
pub record Served : Type 0 where
  pub sent : List Bytes
  pub queues : List AckQueue
  pub ended : Ended

-- What the environment does in one round of the sending loop: the result of `sendto` for a packet of
-- a given length, and the queue at each look under the lock, the first one and one for each wake-up.
pub record Round : Type 0 where
  pub sendto : ℕ → Option ℕ
  pub looks : List AckQueue

-- The result of a look, and what the later ones give.
looked : Option AckQueue → Bool × AckQueue → Option AckQueue
looked later (true, q) = some q
looked later (false, q) = later

-- `while (!ack_received)`: the queue when the ACK is taken. With no look left the thread waits.
unfoldable pub wait_ack : ℕ → ℕ → List AckQueue → Option AckQueue
unfolding looked
wait_ack seq_num client_addr [] = none
wait_ack seq_num client_addr (q ∷ looks) =
    looked (wait_ack seq_num client_addr looks) (take_ack seq_num client_addr q)

pub stop : Ended → Served
stop e = record { sent = []; queues = []; ended = e }

-- A packet that was sent before the rest
pub sent_first : Bytes → Served → Served
sent_first packet s = record s { sent = packet ∷ s.sent }

pub took_first : AckQueue → Served → Served
took_first q s = record s { queues = q ∷ s.queues }

-- Behind the wait: `later` is the rest of the loop from the next packet on.
pub after_ack : ℕ → ℕ → (ℕ → Served) → Option AckQueue → Served
unfolding stop took_first
after_ack remaining bytes_sent later none = stop waiting
after_ack remaining bytes_sent later (some q) =
    let payload_size = sub_size bytes_sent 8 in
    took_first q
      (if ltb remaining payload_size then stop sent_too_much else later (remaining - payload_size))

pub after_send : ℕ → ℕ → ℕ → List AckQueue → (ℕ → Served) → Option ℕ → Served
unfolding stop after_ack
after_send seq_num client_addr remaining looks later none = stop send_failed
after_send seq_num client_addr remaining looks later (some bytes_sent) =
    after_ack remaining bytes_sent later (wait_ack seq_num client_addr looks)

-- A packet with what `fread` read; nothing is read at the end of the file.
send_payload : ℕ → ℕ → ℕ → Round → (ℕ → Served) → Bytes → Served
unfolding stop sent_first after_send
send_payload seq_num client_addr remaining r later [] = stop short_file
send_payload seq_num client_addr remaining r later (b ∷ payload) =
    let packet = data_packet seq_num (b ∷ payload) in
    sent_first packet
      (after_send seq_num client_addr remaining r.looks later (r.sendto (length packet)))

-- `bytes_to_read`
abbrev pub payload_size_of : ℕ → ℕ
payload_size_of remaining = if ltb (buffer_size - 8) remaining then buffer_size - 8 else remaining

-- `while (bytes_remaining > 0)`; `rest` is the file from the read position on.
unfoldable pub send_chunk : ℕ → List Round → ℕ → ℕ → Bytes → Served
unfolding stop send_payload
send_chunk client_addr [] seq_num remaining rest = stop (if remaining == 0 then done else waiting)
send_chunk client_addr (r ∷ rounds) seq_num remaining rest =
    let payload = take (payload_size_of remaining) rest in
    let later = λ (left : ℕ).
      send_chunk client_addr rounds (add_size seq_num 1) left
        (drop (payload_size_of remaining) rest) in
    if remaining == 0 then stop done else send_payload seq_num client_addr remaining r later payload

-- `offset >= file_size || offset + chunk_size > file_size`, in `size_t`
abbrev pub out_of_range : ℕ → ℕ → ℕ → Bool
out_of_range file_size offset chunk_size =
    leb file_size offset || ltb file_size (add_size offset chunk_size)

reply : Bytes → Ended → Served
reply text e = record { sent = text ∷ []; queues = []; ended = e }

serve_check : Option Bytes → Served
unfolding reply
serve_check none = reply not_found file_missing
serve_check (some file) = reply (ok_response buffer_size (length file)) done

serve_get : ClientRequest → List Round → Option Bytes → Served
unfolding reply stop
serve_get request rounds none = reply not_found file_missing
serve_get request rounds (some file) =
    if out_of_range (length file) request.offset request.chunk_size
    then stop process_exit
    else send_chunk request.client_addr rounds 0 request.chunk_size (drop request.offset file)

-- `handle_request`, with the files that `fopen` finds
unfoldable pub handle_request : (Bytes → Option Bytes) → List Round → ClientRequest → Served
unfolding serve_check serve_get stop
handle_request fopen rounds request =
    if bytes_eq request.command (codes "CHECK")
    then serve_check (fopen request.filename)
    else if bytes_eq request.command (codes "GET")
    then serve_get request rounds (fopen request.filename)
    else stop done
