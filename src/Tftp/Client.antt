-- ===== src/Tftp/Client.antt =====
-- tftp/client.c: the thread `download_chunk`, and `main`. The operating system answers by arguments:
-- which calls succeed, and what each `recvfrom` returns. `file_data` is the buffer that all threads
-- share; a pointer into it is an index.
pub mod Receive
pub mod Threads
pub mod Paced
pub mod Serves
pub mod Schedule
pub mod Ends
use network_protocol_cli_too.Common.{
  ℕ, zero, suc, ◌+◌, ◌-◌, ◌≡◌, refl, Bool, true, false, ◌&&◌, List, [], ◌∷◌, ◌++◌, Option, none,
  some, ltb, ◌==◌, if◌then◌else◌, length, take, write_at, replicate, set, get_elem?, ℤ, Outcome, ok,
  exit_failure, fault, ◌>>=◌, ◌>>◌, exit_if, undefined_if,
}
use network_protocol_cli_too.CString.{Bytes, codes, c_str}
use network_protocol_cli_too.CString.Signed.{atoi}
use network_protocol_cli_too.Transfer.Protocol.{check_request, get_request, ack_packet, scan_ok}
use network_protocol_cli_too.Transfer.Plan.{Server, DownloadTask, read_servers, plan}
use network_protocol_cli_too.Tftp.Packet.{buffer_size, max_retries, packet_seq_num, packet_payload}

-- One `recvfrom` and the `sendto` of the ACK behind it: nothing in time (or an error, or an empty
-- datagram), or a datagram and whether the ACK can be sent.
pub data Event : Type 0 where
  timeout : Event
  datagram : Bytes → Bool → Event

-- The thread's end: the value that `pthread_join` hands to `main`, or undefined behaviour.
pub data Ended : Type 0 where
  exited : ℕ → Ended
  undefined : Ended

-- The variables of the loop: `task->output + task->size`, `bytes_remaining`, `output_ptr` and
-- `retry_count`.
pub record Loop : Type 0 where
  pub limit : ℕ
  pub remaining : ℕ
  pub position : ℕ
  pub retry_count : ℕ

pub data Thread : Type 0 where
  running : Loop → Thread
  ended : Ended → Thread

-- What one round of the loop does: what it sends, and what it leaves.
pub record Round : Type 0 where
  pub sent : List Bytes
  pub thread : Thread
  pub file_data : Bytes

-- `while (bytes_remaining > 0)`; behind the loop the thread exits with 0.
unfoldable pub loop_head : Loop → Thread
loop_head l = if l.remaining == 0 then ended (exited 0) else running l

-- Nothing received: at most `MAX_RETRIES` times in a row.
unfoldable pub retry : Loop → Thread
retry l =
    if ltb max_retries (l.retry_count + 1)
    then ended (exited 1)
    else running (record l { retry_count = l.retry_count + 1 })

-- The checks of a packet that has been acknowledged, and the copy of its payload. A packet that is
-- shorter than its sequence number makes `payload_size` negative, which passes both checks, and
-- `memcpy` gets a huge length.
unfoldable pub store : Loop → Bytes → Bytes → Thread × Bytes
unfolding loop_head
store l file_data packet =
    let n = length packet in
    let payload_size = n - 8 in
    if ltb n 8
    then (ended undefined, file_data)
    else if ltb l.remaining payload_size
    then (ended (exited 1), file_data)
    else if ltb l.limit (l.position + payload_size)
    then (ended (exited 1), file_data)
    else (
      loop_head (record l {
        remaining = l.remaining - payload_size;
        position = l.position + payload_size;
        retry_count = 0;
      }),
      write_at file_data l.position (packet_payload packet),
    )

-- One round of the loop. A packet is acknowledged before it is checked.
unfoldable pub round : Loop → Bytes → Event → Round
unfolding retry store
round l file_data timeout = record { sent = []; thread = retry l; file_data = file_data }
round l file_data (datagram bytes false) = record {
  sent = [];
  thread = ended (exited 1);
  file_data = file_data;
}
round l file_data (datagram bytes true) =
    let packet = take buffer_size bytes in
    let (thread, file_data') = store l file_data packet in
    record {
      sent = ack_packet buffer_size (packet_seq_num packet) ∷ [];
      thread = thread;
      file_data = file_data';
    }

-- A thread's events in order; those behind its end are not read.
unfoldable pub receive : Thread → Bytes → List Event → Round
unfolding round
receive t file_data [] = record { sent = []; thread = t; file_data = file_data }
receive (ended e) file_data (event ∷ events) = record {
  sent = [];
  thread = ended e;
  file_data = file_data;
}
receive (running l) file_data (event ∷ events) =
    let r = round l file_data event in
    let later = receive r.thread r.file_data events in record later { sent = r.sent ++ later.sent }

-- The loop's variables at its start.
unfoldable pub start : DownloadTask → Thread
unfolding loop_head
start task = loop_head (record {
  limit = task.output + task.size;
  remaining = task.size;
  position = task.output;
  retry_count = 0;
})

pub request_first : Bytes → Round → Round
request_first request r = record r { sent = request ∷ r.sent }

-- `download_chunk`. A socket that cannot be made, or a request that cannot be sent, ends the thread
-- by `pthread_exit(NULL)`, which is the value 0.
unfoldable pub download_chunk : Bool → Bool → List Event → DownloadTask → Bytes → Round
unfolding receive start request_first
download_chunk has_socket request_sent events task file_data =
    if has_socket && request_sent
    then request_first (get_request buffer_size task.filename task.offset task.size)
        (receive (start task) file_data events)
    else record { sent = []; thread = ended (exited 0); file_data = file_data }

-- The threads of `main` and the buffer that they share.
pub record System : Type 0 where
  pub threads : List Thread
  pub file_data : Bytes

-- A thread that has ended, or that there is not, does nothing.
unfoldable pub dispatch : System → ℕ → Event → Option Thread → System
unfolding round
dispatch s i event none = s
dispatch s i event (some (ended e)) = s
dispatch s i event (some (running l)) =
    let r = round l s.file_data event in
    record { threads = set s.threads i r.thread; file_data = r.file_data }

-- The threads run in any order: a schedule names the thread whose round is next, and its event.
unfoldable pub run : List (ℕ × Event) → System → System
unfolding dispatch
run [] s = s
run ((i, event) ∷ schedule) s = run schedule (dispatch s i event (get_elem? s.threads i))

-- `pthread_create` for each task
abbrev pub starts : List DownloadTask → List Thread
starts [] = []
starts (t ∷ ts) = start t ∷ starts ts
