-- ===== src/Tests/Tftp.antt =====
-- A download of three bytes over UDP from one server, as client and server run it.
mod Served
mod Shared
use network_protocol_cli_too.Transfer.Output.{finish_detached}
use network_protocol_cli_too.Common.{
  ℕ, fault, ◌≡◌, inr, refl, true, List, [], ◌∷◌, ◌++◌, Option, some, arith, if◌then◌else◌, length,
  min, slice, replicate, pos, ok,
}
use network_protocol_cli_too.CString.{Bytes, codes, c_str}
use network_protocol_cli_too.CString.Signed.{atoi}
use network_protocol_cli_too.Transfer.Protocol.{ok_response, scan_ok}
use network_protocol_cli_too.Transfer.Plan.{Server, DownloadTask, read_servers, plan}
use network_protocol_cli_too.Transfer.Plan.Cover.{Covers}
use network_protocol_cli_too.Tftp.Packet.{buffer_size, data_packet}
use network_protocol_cli_too.Tftp.AckQueue.{AckPacket, AckQueue, take_ack, max_queue_size}
use network_protocol_cli_too.Tftp.AckQueue.Refine.{IsValid}
use network_protocol_cli_too.Tftp.Server.{
  ClientRequest, done, Round, wait_ack, send_chunk, handle_request,
}
use network_protocol_cli_too.Tftp.Server.Chunks.{payloads, Numbered, IsPrefix, send_chunk-IsPrefix}
use network_protocol_cli_too.Tftp.Server.Get.{get_lem}
use network_protocol_cli_too.Tftp.Client.{Event, datagram, run, start, loop_head, round, store}
use network_protocol_cli_too.Tftp.Client.Threads.{Follows, Succeeded}
use network_protocol_cli_too.Tftp.Main.{Environment, transfer, prepare, initial, download}
use network_protocol_cli_too.Tftp.Main.Download.{Answers, prepare-Covers, download-file}

abbrev file : Bytes
file = codes "abc"

abbrev name : Bytes
name = codes "f"

abbrev fopen : Bytes → Option Bytes
fopen n = some file

-- The server

abbrev ack : AckPacket
ack = record { seq_num = 0; client_addr = 7; addr_len = 16 }

abbrev queue : AckQueue
queue = record { slots = replicate max_queue_size ack; size = 1 }

queue-IsValid : IsValid queue
queue-IsValid = record { storage = refl; bounded = omega arith }

abbrev rounds : List Round
rounds = record { sendto = λ n. some n; looks = queue ∷ [] } ∷ []

abbrev request : ℕ → ClientRequest
request offset = record {
  params = record { command = codes "GET"; filename = name; offset = offset; chunk_size = 3 };
  client_addr = 7;
  addr_len = 16;
}

ack_taken : (q : AckQueue) × (wait_ack 0 7 (queue ∷ []) ≡ some q)
unfolding wait_ack take_ack
ack_taken = (_, refl)

get_lem_example :
    let s = handle_request fopen rounds (request 0) in
    (s.ended ≡ done) × (payloads s.sent ≡ slice file 0 3) × Numbered 0 s.sent
get_lem_example =
    get_lem fopen rounds (request 0) file refl refl (omega arith) (omega arith) (omega arith)
      (λ n. refl, ack_taken, tt) (omega arith)

send_chunk-IsPrefix_example : IsPrefix 0 (codes "abc") (send_chunk 7 rounds 0 3 (codes "abcd"))
send_chunk-IsPrefix_example =
    send_chunk-IsPrefix 7 rounds 0 3 (codes "abcd") (λ n. inr refl, tt) (omega arith)

-- The client

abbrev server : Server
server = record { server_ip = codes "10.0.0.1"; server_port = pos 80 }

abbrev env : Environment
env = record {
  server_info = some (codes "10.0.0.1 80\n");
  has_socket = true;
  check_sent = true;
  response = some (ok_response buffer_size 3);
  has_memory = true;
  old_port = pos 0;
  old_size = 0;
}

table : read_servers (pos 0) 10 (codes "10.0.0.1 80\n") ≡ ok (server ∷ [])
unfolding read_servers
table = refl

env-Answers : Answers env (server ∷ []) 3
env-Answers = record {
  info = codes "10.0.0.1 80\n";
  readable = refl;
  table = table;
  socket = refl;
  asked = refl;
  answered = refl;
  memory = refl;
}

one : atoi (codes "1") ≡ pos 1
unfolding atoi
one = refl

prepare-Covers_example :
    (tasks : List DownloadTask) × (prepare env 4 (codes "1") name ≡ ok (transfer 3 tasks))
    × (length tasks ≡ min 1 3)
    × Covers 0 3 tasks
prepare-Covers_example =
    prepare-Covers env (codes "1") name (server ∷ []) 3 1 env-Answers one (omega arith)
      (omega arith) (omega arith) (omega arith) (omega arith)

abbrev task : DownloadTask
task = record {
  server_ip = codes "10.0.0.1";
  server_port = pos 80;
  filename = name;
  offset = 0;
  size = 3;
  output = 0;
}

abbrev schedule : List (ℕ × Event)
schedule = (0, datagram (data_packet 0 file) true) ∷ []

prepared : prepare env 4 (codes "1") name ≡ ok (transfer 3 (task ∷ []))
unfolding prepare read_servers ok_response scan_ok c_str plan atoi
prepared = refl

follows : Follows file schedule (initial 3 (task ∷ []))
unfolding start loop_head data_packet
follows = ((omega arith, omega arith, omega arith, refl), tt)

succeeded : Succeeded (download 3 (task ∷ []) schedule).threads
unfolding download run start loop_head round store data_packet
succeeded = tt

download-file_example :
    ((download 3 (task ∷ []) schedule).file_data ≡ codes "abc")
    × (finish_detached 8 true true 3 (task ∷ []) (download 3 (task ∷ []) schedule).file_data
        ≡ fault)
download-file_example =
    download-file file env (codes "1") name (server ∷ []) 1 env-Answers one (omega arith)
      (omega arith) (omega arith) (omega arith) (omega arith) (task ∷ []) schedule 8 3 true prepared
      follows succeeded (omega arith)
