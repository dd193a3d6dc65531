-- ===== src/Tests/Ftp.antt =====
-- A download of three bytes over TCP.
use network_protocol_cli_too.Common.{
  ℕ, ◌≤◌, ◌<◌, ◌≡◌, refl, true, false, List, [], ◌∷◌, Option, some, arith, pos,
}
use network_protocol_cli_too.CString.{Bytes, codes, IsWordChar-space}
use network_protocol_cli_too.Transfer.Protocol.{Params, get_request}
use network_protocol_cli_too.Transfer.Protocol.RoundTrip.{IsFilename}
use network_protocol_cli_too.Transfer.Plan.{DownloadTask}
use network_protocol_cli_too.Ftp.Server.{
  buffer_size, closed, Next, block, send_blocks, handle_client,
}
use network_protocol_cli_too.Ftp.Server.Stream.{Writes, to_go, IsPrefix, send_blocks-IsPrefix}
use network_protocol_cli_too.Ftp.Server.Get.{handle_client-get}
use network_protocol_cli_too.Ftp.Server.Main.{Connection}
use network_protocol_cli_too.Ftp.Client.{Peer, connect_loop}
use network_protocol_cli_too.Ftp.Client.Receive.{Connects}
use network_protocol_cli_too.Common.{ok, fault}
use network_protocol_cli_too.Transfer.Output.{finish}
use network_protocol_cli_too.CString.Signed.{atoi}
use network_protocol_cli_too.Transfer.Protocol.{ok_response}
use network_protocol_cli_too.Transfer.Plan.{Server, read_servers}
use network_protocol_cli_too.Ftp.Main.Prepare.{Answers}
use network_protocol_cli_too.Ftp.Main.{Environment, run_threads, download}
use network_protocol_cli_too.Ftp.Client.Writes.{Write, apply_all, writes_of, thread_writes}
use network_protocol_cli_too.Ftp.Main.Interleaved.{
  done, first, second, Interleaves, run_threads-Interleaves,
}
use network_protocol_cli_too.Ftp.Main.Download.{IsServed, download-served}

abbrev file : Bytes
file = codes "abc"

abbrev name : Bytes
name = codes "f"

abbrev fopen : Bytes → Option Bytes
fopen n = some file

abbrev old : Params
old = record { command = []; filename = []; offset = 0; chunk_size = 0 }

name-IsFilename : IsFilename name
name-IsFilename = (omega arith, omega arith, (IsWordChar-space 102 (omega arith), tt))

-- Each `write` takes what it is given.
abbrev writes : List (ℕ → Option ℕ)
writes = (λ n. some n) ∷ (λ n. some n) ∷ (λ n. some n) ∷ []

taken : (c : ℕ) → 0 < c → (n : ℕ) × (some c ≡ some n) × (0 < n) × (n ≤ c)
taken c p = (c, refl, p, omega arith)

writes-Writes : Writes writes
writes-Writes = (taken, (taken, (taken, tt)))

handle_client-get_example :
    handle_client old fopen writes (some (get_request buffer_size name 0 3))
    ≡ record { sent = codes "abc"; ended = closed }
handle_client-get_example =
    handle_client-get old fopen writes file name 0 3 name-IsFilename refl (omega arith)
      (omega arith) (omega arith) (omega arith) (omega arith) writes-Writes (omega arith)

-- One client is served, and the next one asks for too much.
abbrev connection : ℕ → Connection
connection offset = record {
  old = old;
  request = some (get_request buffer_size name offset 3);
  writes = writes;
}

abbrev next : Next
next = block (record { buffer = file; to_send = 2; total = 1; remaining = 4; rest = codes "de" })

send_blocks-IsPrefix_example : IsPrefix (to_go next) (send_blocks writes next)
send_blocks-IsPrefix_example =
    send_blocks-IsPrefix writes next writes-Writes
      (omega arith, omega arith, omega arith, omega arith, omega arith, omega arith)

abbrev task : DownloadTask
task = record {
  server_ip = codes "10.0.0.1";
  server_port = pos 80;
  filename = name;
  offset = 0;
  size = 3;
  output = 0;
}

abbrev peer : Peer
peer = record {
  has_socket = true;
  connects = false ∷ true ∷ [];
  request_written = true;
  stream = (handle_client old fopen writes (some (get_request buffer_size name 0 3))).sent;
  counts = 2 ∷ 1 ∷ 1 ∷ [];
}

connected : connect_loop (false ∷ true ∷ []) 3 ≡ some 2
unfolding connect_loop
connected = refl

peer-Connects : Connects peer task
peer-Connects = record {
  socket = refl;
  left = 1;
  connects = connected;
  written = refl;
  some_bytes = (omega arith, (omega arith, (omega arith, tt)));
  enough = omega arith;
}

peer-IsServed : IsServed old fopen file peer task
peer-IsServed = record {
  usable = name-IsFilename;
  found = refl;
  writes = writes;
  works = writes-Writes;
  enough = omega arith;
  brings = refl;
}

download-served_example :
    (download 3 (task ∷ []) (peer ∷ []) ≡ codes "abc")
    × (finish 8 true 3 (task ∷ []) (download 3 (task ∷ []) (peer ∷ [])) ≡ fault)
download-served_example =
    download-served old fopen file (omega arith) (peer ∷ []) (task ∷ []) 8 3
      (refl, refl, omega arith, refl) (peer-Connects, peer-IsServed, tt) (omega arith) (omega arith)

abbrev server : Server
server = record { server_ip = codes "10.0.0.1"; server_port = pos 80 }

abbrev env : Environment
env = record {
  server_info = some (codes "10.0.0.1 80\n");
  response = ok_response buffer_size 3;
  has_memory = true;
  old_port = pos 0;
  old_size = 0;
}

table : read_servers (pos 0) 10 (codes "10.0.0.1 80\n") ≡ ok (server ∷ [])
unfolding read_servers
table = refl

env-Answers : Answers env (server ∷ []) 3
env-Answers = record {
  info = codes "10.0.0.1 80\n";
  readable = refl;
  table = table;
  answered = refl;
  memory = refl;
}

two : atoi (codes "2") ≡ pos 2
unfolding atoi
two = refl

-- Two threads, whose three calls of `recv` come in the order first, second, first.
abbrev part : ℕ → ℕ → DownloadTask
part offset size = record {
  server_ip = codes "10.0.0.1";
  server_port = pos 80;
  filename = name;
  offset = offset;
  size = size;
  output = offset;
}

abbrev bringing : Bytes → Peer
bringing stream = record {
  has_socket = true;
  connects = true ∷ [];
  request_written = true;
  stream = stream;
  counts = 1 ∷ 1 ∷ [];
}

abbrev mixed : List Write
mixed = (0, codes "a") ∷ (2, codes "c") ∷ (1, codes "b") ∷ []

mixed-Interleaves :
    Interleaves (bringing (codes "ab") ∷ bringing (codes "c") ∷ []) (part 0 2 ∷ part 2 1 ∷ []) mixed
unfolding thread_writes writes_of connect_loop
mixed-Interleaves = (
  (2, codes "c") ∷ [],
  ([], refl, first (2, codes "c") done),
  first (0, codes "a") (second (2, codes "c") (first (1, codes "b") done)),
)

run_threads-Interleaves_example :
    apply_all mixed (codes "xxx")
    ≡ run_threads
        (bringing (codes "ab") ∷ bringing (codes "c") ∷ [])
        (part 0 2 ∷ part 2 1 ∷ [])
        (codes "xxx")
run_threads-Interleaves_example =
    run_threads-Interleaves (bringing (codes "ab") ∷ bringing (codes "c") ∷ [])
      (part 0 2 ∷ part 2 1 ∷ []) 0 3 mixed (codes "xxx")
      (refl, refl, omega arith, (refl, refl, omega arith, refl)) mixed-Interleaves
