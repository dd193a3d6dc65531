-- ===== src/Tftp/Main.antt =====
-- `main` of tftp/client.c: from the command line to the end of the threads.
pub mod Download
pub mod Served
use network_protocol_cli_too.Common.{
  ℕ, Bool, true, false, not, List, [], ◌∷◌, Option, none, some, ◌==◌, if◌then◌else◌, replicate, ℤ,
  Outcome, ok, exit_failure, fault, ◌>>=◌, ◌>>◌, exit_if,
}
use network_protocol_cli_too.CString.{Bytes, c_str}
use network_protocol_cli_too.CString.Signed.{atoi}
use network_protocol_cli_too.Transfer.Protocol.{check_request, scan_ok}
use network_protocol_cli_too.Transfer.Plan.{Server, DownloadTask, read_servers, plan}
use network_protocol_cli_too.Tftp.Packet.{buffer_size}
use network_protocol_cli_too.Tftp.Client.{Event, System, run, starts}

-- What `main` finds around it: the text of the servers' file, the results of the calls, the answer
-- to CHECK (`none` if `recvfrom` returns 0 or less), and what `ports` and `file_size` happen to hold.
pub record Environment : Type 0 where
  pub server_info : Option Bytes
  pub has_socket : Bool
  pub check_sent : Bool
  pub response : Option Bytes
  pub has_memory : Bool
  pub old_port : ℤ
  pub old_size : ℕ

required : Option Bytes → Outcome Bytes
required none = exit_failure
required (some s) = ok s

-- What `main` goes on to do: nothing (`pthread_exit` of the only thread), or the tasks of a download
-- of `file_size` bytes.
pub data Plan : Type 0 where
  quit : Plan
  transfer : ℕ → List DownloadTask → Plan

-- The answer to CHECK and the plan.
checked : Environment → List Server → Bytes → ℤ → Outcome Plan
unfolding required
checked env servers filename num_connections = do
  response ← required env.response
  let file_size = scan_ok env.old_size (c_str response)
  tasks ← plan servers filename file_size num_connections
  exit_if (not env.has_memory)
  ok (transfer file_size tasks)

-- The request for the size. Where it cannot be sent, `main` ends by `pthread_exit`.
asked : Environment → List Server → Bytes → ℤ → Outcome Plan
unfolding checked
asked env servers filename num_connections =
    if env.check_sent then checked env servers filename num_connections else ok quit

-- `main` up to the creation of the threads, for `argc` arguments, the second and third of which are
-- the number of connections and the file's name.
unfoldable pub prepare : Environment → ℕ → Bytes → Bytes → Outcome Plan
unfolding required asked
prepare env argc num_text filename = do
  exit_if (not (argc == 4))
  info ← required env.server_info
  servers ← read_servers env.old_port 10 info
  exit_if (not env.has_socket)
  asked env servers filename (atoi num_text)

-- The threads before their first round, over the buffer that `calloc` gives.
abbrev pub initial : ℕ → List DownloadTask → System
initial file_size tasks = record { threads = starts tasks; file_data = replicate file_size 0 }

-- The threads in the order of a schedule, with the shared buffer that they leave. `main` then goes on
-- as in Transfer.Output.
unfoldable pub download : ℕ → List DownloadTask → List (ℕ × Event) → System
download file_size tasks schedule = run schedule (initial file_size tasks)
