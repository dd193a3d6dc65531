-- ===== src/Ftp/Main.antt =====
-- `main` of ftp/client.c: from the command line to the end of the threads.
pub mod Download
pub mod Prepare
pub mod Interleaved
use network_protocol_cli_too.Common.{
  ℕ, Bool, true, false, not, List, [], ◌∷◌, Option, none, some, ltb, ◌==◌, if◌then◌else◌, length,
  replicate, ℤ, Outcome, ok, exit_failure, fault, ◌>>=◌, ◌>>◌, exit_if, undefined_if,
}
use network_protocol_cli_too.CString.{Bytes, c_str}
use network_protocol_cli_too.CString.Signed.{atoi}
use network_protocol_cli_too.Transfer.Protocol.{scan_ok}
use network_protocol_cli_too.Transfer.Plan.{DownloadTask, read_servers, plan}
use network_protocol_cli_too.Ftp.Server.{buffer_size}
use network_protocol_cli_too.Ftp.Client.{Peer, download_chunk}

-- What `main` finds around it: the text of the servers' file, what `read` leaves of the answer to
-- CHECK (nothing where a call fails, since no result is looked at), and what `ports` and
-- `file_size` happen to hold.
pub record Environment : Type 0 where
  pub server_info : Option Bytes
  pub response : Bytes
  pub has_memory : Bool
  pub old_port : ℤ
  pub old_size : ℕ

required : Option Bytes → Outcome Bytes
required none = exit_failure
required (some s) = ok s

-- `main` up to the creation of the threads: the size of the file and the tasks. An answer that fills
-- the buffer has no NUL behind it.
unfoldable pub prepare : Environment → ℕ → Bytes → Bytes → Outcome (ℕ × List DownloadTask)
unfolding required
prepare env argc num_text filename = do
  exit_if (not (argc == 4))
  info ← required env.server_info
  servers ← read_servers env.old_port 10 info
  undefined_if (not (ltb (length (c_str env.response)) buffer_size))
  let file_size = scan_ok env.old_size (c_str env.response)
  tasks ← plan servers filename file_size (atoi num_text)
  exit_if (not env.has_memory)
  ok (file_size, tasks)

-- The threads over the shared buffer, one after the other.
unfoldable pub run_threads : List Peer → List DownloadTask → Bytes → Bytes
unfolding download_chunk
run_threads [] tasks file_data = file_data
run_threads (peer ∷ peers) [] file_data = file_data
run_threads (peer ∷ peers) (task ∷ tasks) file_data =
    run_threads peers tasks (download_chunk peer task file_data).file_data

-- What the threads leave in the buffer that `calloc` gives. `main` then goes on as in Transfer.Output.
unfoldable pub download : ℕ → List DownloadTask → List Peer → Bytes
unfolding run_threads
download file_size tasks peers = run_threads peers tasks (replicate file_size 0)
