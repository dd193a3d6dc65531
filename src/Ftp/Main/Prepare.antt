-- ===== src/Ftp/Main/Prepare.antt =====
-- What `main` of ftp/client.c makes of the servers' file and of the size.
use network_protocol_cli_too.Common.{
  ℕ, ◌<◌, ◌^◌, ◌≡◌, ap, ◌∙◌, true, List, some, ltb, length, lt→ltb, length-take, ◌-◌, ◌++◌, min,
  pos, ok, arith,
}
use network_protocol_cli_too.CString.{Bytes, codes, c_str}
use network_protocol_cli_too.CString.Decimal.{print_zu}
use network_protocol_cli_too.CString.Signed.{atoi}
use network_protocol_cli_too.Transfer.Protocol.{ok_response, scan_ok}
use network_protocol_cli_too.Transfer.Protocol.RoundTrip.{scan_ok-ok_response, c_str-ok_response}
use network_protocol_cli_too.Transfer.Plan.{Server, DownloadTask, read_servers, plan}
use network_protocol_cli_too.Transfer.Plan.Cover.{plan-Covers, Covers}
use network_protocol_cli_too.Ftp.Server.{buffer_size}
use network_protocol_cli_too.Ftp.Main.{Environment, prepare}

-- What the environment answers when nothing fails.
pub record Answers (env : Environment) (servers : List Server) (file_size : ℕ) : Type 0 where
  pub info : Bytes
  pub readable : env.server_info ≡ some info
  pub table : read_servers env.old_port 10 info ≡ ok servers
  pub answered : env.response ≡ ok_response buffer_size file_size
  pub memory : env.has_memory ≡ true

length-ok_response : (n file_size : ℕ) → 0 < n → length (ok_response n file_size) < n
unfolding ok_response
length-ok_response n file_size h =
    omega (arith, length-take (n - 1) (codes "OK " ++ print_zu file_size))

module _ (env : Environment) (num_text filename : Bytes) (servers : List Server) (file_size n : ℕ)
    (answers : Answers env servers file_size) (number : atoi num_text ≡ pos n)
    (some_server : 0 < length servers) (not_empty : 0 < file_size) (fits : file_size < 2 ^ 64)
    (positive : 0 < n) (int_range : n < 2 ^ 31) where
  text : c_str env.response ≡ ok_response buffer_size file_size
  text = ap c_str answers.answered ∙ c_str-ok_response buffer_size file_size (omega arith)

  in_buffer : ltb (length (ok_response buffer_size file_size)) buffer_size ≡ true
  in_buffer = lt→ltb _ _ (length-ok_response buffer_size file_size (omega arith))

  size_read : scan_ok env.old_size (ok_response buffer_size file_size) ≡ file_size
  size_read = scan_ok-ok_response env.old_size buffer_size file_size (omega arith) (omega arith)

  prepare_steps :
      (tasks : List DownloadTask)
      → plan servers filename file_size (pos n) ≡ ok tasks
      → prepare env 4 num_text filename ≡ ok (file_size, tasks)
  unfolding prepare
  prepare_steps tasks planned =
      simp (
        answers.readable, answers.table, text, in_buffer, size_read, number, planned,
        answers.memory,
      )

  -- When the calls succeed, the table has a server, the number of connections is positive and the
  -- first server answers CHECK with the size of a file that is not empty, `main` makes one task for
  -- each connection or for each byte, whose chunks are not empty and lie one behind the other from 0
  -- to the file's end.
  pub prepare_lem :
      (tasks : List DownloadTask) × (prepare env 4 num_text filename ≡ ok (file_size, tasks))
      × (length tasks ≡ min n file_size)
      × Covers 0 file_size tasks
  prepare_lem =
      let (tasks, planned, len, covers) =
        plan-Covers servers filename file_size n some_server not_empty fits positive int_range in
      (tasks, prepare_steps tasks planned, len, covers)
