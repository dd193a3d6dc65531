-- ===== src/Tftp/Main/Download.antt =====
-- The download as a whole.
use network_protocol_cli_too.Common.{
  ℕ, ◌<◌, ◌^◌, ◌≡◌, ◌≤◌, ltb, if◌then◌else◌, ◌||◌, not, Bool, fault, ap, subst, ◌∙◌, true, List,
  some, length, length-replicate, pos, ok, arith, min,
}
use network_protocol_cli_too.CString.{Bytes, c_str}
use network_protocol_cli_too.CString.Signed.{atoi}
use network_protocol_cli_too.Transfer.Protocol.{ok_response, scan_ok}
use network_protocol_cli_too.Transfer.Protocol.RoundTrip.{scan_ok-ok_response, c_str-ok_response}
use network_protocol_cli_too.Transfer.Plan.{Server, DownloadTask, read_servers, plan}
use network_protocol_cli_too.Transfer.Plan.Cover.{plan-Covers, Covers}
use network_protocol_cli_too.Transfer.Output.{int_size, finish_detached, finish_detached_lem}
use network_protocol_cli_too.Tftp.Packet.{buffer_size}
use network_protocol_cli_too.Tftp.Client.{Event}
use network_protocol_cli_too.Tftp.Client.Threads.{Follows, Succeeded, run-file}
use network_protocol_cli_too.Tftp.Main.{
  Environment, transfer, checked, asked, initial, prepare, download,
}

-- What the environment answers when nothing fails: the servers' file, the calls, and the size of
-- `file_size` bytes.
pub record Answers (env : Environment) (servers : List Server) (file_size : ℕ) : Type 0 where
  pub info : Bytes
  pub readable : env.server_info ≡ some info
  pub table : read_servers env.old_port 10 info ≡ ok servers
  pub socket : env.has_socket ≡ true
  pub asked : env.check_sent ≡ true
  pub answered : env.response ≡ some (ok_response buffer_size file_size)
  pub memory : env.has_memory ≡ true

module _ (env : Environment) (num_text filename : Bytes) (servers : List Server) (file_size n : ℕ)
    (answers : Answers env servers file_size) (number : atoi num_text ≡ pos n)
    (some_server : 0 < length servers) (not_empty : 0 < file_size) (fits : file_size < 2 ^ 64)
    (positive : 0 < n) (int_range : n < 2 ^ 31) where
  size_read : scan_ok env.old_size (c_str (ok_response buffer_size file_size)) ≡ file_size
  size_read =
      ap (scan_ok env.old_size) (c_str-ok_response buffer_size file_size (omega arith))
      ∙ scan_ok-ok_response env.old_size buffer_size file_size (omega arith) (omega arith)

  checked_lem :
      (tasks : List DownloadTask)
      → plan servers filename file_size (pos n) ≡ ok tasks
      → checked env servers filename (pos n) ≡ ok (transfer file_size tasks)
  unfolding checked
  checked_lem tasks p = rw (answers.answered, size_read, p, answers.memory)

  prepare_steps : prepare env 4 num_text filename ≡ checked env servers filename (pos n)
  unfolding prepare
  prepare_steps =
      simp (answers.readable, answers.table, answers.socket, number)
        (unfold asked in rw answers.asked)

  -- When all calls succeed, the table has a server, the number of connections is positive and the
  -- first server answers CHECK with the size of a file that is not empty, `main` comes to its
  -- threads, with one task for each connection or for each byte, whose chunks are not empty and
  -- lie one behind the other from 0 to the file's end.
  pub prepare-Covers :
      (tasks : List DownloadTask) × (prepare env 4 num_text filename
        ≡ ok (transfer file_size tasks))
      × (length tasks ≡ min n file_size)
      × Covers 0 file_size tasks
  prepare-Covers =
      let (tasks, planned, len, covers) =
        plan-Covers servers filename file_size n some_server not_empty fits positive int_range in
      (tasks, prepare_steps ∙ checked_lem tasks planned, len, covers)

  pub prepared-Covers :
      (tasks : List DownloadTask)
      → prepare env 4 num_text filename ≡ ok (transfer file_size tasks)
      → Covers 0 file_size tasks
  prepared-Covers tasks p =
      let (tasks', p', len, covers) = prepare-Covers in
      let same : tasks' ≡ tasks = cc in subst (Covers 0 file_size) same covers

-- For a file that is not empty and whose size fits `size_t`, a table of servers that is not empty,
-- a positive number of connections that fits an `int`, and calls that succeed: if `tasks` are the
-- tasks that `main` makes, each datagram brings a running thread what the file holds at its
-- position, and all threads exit with 0, then the shared buffer is the file, in whatever order the
-- threads run. If `output.dat` can be created and written whole, it is the file where a pointer is
-- no longer than an `int` and the system lets `pthread_detach` of a joined thread pass; else, as on
-- 64-bit machines, `main` is undefined behind the threads.
pub download-file :
    (file : Bytes) (env : Environment) (num_text filename : Bytes) (servers : List Server) (n : ℕ)
    → Answers env servers (length file)
    → atoi num_text ≡ pos n
    → 0 < length servers
    → 0 < length file
    → length file < 2 ^ 64
    → 0 < n
    → n < 2 ^ 31
    → (tasks : List DownloadTask) (schedule : List (ℕ × Event)) (pointer_size written : ℕ)
      (passes : Bool)
    → prepare env 4 num_text filename ≡ ok (transfer (length file) tasks)
    → Follows file schedule (initial (length file) tasks)
    → Succeeded (download (length file) tasks schedule).threads
    → length file ≤ written
    → ((download (length file) tasks schedule).file_data ≡ file)
      × (finish_detached pointer_size passes true written tasks
            (download (length file) tasks schedule).file_data
          ≡ (if ltb int_size pointer_size || not passes then fault else ok file))
download-file file env num_text filename servers n a t h p b q l tasks schedule size written passes
      e f z w =
    let covers =
      prepared-Covers env num_text filename servers (length file) n a t h p b q l tasks e in
    let whole : (download (length file) tasks schedule).file_data ≡ file =
      unfold download in
      run-file file _ tasks schedule covers (length-replicate (length file) 0) f
        (unfold download in z) in
    (whole, finish_detached_lem size written passes tasks file _ covers p w whole)
