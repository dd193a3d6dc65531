-- ===== src/Transfer/Plan.antt =====
-- The servers' table and the split of a file into one chunk for each connection: the first part of
-- `main` of tftp/client.c, which ftp/client.c repeats.
pub mod Cover
pub mod Assemble
use network_protocol_cli_too.Common.{
  ℕ, zero, suc, ◌+◌, ◌-◌, ◌*◌, ◌/◌, ◌%◌, ◌≡◌, refl, Bool, true, false, ◌||◌, List, [], ◌∷◌, Option,
  none, some, ltb, ◌==◌, if◌then◌else◌, length, get_elem?, ℤ, pos, negsuc, as_size, to_int,
  add_size, sub_size, mul_size, ltb_ℤ, Outcome, ok, exit_failure, fault, ◌>>=◌, ◌>>◌, exit_if,
  undefined_if,
}
use network_protocol_cli_too.CString.{Bytes, codes}
use network_protocol_cli_too.CString.Scan.{scan_word}
use network_protocol_cli_too.CString.Signed.{scan_d}

pub record Server : Type 0 where
  pub server_ip : Bytes
  pub server_port : ℤ

-- `DownloadTask`. The pointer `output` is the index in `file_data` where it points.
pub record DownloadTask : Type 0 where
  pub server_ip : Bytes
  pub server_port : ℤ
  pub filename : Bytes
  pub offset : ℕ
  pub size : ℕ
  pub output : ℕ

-- What `%d` leaves: the port, which keeps its old value where there is no number, and the rest.
scan_port : ℤ → Bytes → Option (ℤ × Bytes) → ℤ × Bytes
scan_port old s none = (old, s)
scan_port old s (some (port, rest)) = (port, rest)

-- `while (fscanf(file, "%s %d", servers[server_count], &ports[server_count]) != EOF)`, with `room`
-- rows of the two arrays left. A word of 256 bytes or an eleventh row is written out of bounds.
-- The rows of `ports` hold `old` before.
unfoldable pub read_servers : ℤ → ℕ → Bytes → Outcome (List Server)
unfolding scan_port scan_word scan_d
read_servers old zero s = elim (scan_word (length s) s) [ none ↦ ok [] | some (w, rest) ↦ fault ]
read_servers old (suc room) s = elim (scan_word (length s) s) [
  | none ↦ ok []
  | some (ip, rest) ↦
      let (port, after) = scan_port old rest (scan_d rest) in
      let others = read_servers old room after in
      do
        undefined_if (ltb 255 (length ip))
        servers ← others
        ok (record { server_ip = ip; server_port = port } ∷ servers)
]

-- "Reducing connections": the comparison is made in `size_t`.
unfoldable pub connections : ℕ → ℤ → ℤ
connections file_size num_connections =
    if ltb file_size (as_size num_connections) then to_int file_size else num_connections

-- `file_size / num_connections`, at least 1
unfoldable pub chunk_size_of : ℕ → ℤ → Outcome ℕ
chunk_size_of file_size num = do
  undefined_if (as_size num == 0)
  let chunk_size = file_size / as_size num
  ok (if ltb chunk_size 1 then 1 else chunk_size)

-- `servers[i % server_count]`
server_for : List Server → ℕ → Outcome Server
server_for servers i = do
  undefined_if (length servers == 0)
  elim (get_elem? servers (i % length servers)) [ none ↦ fault | some s ↦ ok s ]

unfoldable pub task_offset : ℕ → ℕ → ℕ
task_offset chunk_size i = mul_size i chunk_size

-- The last task takes what is left.
unfoldable pub task_size : ℕ → ℕ → ℕ → ℕ → ℕ
task_size file_size chunk_size num i =
    if i == num - 1 then sub_size file_size (mul_size chunk_size i) else chunk_size

-- The check of a task's bounds.
checked_task : ℕ → Server → Bytes → ℕ → ℕ → Outcome DownloadTask
checked_task file_size s filename offset size = do
  exit_if (size == 0 || ltb file_size (add_size offset size))
  ok (record {
    server_ip = s.server_ip;
    server_port = s.server_port;
    filename = filename;
    offset = offset;
    size = size;
    output = offset;
  })

-- Task `i` of `num`
unfoldable pub make_task : List Server → Bytes → ℕ → ℕ → ℕ → ℕ → Outcome DownloadTask
unfolding server_for checked_task task_offset task_size
make_task servers filename file_size chunk_size num i = do
  s ← server_for servers i
  checked_task file_size s filename (task_offset chunk_size i)
      (task_size file_size chunk_size num i)

-- `for (int i = 0; i < num_connections; i++)`, with `rounds` rounds left
unfoldable pub make_tasks : List Server → Bytes → ℕ → ℕ → ℕ → ℕ → ℕ → Outcome (List DownloadTask)
unfolding make_task
make_tasks servers filename file_size chunk_size num i zero = ok []
make_tasks servers filename file_size chunk_size num i (suc rounds) = do
  t ← make_task servers filename file_size chunk_size num i
  ts ← make_tasks servers filename file_size chunk_size num (i + 1) rounds
  ok (t ∷ ts)

-- The arrays of `num` threads and tasks need a positive length.
array_length : ℤ → Outcome ℕ
array_length (pos zero) = fault
array_length (pos (suc n)) = ok (suc n)
array_length (negsuc n) = fault

-- The chunk size and the loop, for `num` connections.
plan_for : List Server → Bytes → ℕ → ℤ → Outcome (List DownloadTask)
unfolding chunk_size_of array_length make_tasks
plan_for servers filename file_size num = do
  chunk_size ← chunk_size_of file_size num
  n ← array_length num
  make_tasks servers filename file_size chunk_size n 0 n

-- From the file size that the server reports to the tasks.
unfoldable pub plan : List Server → Bytes → ℕ → ℤ → Outcome (List DownloadTask)
unfolding connections plan_for
plan servers filename file_size num_connections = do
  exit_if (file_size == 0)
  plan_for servers filename file_size (connections file_size num_connections)
