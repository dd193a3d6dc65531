-- ===== src/Transfer/Plan/Cover.antt =====
-- How the chunks of a plan lie in the file.
use network_protocol_cli_too.Common.{
  ℕ, zero, suc, ◌+◌, ◌-◌, ◌*◌, ◌/◌, ◌%◌, ◌^◌, ◌≤◌, ◌<◌, ◌≡◌, refl, ap, ◌∙◌, List, [], ◌∷◌, arith,
  ◌==◌, length, get_elem?-some, pos, ok, exit_if, min,
}
use network_protocol_cli_too.CString.{Bytes}
use native.Mathlib.Nat.{mod-lt, mod-eq_of_lt, mul_comm, zero-mul}
use network_protocol_cli_too.Transfer.Plan.{
  Server, DownloadTask, checked_task, task_offset, task_size, connections, chunk_size_of,
  server_for, make_task, make_tasks, plan_for, plan,
}

-- The tasks go from `a` to `b` without a gap, and none is empty.
abbrev pub Covers : ℕ → ℕ → List DownloadTask → Type 0
Covers a b [] = a ≡ b
Covers a b (t ∷ ts) = (t.offset ≡ a) × (t.output ≡ a) × (0 < t.size) × Covers (a + t.size) b ts

server_for_ok :
    (servers : List Server) (i : ℕ)
    → 0 < length servers
    → (s : Server) × (server_for servers i ≡ ok s)
unfolding server_for
server_for_ok servers i h =
    let (s, e) = get_elem?-some servers (i % length servers) (mod-lt i h) in (s, ground arith)

-- The task that a check lets pass.
abbrev task_at : Server → Bytes → ℕ → ℕ → DownloadTask
task_at s filename offset size = record {
  server_ip = s.server_ip;
  server_port = s.server_port;
  filename = filename;
  offset = offset;
  size = size;
  output = offset;
}

checked_task_ok :
    (file_size : ℕ) (s : Server) (filename : Bytes) (offset size : ℕ)
    → file_size < 2 ^ 64
    → 0 < size
    → offset + size ≤ file_size
    → checked_task file_size s filename offset size ≡ ok (task_at s filename offset size)
unfolding checked_task
checked_task_ok file_size s filename offset size b p h = ground arith

task_offset_small :
    (chunk_size i : ℕ) → i * chunk_size < 2 ^ 64 → task_offset chunk_size i ≡ i * chunk_size
unfolding task_offset
task_offset_small chunk_size i h = mod-eq_of_lt h

task_size_inner :
    (file_size chunk_size num i : ℕ)
    → suc i < num
    → task_size file_size chunk_size num i ≡ chunk_size
unfolding task_size
task_size_inner file_size chunk_size num i h = ground arith

task_size_last :
    (file_size chunk_size i : ℕ)
    → i * chunk_size ≤ file_size
    → file_size < 2 ^ 64
    → task_size file_size chunk_size (suc i) i ≡ file_size - i * chunk_size
unfolding task_size
task_size_last file_size chunk_size i h b =
    ground (arith, mul_comm chunk_size i, mod-eq_of_lt {n = i * chunk_size} {m = 2 ^ 64})

module _ (servers : List Server) (filename : Bytes) (file_size chunk_size : ℕ)
    (some_server : 0 < length servers) (fits : file_size < 2 ^ 64) (nonempty : 0 < chunk_size) where
  make_task_at :
      (num i size : ℕ)
      → task_size file_size chunk_size num i ≡ size
      → 0 < size
      → i * chunk_size + size ≤ file_size
      → (t : DownloadTask) × (make_task servers filename file_size chunk_size num i ≡ ok t)
        × (t.offset ≡ i * chunk_size)
        × (t.output ≡ i * chunk_size)
        × (t.size ≡ size)
  unfolding make_task
  make_task_at num i size e p h =
      let (s, found) = server_for_ok servers i some_server in
      (
        task_at s filename (i * chunk_size) size,
        rw (found, task_offset_small chunk_size i (omega arith), e)
            (checked_task_ok file_size s filename (i * chunk_size) size fits p h),
        refl,
        refl,
        refl,
      )

  -- The loop from round `i` on, if `num` whole chunks fit into the file.
  make_tasks-Covers :
      (num i rounds : ℕ)
      → i + suc rounds ≡ num
      → num * chunk_size ≤ file_size
      → (ts : List DownloadTask) × (make_tasks servers filename file_size chunk_size num i
            (suc rounds)
          ≡ ok ts)
        × (length ts ≡ suc rounds)
        × Covers (i * chunk_size) file_size ts
  unfolding make_tasks
  make_tasks-Covers num i zero e h =
      let room : i * chunk_size + chunk_size ≤ file_size = omega (arith, rw (← e) at h) in
      let last : task_size file_size chunk_size num i ≡ file_size - i * chunk_size =
        ap (λ n. task_size file_size chunk_size n i) (omega arith)
        ∙ task_size_last file_size chunk_size i (omega arith) fits in
      let (t, made, o, p, s) =
        make_task_at num i (file_size - i * chunk_size) last (omega arith) (omega arith) in
      (t ∷ [], rw made refl, refl, (o, p, omega arith, omega arith))
  make_tasks-Covers num i (suc rounds) e h =
      let h' : (i + suc (suc rounds)) * chunk_size ≤ file_size = rw (← e) at h in
      let room : i * chunk_size + chunk_size ≤ file_size = grind arith in
      let (t, made, o, p, s) =
        make_task_at num i chunk_size (task_size_inner file_size chunk_size num i (omega arith))
          nonempty room in
      let (ts, e', l, c) = make_tasks-Covers num (i + 1) rounds (omega arith) h in
      let next : (i + 1) * chunk_size ≡ i * chunk_size + t.size = omega arith in
      (t ∷ ts, cc (made, e'), ap suc l, (o, p, omega arith, rw (← next) c))

-- The chunk size of at least one connection, and at most one for each byte.
chunk_size_of_ok :
    (file_size n : ℕ) → 0 < n → n ≤ file_size → chunk_size_of file_size (pos n) ≡ ok (file_size / n)
unfolding chunk_size_of
chunk_size_of_ok file_size n p h = ground arith

connections_lem :
    (file_size n : ℕ) → n < 2 ^ 31 → connections file_size (pos n) ≡ pos (min n file_size)
unfolding connections
connections_lem file_size n h = ground arith

plan_for_lem :
    (servers : List Server) (filename : Bytes) (file_size n : ℕ)
    → 0 < n
    → n ≤ file_size
    → plan_for servers filename file_size (pos n)
      ≡ make_tasks servers filename file_size (file_size / n) n 0 n
unfolding plan_for
plan_for_lem servers filename file_size zero p l = absurd (omega arith)
plan_for_lem servers filename file_size (suc n) p l = rw (chunk_size_of_ok file_size (suc n) p l)

plan_for-Covers :
    (servers : List Server) (filename : Bytes) (file_size n : ℕ)
    → 0 < length servers
    → file_size < 2 ^ 64
    → 0 < n
    → n ≤ file_size
    → (ts : List DownloadTask) × (plan_for servers filename file_size (pos n) ≡ ok ts)
      × (length ts ≡ n)
      × Covers 0 file_size ts
plan_for-Covers servers filename file_size zero h b p l = absurd (omega arith)
plan_for-Covers servers filename file_size (suc n) h b p l =
    let (ts, made, len, c) =
      make_tasks-Covers servers filename file_size (file_size / suc n) h b (grind arith) (suc n) 0 n
        (omega arith) (grind arith) in
    (
      ts,
      plan_for_lem servers filename file_size (suc n) p l ∙ made,
      len,
      rw (zero-mul (file_size / suc n)) at c,
    )

plan_lem :
    (servers : List Server) (filename : Bytes) (file_size n : ℕ)
    → 0 < file_size
    → n < 2 ^ 31
    → plan servers filename file_size (pos n)
      ≡ plan_for servers filename file_size (pos (min n file_size))
unfolding plan
plan_lem servers filename file_size n p l = rw (not_empty, connections_lem file_size n l)
  where
    not_empty : exit_if (file_size == 0) ≡ ok tt
    not_empty = ground arith

-- With a server in the table, a positive number of connections and a file that is not empty, the
-- plan succeeds: one task for each connection, or for each byte if there are fewer, and the chunks
-- lie one behind the other from 0 to the file's end, none of them empty.
pub plan-Covers :
    (servers : List Server) (filename : Bytes) (file_size n : ℕ)
    → 0 < length servers
    → 0 < file_size
    → file_size < 2 ^ 64
    → 0 < n
    → n < 2 ^ 31
    → (ts : List DownloadTask) × (plan servers filename file_size (pos n) ≡ ok ts)
      × (length ts ≡ min n file_size)
      × Covers 0 file_size ts
plan-Covers servers filename file_size n h p b q l =
    let (ts, made, len, c) =
      plan_for-Covers servers filename file_size (min n file_size) h b (omega arith)
        (omega arith) in
    (ts, plan_lem servers filename file_size n p l ∙ made, len, c)
