-- ===== src/Transfer/Plan/Assemble.antt =====
-- The chunks of a plan, put together in a buffer.
use network_protocol_cli_too.Common.{
  ℕ, ◌+◌, ◌≤◌, ◌≡◌, sym, ap, ◌∙◌, List, [], ◌∷◌, ◌++◌, arith, length, slice, write_at,
  write_at-append, write_at-nil, slice-add, length-slice, take_all, write_at_all,
}
use network_protocol_cli_too.CString.{Bytes}
use network_protocol_cli_too.Transfer.Plan.{DownloadTask}
use network_protocol_cli_too.Transfer.Plan.Cover.{Covers}

-- What a task is to fetch of the file.
abbrev pub chunk : Bytes → DownloadTask → Bytes
chunk file t = slice file t.offset t.size

-- Every task's thread has copied its chunk to where its `output` points.
unfoldable pub store_chunks : Bytes → Bytes → List DownloadTask → Bytes
store_chunks file file_data [] = file_data
store_chunks file file_data (t ∷ ts) =
    store_chunks file (write_at file_data t.output (chunk file t)) ts

pub Covers-le : (a b : ℕ) (ts : List DownloadTask) → Covers a b ts → a ≤ b
Covers-le a b [] c = omega arith
Covers-le a b (t ∷ ts) c = omega (arith, Covers-le (a + t.size) b ts c.3)

-- With the first `a` bytes of the file in place, tasks that go from `a` to `b` put the first `b`
-- bytes in place.
store_chunks-prefix :
    (file file_data : Bytes) (a b : ℕ) (ts : List DownloadTask)
    → Covers a b ts
    → b ≤ length file
    → store_chunks file (write_at file_data 0 (slice file 0 a)) ts
      ≡ write_at file_data 0 (slice file 0 b)
unfolding store_chunks
store_chunks-prefix file file_data a b [] c h = ap (λ k. write_at file_data 0 (slice file 0 k)) c
store_chunks-prefix file file_data a b (t ∷ ts) c h =
    ap (λ d. store_chunks file d ts) extended
    ∙ store_chunks-prefix file file_data (a + t.size) b ts c.3 h
  where
    behind : t.output ≡ 0 + length (slice file 0 a)
    behind = omega (arith, c, length-slice file 0 a, Covers-le (a + t.size) b ts c.3)

    joined : slice file 0 a ++ chunk file t ≡ slice file 0 (a + t.size)
    joined =
        ap (λ o. slice file 0 a ++ slice file o t.size) (omega (arith, c))
        ∙ sym (slice-add file 0 a t.size)

    extended :
        write_at (write_at file_data 0 (slice file 0 a)) t.output (chunk file t)
        ≡ write_at file_data 0 (slice file 0 (a + t.size))
    extended =
        ap (λ k. write_at (write_at file_data 0 (slice file 0 a)) k (chunk file t)) behind
        ∙ write_at-append file_data 0 (slice file 0 a) (chunk file t)
        ∙ ap (write_at file_data 0) joined

-- The chunks of tasks that cover the file, stored in any buffer of its length, make up the file.
pub store_chunks_lem :
    (file file_data : Bytes) (ts : List DownloadTask)
    → Covers 0 (length file) ts
    → length file_data ≡ length file
    → store_chunks file file_data ts ≡ file
store_chunks_lem file file_data ts c e =
    ap (λ d. store_chunks file d ts) (sym (write_at-nil file_data 0))
    ∙ store_chunks-prefix file file_data 0 (length file) ts c (omega arith)
    ∙ ap (write_at file_data 0) (take_all (length file) file (omega arith))
    ∙ write_at_all file_data file e
