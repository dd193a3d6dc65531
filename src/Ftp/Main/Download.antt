-- ===== src/Ftp/Main/Download.antt =====
-- Client and server of ftp/ together: the file that is downloaded.
use network_protocol_cli_too.Common.{
  ℕ, ◌+◌, ◌≤◌, ◌<◌, ◌^◌, ◌≡◌, refl, ap, ◌∙◌, List, [], ◌∷◌, Option, some, length, length-replicate,
  write_at, take, length-slice, take_all, arith, replicate, true, ltb, if◌then◌else◌, ok, fault,
}
use network_protocol_cli_too.CString.{Bytes}
use network_protocol_cli_too.Transfer.Protocol.{Params, get_request}
use network_protocol_cli_too.Transfer.Protocol.RoundTrip.{IsFilename}
use network_protocol_cli_too.Transfer.Plan.{DownloadTask}
use network_protocol_cli_too.Transfer.Plan.Cover.{Covers}
use network_protocol_cli_too.Transfer.Plan.Assemble.{
  chunk, store_chunks, store_chunks_lem, Covers-le,
}
use network_protocol_cli_too.Transfer.Output.{int_size, finish, finish_lem}
use network_protocol_cli_too.Ftp.Server.{buffer_size, handle_client}
use network_protocol_cli_too.Ftp.Server.Stream.{Writes}
use network_protocol_cli_too.Ftp.Server.Get.{handle_client-get}
use network_protocol_cli_too.Ftp.Client.{Peer, returned, download_chunk}
use network_protocol_cli_too.Ftp.Client.Receive.{Connects, download_chunk-returned}
use network_protocol_cli_too.Ftp.Main.{run_threads, download}

-- The connection brings what the server sends in answer to the thread's request, for a file that the
-- server can open and whose `write` calls work.
pub record IsServed (old : Params) (fopen : Bytes → Option Bytes) (file : Bytes) (peer : Peer)
    (task : DownloadTask) : Type 0 where
  pub usable : IsFilename task.filename
  pub found : fopen task.filename ≡ some file
  pub writes : List (ℕ → Option ℕ)
  pub works : Writes writes
  pub enough : task.size ≤ length writes
  pub brings :
      peer.stream
      ≡ (handle_client old fopen writes
          (some (get_request buffer_size task.filename task.offset task.size))).sent

-- Each thread connects and is served.
abbrev pub AllServed :
    Params → (Bytes → Option Bytes) → Bytes → List Peer → List DownloadTask → Type 0
AllServed old fopen file [] [] = Unit {0}
AllServed old fopen file [] (task ∷ tasks) = ⊥
AllServed old fopen file (peer ∷ peers) [] = ⊥
AllServed old fopen file (peer ∷ peers) (task ∷ tasks) =
    Connects peer task × IsServed old fopen file peer task × AllServed old fopen file peers tasks

module _ (old : Params) (fopen : Bytes → Option Bytes) (file : Bytes)
    (fits : length file < 2 ^ 64) where
  served_chunk :
      (peer : Peer) (task : DownloadTask)
      → IsServed old fopen file peer task
      → 0 < task.size
      → task.offset + task.size ≤ length file
      → peer.stream ≡ chunk file task
  served_chunk peer task s p h =
      s.brings
      ∙ ap (λ r. r.sent)
          (handle_client-get old fopen s.writes file task.filename task.offset task.size s.usable
            s.found p (omega arith) (omega arith) h fits s.works s.enough)

  -- A thread that connects and is served comes to its end with its chunk of the file in its part of
  -- the buffer, and has changed nothing else.
  pub download_chunk-chunk :
      (peer : Peer) (task : DownloadTask) (file_data : Bytes)
      → Connects peer task
      → IsServed old fopen file peer task
      → 0 < task.size
      → task.offset + task.size ≤ length file
      → download_chunk peer task file_data ≡ record {
        request = get_request buffer_size task.filename task.offset task.size;
        file_data = write_at file_data task.output (chunk file task);
        ended = returned;
      }
  download_chunk-chunk peer task file_data c s p h =
      let brought = served_chunk peer task s p h in
      let len = length-slice file task.offset task.size h in
      download_chunk-returned peer task file_data c (omega (arith, ap length brought, len))
      ∙ ap
          (λ b. record {
            request = get_request buffer_size task.filename task.offset task.size;
            file_data = write_at file_data task.output b;
            ended = returned;
          })
          (ap (take task.size) brought ∙ take_all task.size (chunk file task) (omega (arith, len)))

  run_threads-store_chunks :
      (peers : List Peer) (tasks : List DownloadTask) (a : ℕ) (file_data : Bytes)
      → AllServed old fopen file peers tasks
      → Covers a (length file) tasks
      → run_threads peers tasks file_data ≡ store_chunks file file_data tasks
  unfolding run_threads store_chunks
  run_threads-store_chunks [] [] a file_data s c = refl
  run_threads-store_chunks [] (task ∷ tasks) a file_data s c = absurd s
  run_threads-store_chunks (peer ∷ peers) [] a file_data s c = absurd s
  run_threads-store_chunks (peer ∷ peers) (task ∷ tasks) a file_data (connects, served, s) c =
      ap (λ d. run_threads peers tasks d.file_data)
        (download_chunk-chunk peer task file_data connects served c.2
          (omega (arith, c.0, Covers-le (a + task.size) (length file) tasks c.3)))
      ∙ run_threads-store_chunks peers tasks (a + task.size)
          (write_at file_data task.output (chunk file task)) s c.3

  -- If the tasks cover the file, which is not empty and whose size fits `size_t`, each thread
  -- connects with a retry left, has enough `recv` calls that each return something, and reads what
  -- `handle_client` sends in answer to its request, then the shared buffer is the file. If
  -- `output.dat` can be created and written whole, it is the file where a pointer is no longer than
  -- an `int`; where it is longer, as on 64-bit machines, the first `pthread_join` is undefined.
  pub download-served :
      (peers : List Peer) (tasks : List DownloadTask) (pointer_size written : ℕ)
      → Covers 0 (length file) tasks
      → AllServed old fopen file peers tasks
      → 0 < length file
      → length file ≤ written
      → (download (length file) tasks peers ≡ file)
        × (finish pointer_size true written tasks (download (length file) tasks peers)
            ≡ (if ltb int_size pointer_size then fault else ok file))
  download-served peers tasks pointer_size written c s p w =
      (whole, finish_lem pointer_size written tasks file _ c p w whole)
    where
      whole : download (length file) tasks peers ≡ file
      whole =
          unfold download in
          run_threads-store_chunks peers tasks 0 (replicate (length file) 0) s c
          ∙ store_chunks_lem file (replicate (length file) 0) tasks c
              (length-replicate (length file) 0)
