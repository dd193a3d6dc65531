-- ===== src/Tftp/Main/Served.antt =====
-- Client and server of tftp/ together, from the requests to the file: a thread of the client, the
-- loop of the server's `main`, and the thread that it starts.
use mathlib.Core.Option.{some-injective}
use network_protocol_cli_too.Common.{
  ℕ, zero, suc, ◌+◌, ◌*◌, ◌^◌, ◌≤◌, ◌<◌, ◌≡◌, refl, sym, ap, subst, ◌∙◌, true, List, [], ◌∷◌,
  Option, none, some, arith, length, slice, write_at, length-slice, get_elem?, pos, ok, fault, ltb,
  if◌then◌else◌, ◌||◌, not, Bool,
}
use network_protocol_cli_too.CString.{Bytes, codes}
use network_protocol_cli_too.CString.Signed.{atoi}
use network_protocol_cli_too.Transfer.Protocol.{Params, get_request}
use network_protocol_cli_too.Transfer.Protocol.RoundTrip.{IsFilename}
use network_protocol_cli_too.Transfer.Plan.{Server, DownloadTask}
use network_protocol_cli_too.Transfer.Plan.Cover.{Covers}
use network_protocol_cli_too.Transfer.Plan.Assemble.{chunk, Covers-le}
use network_protocol_cli_too.Transfer.Output.{int_size, finish_detached}
use network_protocol_cli_too.Tftp.Packet.{buffer_size}
use network_protocol_cli_too.Tftp.AckQueue.{AckQueue}
use network_protocol_cli_too.Tftp.Server.{
  ClientRequest, Served, Round, done, started, route, handle_request,
}
use network_protocol_cli_too.Tftp.Server.Chunks.{payloads, Numbered}
use network_protocol_cli_too.Tftp.Server.Get.{get_lem}
use network_protocol_cli_too.Tftp.Server.Acked.{Acknowledges, Acknowledges-Delivers}
use network_protocol_cli_too.Tftp.Server.Route.{route-get_request}
use network_protocol_cli_too.Tftp.Client.{
  Event, exited, Thread, ended, start, download_chunk, request_first, starts,
}
use network_protocol_cli_too.Tftp.Client.Receive.{first}
use network_protocol_cli_too.Tftp.Client.Threads.{Succeeded}
use network_protocol_cli_too.Tftp.Client.Paced.{delayed, Patient, acks, receive-Numbered}
use network_protocol_cli_too.Tftp.Client.Serves.{Serves, Serves-Numbered}
use network_protocol_cli_too.Tftp.Client.Schedule.{events_of, run-AllServe}
use network_protocol_cli_too.Tftp.Main.{Environment, transfer, prepare, initial, download}
use network_protocol_cli_too.Tftp.Main.Download.{Answers, prepared-Covers, download-file}

-- The server's `main` starts a thread for the request of a task, the thread's packets come to the
-- client in their order and none of them waits for more than five calls, and the ACKs come back.
pub record IsServed (fopen : Bytes → Option Bytes) (file : Bytes) (task : DownloadTask)
    (events : List Event) : Type 0 where
  pub old : Params
  pub old_seq_num : ℕ
  pub queue : AckQueue
  pub client_addr : ℕ
  pub addr_len : ℕ
  pub request : ClientRequest
  pub routed :
      route old old_seq_num queue client_addr addr_len
        (some (get_request buffer_size task.filename task.offset task.size))
      ≡ started request
  pub usable : IsFilename task.filename
  pub found : fopen task.filename ≡ some file
  pub rounds : List Round
  pub acknowledged : Acknowledges client_addr 0 rounds
  pub enough : task.size ≤ 1016 * length rounds
  pub pauses : List ℕ
  pub patient : Patient pauses
  pub brought : events ≡ delayed (handle_request fopen rounds request).sent pauses

started-injective : (r q : ClientRequest) → started r ≡ started q → r ≡ q
started-injective r q e = cc

module _ (fopen : Bytes → Option Bytes) (file : Bytes) (fits : length file < 2 ^ 64)
    (task : DownloadTask) (events : List Event) (s : IsServed fopen file task events)
    (not_empty : 0 < task.size) (inside : task.offset + task.size ≤ length file) where
  abbrev requested : ClientRequest
  requested = record {
    params = record {
      command = codes "GET";
      filename = task.filename;
      offset = task.offset;
      chunk_size = task.size;
    };
    client_addr = s.client_addr;
    addr_len = s.addr_len;
  }

  -- The thread that is started has the task's fields and the client's address.
  as_requested : s.request ≡ requested
  as_requested = started-injective s.request requested (
      sym s.routed
      ∙ route-get_request s.old s.old_seq_num s.queue s.client_addr s.addr_len task.filename
          task.offset task.size s.usable (omega arith) (omega arith))

  abbrev sending : Served
  sending = handle_request fopen s.rounds s.request

  sent_whole :
      (sending.ended ≡ done) × (payloads sending.sent ≡ chunk file task) × Numbered 0 sending.sent
  sent_whole =
      subst
        (λ q.
          let r = handle_request fopen s.rounds q in
          (r.ended ≡ done) × (payloads r.sent ≡ chunk file task) × Numbered 0 r.sent)
        (sym as_requested)
        (get_lem fopen s.rounds requested file refl s.found not_empty inside fits
          (Acknowledges-Delivers s.client_addr 0 s.rounds (omega arith) s.acknowledged) s.enough)

  size : task.size ≡ length (payloads sending.sent)
  size = sym (length-slice file task.offset task.size inside) ∙ ap length (sym (sent_whole.1))

  -- A thread that is served comes to its end with the value 0 and its chunk in its part of the
  -- buffer. It has sent its request and an ACK for each packet in turn, and the server's thread has
  -- come to its end too.
  pub download_chunk-handle_request :
      (file_data : Bytes)
      → let r = handle_request fopen s.rounds s.request in
        (r.ended ≡ done)
        × (download_chunk true true events task file_data ≡ record {
          sent = get_request buffer_size task.filename task.offset task.size ∷ acks 0 r.sent;
          thread = ended (exited 0);
          file_data = write_at file_data task.output (chunk file task);
        })
  unfolding download_chunk start
  download_chunk-handle_request file_data = (
    sent_whole.0,
    ap (λ e. download_chunk true true e task file_data) s.brought
        ∙ ap (request_first (get_request buffer_size task.filename task.offset task.size)) (
            receive-Numbered sending.sent s.pauses 0 (first task) file_data sent_whole.2 s.patient
              (omega arith) refl size refl)
        ∙ ap
            (λ b. record {
              sent =
                  get_request buffer_size task.filename task.offset task.size ∷ acks 0 sending.sent;
              thread = ended (exited 0);
              file_data = write_at file_data task.output b;
            })
            sent_whole.1,
  )

  served-Serves : task.offset ≡ task.output → Serves file (start task) events
  unfolding start
  served-Serves at = subst (Serves file (start task)) (sym s.brought) (
      Serves-Numbered file sending.sent s.pauses 0 (first task) sent_whole.2 s.patient (omega arith)
        refl size refl (omega arith) (sent_whole.1 ∙ ap (λ o. slice file o task.size) at))

-- Each task is served by the events of its thread.
abbrev pub AllServed :
    (Bytes → Option Bytes) → Bytes → List DownloadTask → (ℕ → List Event) → Type 0
AllServed fopen file tasks events =
    (i : ℕ) (task : DownloadTask)
    → get_elem? tasks i ≡ some task
    → IsServed fopen file task (events i)

none≢some : {a : Thread} → none ≡ some a → ⊥
none≢some e = cc

module _ (fopen : Bytes → Option Bytes) (file : Bytes) (fits : length file < 2 ^ 64) where
  starts-Serves :
      (tasks : List DownloadTask) (a : ℕ) (events : ℕ → List Event)
      → Covers a (length file) tasks
      → AllServed fopen file tasks events
      → (i : ℕ) (t : Thread) → get_elem? (starts tasks) i ≡ some t
      → Serves file t (events i)
  starts-Serves [] a events c s i t e = absurd (none≢some e)
  starts-Serves (task ∷ tasks) a events c s zero t e =
      subst (λ u. Serves file u (events 0)) (some-injective (start task) t e)
        (served-Serves fopen file fits task (events 0) (s 0 task refl) c.2
          (omega (arith, c.0, Covers-le (a + task.size) (length file) tasks c.3))
          (omega (arith, c.0, c.1)))
  starts-Serves (task ∷ tasks) a events c s (suc i) t e =
      starts-Serves tasks (a + task.size) (λ k. events (suc k)) c.3 (λ k u. s (suc k) u) i t e

  -- The whole download, of a file that is not empty and whose size fits `size_t`, with a table of
  -- servers that is not empty and a positive number of connections that fits an `int`. If the calls
  -- of `main` succeed, `tasks` are the tasks that it makes, and each thread is served by a server
  -- that has the file, whose packets come in their order, none of them after more than five calls
  -- without one, and whose ACKs come back: then, in whatever order the threads run, they all exit
  -- with 0, and the shared buffer is the file. If `output.dat` can be created and written whole, it
  -- is the file where a pointer is no longer than an `int` and the system lets `pthread_detach` of
  -- a joined thread pass; else, as on 64-bit machines, `main` is undefined behind the threads.
  pub download-handle_request :
      (env : Environment) (num_text filename : Bytes) (servers : List Server) (n : ℕ)
      → Answers env servers (length file)
      → atoi num_text ≡ pos n
      → 0 < length servers
      → 0 < length file
      → 0 < n
      → n < 2 ^ 31
      → (tasks : List DownloadTask) (schedule : List (ℕ × Event)) (pointer_size written : ℕ)
        (passes : Bool)
      → prepare env 4 num_text filename ≡ ok (transfer (length file) tasks)
      → AllServed fopen file tasks (λ i. events_of i schedule)
      → length file ≤ written
      → Succeeded (download (length file) tasks schedule).threads
        × ((download (length file) tasks schedule).file_data ≡ file)
        × (finish_detached pointer_size passes true written tasks
              (download (length file) tasks schedule).file_data
            ≡ (if ltb int_size pointer_size || not passes then fault else ok file))
  download-handle_request env num_text filename servers n a t h p q l tasks schedule pointer_size
        written passes e s w =
      let (follows, succeeded) = run-AllServe file schedule (initial (length file) tasks) (
        starts-Serves tasks 0 (λ i. events_of i schedule)
          (prepared-Covers env num_text filename servers (length file) n a t h p fits q l tasks e)
          s) in
      let (buffer, ending) =
        download-file file env num_text filename servers n a t h p fits q l tasks schedule
          pointer_size written passes e follows (unfold download in succeeded) w in
      (unfold download in succeeded, buffer, ending)
