-- ===== src/Tests/Tftp/Served.antt =====
-- A download of three bytes over UDP that waits once: the request, the packet and its ACK.
use mathlib.Core.Option.{some-injective}
use network_protocol_cli_too.Transfer.Output.{finish_detached}
use network_protocol_cli_too.Common.{
  ℕ, fault, zero, suc, ◌≡◌, refl, subst, true, List, [], ◌∷◌, some, arith, replicate, write_at, ap,
  ◌∙◌,
}
use network_protocol_cli_too.CString.{codes, bytes_eq, is_space}
use network_protocol_cli_too.Transfer.Protocol.{Params, get_request, ack_packet}
use network_protocol_cli_too.Transfer.Protocol.RoundTrip.{IsFilename}
use network_protocol_cli_too.Transfer.Plan.Assemble.{chunk}
use network_protocol_cli_too.Tftp.Packet.{buffer_size, data_packet}
use network_protocol_cli_too.Tftp.AckQueue.{AckQueue, max_queue_size, enqueue, take_ack}
use network_protocol_cli_too.Tftp.AckQueue.Refine.{IsValid}
use network_protocol_cli_too.Tftp.Server.{
  done, acknowledged, route, handle_request, send_chunk, wait_ack,
}
use network_protocol_cli_too.Tftp.Server.Route.{route-get_request, route-ack_packet}
use network_protocol_cli_too.Tftp.Client.{
  Event, Ended, timeout, datagram, exited, running, ended, download_chunk,
}
use network_protocol_cli_too.Tftp.Client.Receive.{first}
use network_protocol_cli_too.Tftp.Client.Ends.{
  arriving, Carries, download_chunk-ended, download_chunk_empty_packets,
}
use network_protocol_cli_too.Tftp.Client.Threads.{Succeeded}
use network_protocol_cli_too.Tftp.Client.Paced.{delayed, acks}
use network_protocol_cli_too.Tftp.Client.Schedule.{events_of}
use network_protocol_cli_too.Tftp.Main.{download}
use network_protocol_cli_too.Tftp.Main.Served.{
  IsServed, AllServed, download_chunk-handle_request, download-handle_request,
}
use network_protocol_cli_too.Tests.Tftp.{
  file, name, fopen, ack, queue, rounds, request, server, env, env-Answers, one, task, prepared,
}

abbrev old : Params
old = record { command = []; filename = []; offset = 0; chunk_size = 0 }

abbrev empty_queue : AckQueue
empty_queue = record { slots = replicate max_queue_size ack; size = 0 }

empty_queue-IsValid : IsValid empty_queue
empty_queue-IsValid = record { storage = refl; bounded = omega arith }

enqueued : enqueue empty_queue ack ≡ (queue, true)
unfolding enqueue
enqueued = refl

ack_routed :
    route old 0 empty_queue 7 16 (some (ack_packet buffer_size 0)) ≡ acknowledged queue true
ack_routed =
    route-ack_packet old 0 empty_queue 7 16 0 (omega arith)
    ∙ ap (λ r. acknowledged r.0 r.1) enqueued

name-IsFilename : IsFilename name
unfolding is_space
name-IsFilename = (omega arith, omega arith, ((refl, omega arith), tt))

abbrev events : List Event
events = timeout ∷ datagram (data_packet 0 file) true ∷ []

brought : events ≡ delayed (handle_request fopen rounds (request 0)).sent (1 ∷ [])
unfolding handle_request send_chunk data_packet bytes_eq wait_ack take_ack
brought = refl

abbrev served : IsServed fopen file task events
served = record {
  old = old;
  old_seq_num = 0;
  queue = empty_queue;
  client_addr = 7;
  addr_len = 16;
  request = request 0;
  routed =
      route-get_request old 0 empty_queue 7 16 name 0 3 name-IsFilename (omega arith) (omega arith);
  usable = name-IsFilename;
  found = refl;
  rounds = rounds;
  acknowledged = (
    λ n. refl,
    (
      [],
      queue,
      [],
      refl,
      record {
        old = old;
        old_seq_num = 0;
        before = empty_queue;
        addr_len = 16;
        valid = empty_queue-IsValid;
        routed = ack_routed;
      },
    ),
    tt,
  );
  enough = omega arith;
  pauses = 1 ∷ [];
  patient = (omega arith, tt);
  brought = brought;
}

download_chunk-handle_request_example :
    let r = handle_request fopen rounds (request 0) in
    (r.ended ≡ done)
    × (download_chunk true true events task (codes "...") ≡ record {
      sent = get_request buffer_size name 0 3 ∷ acks 0 r.sent;
      thread = ended (exited 0);
      file_data = write_at (codes "...") 0 (chunk file task);
    })
download_chunk-handle_request_example =
    download_chunk-handle_request fopen file (omega arith) task events served (omega arith)
      (omega arith) (codes "...")

abbrev waiting_schedule : List (ℕ × Event)
waiting_schedule = (0, timeout) ∷ (0, datagram (data_packet 0 file) true) ∷ []

all_served : AllServed fopen file (task ∷ []) (λ i. events_of i waiting_schedule)
all_served zero t e = subst (λ u. IsServed fopen file u events) (some-injective task t e) served
all_served (suc i) t e = cc

download-handle_request_example :
    Succeeded (download 3 (task ∷ []) waiting_schedule).threads
    × ((download 3 (task ∷ []) waiting_schedule).file_data ≡ codes "abc")
    × (finish_detached 8 true true 3 (task ∷ []) (download 3 (task ∷ []) waiting_schedule).file_data
        ≡ fault)
download-handle_request_example =
    download-handle_request fopen file (omega arith) env (codes "1") name (server ∷ []) 1
      env-Answers one (omega arith) (omega arith) (omega arith) (omega arith) (task ∷ [])
      waiting_schedule 8 3 true prepared all_served (omega arith)

abbrev silence : List Event
silence = replicate 24 timeout

silence-Carries : Carries silence
silence-Carries = tt

download_chunk-ended_example :
    (e : Ended) × ((download_chunk true true silence task (codes "...")).thread ≡ ended e)
download_chunk-ended_example =
    download_chunk-ended true true silence task (codes "...") silence-Carries (omega arith)

download_chunk_empty_packets_example :
    (download_chunk true true
      (arriving (replicate 8 0 ∷ replicate 8 1 ∷ replicate 8 0 ∷ []))
      task
      (codes "...")).thread
    ≡ running (first task)
download_chunk_empty_packets_example =
    download_chunk_empty_packets (replicate 8 0 ∷ replicate 8 1 ∷ replicate 8 0 ∷ []) task
      (codes "...") (refl, (refl, (refl, tt))) (omega arith)
