-- ===== src/Tests/Tftp/Shared.antt =====
-- Threads of the tftp server around their queue, and the loop that fills it.
use network_protocol_cli_too.Common.{
  ◌≡◌, ◌↔◌, refl, true, List, [], ◌∷◌, Option, none, some, arith, replicate, get_elem?,
}
use network_protocol_cli_too.CString.{Bytes, codes}
use network_protocol_cli_too.Transfer.Protocol.{Params}
use network_protocol_cli_too.Tftp.AckQueue.{AckPacket, AckQueue, max_queue_size, matches}
use network_protocol_cli_too.Tftp.AckQueue.Refine.{IsValid, pending}
use network_protocol_cli_too.Tftp.Server.Shared.{Waiter, Shared, Turn, arrived, looks, run}
use network_protocol_cli_too.Tftp.Server.Shared.Refine.{waiting, spec_run, run-refines}
use network_protocol_cli_too.Tftp.Server.Shared.Lost.{Unmatched, NoneFor, run-lost}
use network_protocol_cli_too.Tftp.Server.Main.{Arrival, receive_loop}
use network_protocol_cli_too.Tftp.Server.Main.Bounds.{SomeLong, receive_loop-overflown}
use network_protocol_cli_too.Tests.Tftp.{ack, queue, queue-IsValid}

abbrev waiter : Waiter
waiter = record { seq_num = 0; client_addr = 7; packets = 2 }

abbrev shared : Shared
shared = record { queue = queue; threads = some waiter ∷ [] }

run-refines_example :
    (waiting (run (looks 0 ∷ arrived ack ∷ []) shared)
      ≡ spec_run (looks 0 ∷ arrived ack ∷ []) (waiting shared))
    × IsValid (run (looks 0 ∷ arrived ack ∷ []) shared).queue
run-refines_example = run-refines (looks 0 ∷ arrived ack ∷ []) shared queue-IsValid

abbrev stale : AckPacket
stale = record { seq_num = 3; client_addr = 8; addr_len = 16 }

abbrev full : AckQueue
full = record { slots = replicate max_queue_size stale; size = 5 }

abbrev other : Waiter
other = record { seq_num = 3; client_addr = 8; packets = 9 }

abbrev crowded : Shared
crowded = record { queue = full; threads = some waiter ∷ some other ∷ [] }

full-IsValid : IsValid full
full-IsValid = record { storage = refl; bounded = omega arith }

full-Unmatched : Unmatched waiter (pending full)
unfolding matches
full-Unmatched = (refl, (refl, (refl, (refl, (refl, tt)))))

abbrev turns : List Turn
turns = looks 1 ∷ looks 0 ∷ arrived stale ∷ looks 0 ∷ []

turns-NoneFor : NoneFor waiter turns
unfolding matches
turns-NoneFor = (refl, tt)

run-lost_example : get_elem? (run (arrived ack ∷ turns) crowded).threads 0 ≡ some (some waiter)
run-lost_example =
    run-lost ack turns crowded 0 waiter full-IsValid refl (omega arith) full-Unmatched turns-NoneFor

abbrev old : Params
old = record { command = []; filename = []; offset = 0; chunk_size = 0 }

abbrev arrival : Option Bytes → Arrival
arrival datagram = record {
  looks = [];
  old_params = old;
  old_seq_num = 0;
  client_addr = 7;
  addr_len = 16;
  datagram = datagram;
  has_thread = true;
}

abbrev arrivals : List Arrival
arrivals = arrival (some (codes "CHECK f")) ∷ arrival none ∷ arrival (some (replicate 1024 65)) ∷ []

receive_loop-overflown_example :
    IsValid (receive_loop arrivals queue).queue
    × (((receive_loop arrivals queue).overflown ≡ true) ↔ SomeLong arrivals)
receive_loop-overflown_example = receive_loop-overflown arrivals queue queue-IsValid
