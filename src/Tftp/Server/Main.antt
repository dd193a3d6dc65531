-- ===== src/Tftp/Server/Main.antt =====
-- `main` of tftp/server.c: the set-up of the socket, and the loop that receives datagrams.
pub mod Bounds
use network_protocol_cli_too.Common.{
  ℕ, ◌≤◌, ◌<◌, ◌≡◌, ◌≢◌, ◌⊎◌, ◌↔◌, ltb, leb, take, Bool-cases, inl, inr, refl, sym, ap, subst, ◌∙◌,
  Bool, true, false, not, List, [], ◌∷◌, ◌++◌, Option, none, some, arith, ◌==◌, if◌then◌else◌,
  length, Outcome, ok, exit_failure, fault, ◌>>=◌, ◌>>◌, exit_if,
}
use network_protocol_cli_too.CString.{Bytes}
use network_protocol_cli_too.Transfer.Protocol.{Params}
use network_protocol_cli_too.Tftp.Packet.{buffer_size}
use network_protocol_cli_too.Tftp.AckQueue.{AckPacket, AckQueue, enqueue, take_ack}
use network_protocol_cli_too.Tftp.AckQueue.Refine.{IsValid, take_ack-refines, enqueue-refines}
use network_protocol_cli_too.Tftp.Server.{
  ClientRequest, Routed, ignored, acknowledged, malformed, started, overflow, route, route_text,
  routed_ack, routed_request,
}
use network_protocol_cli_too.Tftp.Server.Route.{route-overflow}

-- One `recvfrom`: the looks of the threads since the last one, what the request and `seq_num` happen
-- to hold, who sent the datagram, the datagram, and whether `pthread_create` works.
pub record Arrival : Type 0 where
  pub looks : List (ℕ × ℕ)
  pub old_params : Params
  pub old_seq_num : ℕ
  pub client_addr : ℕ
  pub addr_len : ℕ
  pub datagram : Option Bytes
  pub has_thread : Bool

-- The queue, the requests that got a thread, and whether the loop has written behind its buffer.
pub record Loop : Type 0 where
  pub queue : AckQueue
  pub requests : List ClientRequest
  pub overflown : Bool

-- The queue behind the looks of threads, each for its packet and its client
unfoldable pub looked_through : List (ℕ × ℕ) → AckQueue → AckQueue
looked_through [] q = q
looked_through ((seq_num, client_addr) ∷ looks) q =
    looked_through looks (take_ack seq_num client_addr q).1

-- What becomes of a datagram. A request without a thread is freed.
unfoldable pub routed : Bool → AckQueue → Routed → Loop
routed has_thread q ignored = record { queue = q; requests = []; overflown = false }
routed has_thread q (acknowledged q' woken) = record {
  queue = q';
  requests = [];
  overflown = false;
}
routed has_thread q malformed = record { queue = q; requests = []; overflown = false }
routed has_thread q (started request) = record {
  queue = q;
  requests = if has_thread then request ∷ [] else [];
  overflown = false;
}
routed has_thread q overflow = record { queue = q; requests = []; overflown = true }

-- One round of `while (1)`
unfoldable pub received : Arrival → AckQueue → Loop
unfolding routed looked_through
received a q =
    let q' = looked_through a.looks q in
    routed a.has_thread q' (route a.old_params a.old_seq_num q' a.client_addr a.addr_len a.datagram)

-- The rounds behind one, if it has not ended in undefined behaviour.
goes_on : Loop → Loop → Loop
goes_on now later =
    if now.overflown then now else record later { requests = now.requests ++ later.requests }

unfoldable pub receive_loop : List Arrival → AckQueue → Loop
unfolding received goes_on
receive_loop [] q = record { queue = q; requests = []; overflown = false }
receive_loop (a ∷ arrivals) q =
    let now = received a q in goes_on now (receive_loop arrivals now.queue)

-- `main`, for `argc` arguments, the results of the calls, and the queue as it is at the start
unfoldable pub main : ℕ → Bool → Bool → List Arrival → AckQueue → Outcome Loop
unfolding receive_loop
main argc has_socket bound arrivals q = do
  exit_if (not (argc == 2))
  exit_if (not has_socket)
  exit_if (not bound)
  ok (receive_loop arrivals q)
