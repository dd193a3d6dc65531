-- ===== src/Tftp/Client/Ends.antt =====
-- How long a thread runs.
use network_protocol_cli_too.Common.{
  ℕ, ◌+◌, ◌-◌, ◌*◌, ◌≤◌, ◌<◌, ◌≡◌, refl, ap, sym, ◌∙◌, Bool, true, false, List, [], ◌∷◌, arith, ltb,
  ◌==◌, length, take, length-take, Bool-cases, inl, inr,
}
use network_protocol_cli_too.CString.{Bytes}
use network_protocol_cli_too.Transfer.Plan.{DownloadTask}
use network_protocol_cli_too.Tftp.Packet.{buffer_size, max_retries}
use network_protocol_cli_too.Tftp.Client.{
  Event, timeout, datagram, Ended, exited, Loop, Thread, running, ended, loop_head, retry, store,
  round, receive, start, download_chunk, request_first,
}
use network_protocol_cli_too.Tftp.Client.Receive.{moved, store_cases, first}
use network_protocol_cli_too.Tftp.Client.Paced.{loop_head_more}

-- Every datagram carries at least a byte behind its sequence number.
abbrev pub Carries : List Event → Type 0
Carries [] = Unit {0}
Carries (timeout ∷ events) = Carries events
Carries (datagram bytes ack_sent ∷ events) = (8 < length bytes) × Carries events

abbrev CarriesOne : Event → Type 0
CarriesOne timeout = Unit {0}
CarriesOne (datagram bytes ack_sent) = 8 < length bytes

Carries-head :
    (event : Event) (events : List Event)
    → Carries (event ∷ events)
    → CarriesOne event × Carries events
Carries-head timeout events c = (tt, c)
Carries-head (datagram bytes ack_sent) events c = c

-- The rounds that are left to a thread at most: five waits for each byte that is missing, and its
-- arrival.
abbrev rounds_left : Loop → ℕ
rounds_left l = 6 * l.remaining + (max_retries - l.retry_count)

-- A thread that has ended, or has fewer than `n` rounds left.
abbrev EndsWithin : ℕ → Thread → Type 0
EndsWithin n (running l) = (0 < l.remaining) × (l.retry_count ≤ max_retries) × (rounds_left l < n)
EndsWithin n (ended e) = Unit {0}

loop_head-EndsWithin :
    (n : ℕ) (l : Loop)
    → l.retry_count ≤ max_retries
    → rounds_left l < n
    → EndsWithin n (loop_head l)
unfolding loop_head
loop_head-EndsWithin n l r h = elim (Bool-cases (l.remaining == 0)) [
  | inl z ↦ rw z tt
  | inr z ↦ rw z (ground arith, r, h)
]

retry-EndsWithin : (l : Loop) → 0 < l.remaining → EndsWithin (rounds_left l) (retry l)
unfolding retry
retry-EndsWithin l p = elim (Bool-cases (ltb max_retries (l.retry_count + 1))) [
  | inl z ↦ rw z tt
  | inr z ↦ rw z (p, ground arith, ground arith)
]

store-EndsWithin :
    (l : Loop) (file_data packet : Bytes)
    → 0 < l.remaining
    → 8 < length packet
    → EndsWithin (rounds_left l) (store l file_data packet).0
store-EndsWithin l file_data packet p h =
    store_cases (λ r. EndsWithin (rounds_left l) r.0) l file_data packet tt tt
      λ long fits inside.
        loop_head-EndsWithin (rounds_left l) (moved l (length packet - 8)) (omega arith)
          (omega arith)

-- Each round uses one up.
round-EndsWithin :
    (l : Loop) (file_data : Bytes) (event : Event)
    → 0 < l.remaining
    → CarriesOne event
    → EndsWithin (rounds_left l) (round l file_data event).thread
unfolding round
round-EndsWithin l file_data timeout p c = retry-EndsWithin l p
round-EndsWithin l file_data (datagram bytes false) p c = tt
round-EndsWithin l file_data (datagram bytes true) p c =
    store-EndsWithin l file_data (take buffer_size bytes) p
      (omega (arith, length-take buffer_size bytes))

receive-EndsWithin :
    (events : List Event) (n : ℕ) (t : Thread) (file_data : Bytes)
    → EndsWithin n t
    → Carries events
    → n ≤ length events
    → (e : Ended) × ((receive t file_data events).thread ≡ ended e)
unfolding receive
receive-EndsWithin [] n (running l) file_data b c h = absurd (omega (arith, b))
receive-EndsWithin [] n (ended e) file_data b c h = (e, refl)
receive-EndsWithin (event ∷ events) n (ended e) file_data b c h = (e, refl)
receive-EndsWithin (event ∷ events) n (running l) file_data b c h =
    let (one, others) = Carries-head event events c in
    receive-EndsWithin events (rounds_left l) (round l file_data event).thread
      (round l file_data event).file_data (round-EndsWithin l file_data event b.0 one) others
      (omega (arith, b))

-- Whatever comes, as long as each datagram carries some payload: a thread ends after at most six
-- rounds for each byte of its chunk, and six more.
pub download_chunk-ended :
    (has_socket request_sent : Bool) (events : List Event) (task : DownloadTask) (file_data : Bytes)
    → Carries events
    → 6 * (task.size + 1) ≤ length events
    → (e : Ended) × ((download_chunk has_socket request_sent events task file_data).thread
        ≡ ended e)
unfolding download_chunk start request_first
download_chunk-ended true true events task file_data c h =
    receive-EndsWithin events (6 * (task.size + 1)) (loop_head (first task)) file_data
      (loop_head-EndsWithin (6 * (task.size + 1)) (first task) (omega arith) (omega arith)) c h
download_chunk-ended true false events task file_data c h = (exited 0, refl)
download_chunk-ended false true events task file_data c h = (exited 0, refl)
download_chunk-ended false false events task file_data c h = (exited 0, refl)

empty_packet :
    (l : Loop) (file_data packet : Bytes)
    → length packet ≡ 8
    → 0 < l.remaining
    → l.position ≤ l.limit
    → (store l file_data packet).0 ≡ running (record l { retry_count = 0 })
unfolding store loop_head
empty_packet l file_data packet e p h = ground arith

-- Packets of a sequence number alone, and their arrival, each one acknowledged.
abbrev pub AllEmpty : List Bytes → Type 0
AllEmpty [] = Unit {0}
AllEmpty (packet ∷ packets) = (length packet ≡ 8) × AllEmpty packets

abbrev pub arriving : List Bytes → List Event
arriving [] = []
arriving (packet ∷ packets) = datagram packet true ∷ arriving packets

receive_empty_packets :
    (packets : List Bytes) (l : Loop) (file_data : Bytes)
    → AllEmpty packets
    → 0 < l.remaining
    → l.position ≤ l.limit
    → l.retry_count ≡ 0
    → (receive (running l) file_data (arriving packets)).thread ≡ running l
unfolding receive round
receive_empty_packets [] l file_data e p h r = refl
receive_empty_packets (packet ∷ packets) l file_data (e, es) p h r =
    ap (λ t. (receive t (store l file_data kept).1 (arriving packets)).thread)
      (empty_packet l file_data kept size p h
        ∙ ap (λ k. running (record l { retry_count = k })) (sym r))
    ∙ receive_empty_packets packets l (store l file_data kept).1 es p h r
  where
    kept : Bytes
    kept = take buffer_size packet

    size : length kept ≡ 8
    size = omega (arith, e, length-take buffer_size packet)

-- A thread that gets packets of a sequence number alone, each with a number of its own, and whose
-- acknowledgements are sent, never ends, however many come: it stands where it started.
pub download_chunk_empty_packets :
    (packets : List Bytes) (task : DownloadTask) (file_data : Bytes)
    → AllEmpty packets
    → 0 < task.size
    → (download_chunk true true (arriving packets) task file_data).thread ≡ running (first task)
unfolding download_chunk start request_first
download_chunk_empty_packets packets task file_data e p =
    ap (λ t. (receive t file_data (arriving packets)).thread) (loop_head_more (first task) p)
    ∙ receive_empty_packets packets (first task) file_data e p (omega arith) refl
