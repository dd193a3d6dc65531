-- ===== src/Tftp/Client/Receive.antt =====
-- One thread: where it writes, when it gives up, and what it has when it exits with 0.
use network_protocol_cli_too.Common.{
  ℕ, zero, suc, ◌+◌, ◌-◌, ◌≤◌, ◌<◌, ◌≡◌, refl, ap, ◌∙◌, Bool, true, false, List, [], ◌∷◌, arith,
  ltb, ◌==◌, length, take, write_at, length-write_at, Bool-cases, inl, inr, get_elem?, replicate,
  length-drop, get_elem?-write_at_out, ◌⊎◌,
}
use network_protocol_cli_too.CString.{Bytes}
use network_protocol_cli_too.Transfer.Plan.{DownloadTask}
use network_protocol_cli_too.Tftp.Packet.{buffer_size, max_retries, packet_payload}
use network_protocol_cli_too.Tftp.Client.{
  Event, timeout, datagram, exited, undefined, Loop, Thread, running, ended, loop_head, retry,
  store, round, receive, start, download_chunk,
}

-- What is left of a thread's part of the buffer lies from `position` to `limit`. A round moves
-- forward inside it, and writes nowhere else.
abbrev pub Within : Loop → Thread → Type 0
Within l (running l') =
    (l'.limit ≡ l.limit) × (l.position ≤ l'.position) × (l'.position + l'.remaining ≡ l'.limit)
Within l (ended e) = Unit {0}

abbrev IsAligned : Loop → Type 0
IsAligned l = l.position + l.remaining ≡ l.limit

loop_head-Within :
    (l l' : Loop)
    → l'.limit ≡ l.limit
    → l.position ≤ l'.position
    → IsAligned l'
    → Within l (loop_head l')
unfolding loop_head
loop_head-Within l l' e h a = elim (Bool-cases (l'.remaining == 0)) [
  | inl z ↦ rw z tt
  | inr z ↦ rw z (e, h, a)
]

retry-Within : (l : Loop) → IsAligned l → Within l (retry l)
unfolding retry
retry-Within l a = elim (Bool-cases (ltb max_retries (l.retry_count + 1))) [
  | inl z ↦ rw z tt
  | inr z ↦ rw z (refl, omega arith, a)
]

-- The loop's variables behind a payload of `n` bytes.
abbrev pub moved : Loop → ℕ → Loop
moved l n = record l { remaining = l.remaining - n; position = l.position + n; retry_count = 0 }

-- A packet ends the thread and nothing is written, or its payload fits and is written.
pub store_cases {ℓ} :
    (P : Thread × Bytes → Type ℓ) (l : Loop) (file_data packet : Bytes)
    → P (ended undefined, file_data)
    → P (ended (exited 1), file_data)
    → (8 ≤ length packet
        → length packet - 8 ≤ l.remaining
        → l.position + (length packet - 8) ≤ l.limit
        → P (
          loop_head (moved l (length packet - 8)),
          write_at file_data l.position (packet_payload packet),
        ))
    → P (store l file_data packet)
unfolding store
store_cases P l file_data packet short refused stored = elim (Bool-cases (ltb (length packet) 8)) [
  | inl e ↦ rw e short
  | inr long ↦ rw long (elim (Bool-cases (ltb l.remaining (length packet - 8))) [
    | inl e ↦ rw e refused
    | inr fits ↦ rw fits (elim (Bool-cases (ltb l.limit (l.position + (length packet - 8)))) [
      | inl e ↦ rw e refused
      | inr inside ↦ rw inside (stored (ground arith) (ground arith) (ground arith))
    ])
  ])
]

store-Within :
    (l : Loop) (file_data packet : Bytes) → IsAligned l → Within l (store l file_data packet).0
store-Within l file_data packet a =
    store_cases (λ r. Within l r.0) l file_data packet tt tt
      λ long fits inside.
        loop_head-Within l (moved l (length packet - 8)) refl (omega arith) (omega arith)

pub round-Within :
    (l : Loop) (file_data : Bytes) (event : Event)
    → l.position + l.remaining ≡ l.limit
    → Within l (round l file_data event).thread
unfolding round
round-Within l file_data timeout a = retry-Within l a
round-Within l file_data (datagram bytes false) a = tt
round-Within l file_data (datagram bytes true) a =
    store-Within l file_data (take buffer_size bytes) a

pub round-elsewhere :
    (l : Loop) (file_data : Bytes) (event : Event) (k : ℕ)
    → (k < l.position) ⊎ (l.limit ≤ k)
    → get_elem? (round l file_data event).file_data k ≡ get_elem? file_data k
unfolding round
round-elsewhere l file_data timeout k h = refl
round-elsewhere l file_data (datagram bytes false) k h = refl
round-elsewhere l file_data (datagram bytes true) k h =
    store_cases (λ r. get_elem? r.1 k ≡ get_elem? file_data k) l file_data (take buffer_size bytes)
      refl refl
      λ long fits inside.
        get_elem?-write_at_out file_data l.position _ k
          (omega (arith, length-drop 8 (take buffer_size bytes)))

pub length-round :
    (l : Loop) (file_data : Bytes) (event : Event)
    → length (round l file_data event).file_data ≡ length file_data
unfolding round
length-round l file_data timeout = refl
length-round l file_data (datagram bytes false) = refl
length-round l file_data (datagram bytes true) =
    store_cases (λ r. length r.1 ≡ length file_data) l file_data (take buffer_size bytes) refl refl
      λ long fits inside. length-write_at file_data l.position _

Within-trans : (l m : Loop) (t : Thread) → Within l (running m) → Within m t → Within l t
Within-trans l m (running n) v w = (w.0 ∙ v.0, omega (arith, v, w), w.2)
Within-trans l m (ended e) v w = tt

receive-elsewhere :
    (events : List Event) (l : Loop) (t : Thread) (file_data : Bytes) (k : ℕ)
    → Within l t
    → (k < l.position) ⊎ (l.limit ≤ k)
    → get_elem? (receive t file_data events).file_data k ≡ get_elem? file_data k
unfolding receive
receive-elsewhere [] l t file_data k w h = refl
receive-elsewhere (event ∷ events) l (ended e) file_data k w h = refl
receive-elsewhere (event ∷ events) l (running m) file_data k w h =
    receive-elsewhere events l (round m file_data event).thread (round m file_data event).file_data
      k (Within-trans l m _ w (round-Within m file_data event w.2)) h
    ∙ round-elsewhere m file_data event k (omega (arith, w))

-- The loop's variables at the start of a task's thread.
abbrev pub first : DownloadTask → Loop
first task = record {
  limit = task.output + task.size;
  remaining = task.size;
  position = task.output;
  retry_count = 0;
}

pub start-Within : (task : DownloadTask) → Within (first task) (start task)
unfolding start
start-Within task = loop_head-Within (first task) (first task) refl (omega arith) refl

-- Whatever arrives, a thread writes only inside its task's part of the shared buffer, from `output`
-- up to `output + size`.
pub download_chunk-elsewhere :
    (has_socket request_sent : Bool) (events : List Event) (task : DownloadTask) (file_data : Bytes)
    (k : ℕ)
    → (k < task.output) ⊎ (task.output + task.size ≤ k)
    → get_elem? (download_chunk has_socket request_sent events task file_data).file_data k
      ≡ get_elem? file_data k
unfolding download_chunk
download_chunk-elsewhere true true events task file_data k h =
    receive-elsewhere events (first task) (start task) file_data k (start-Within task) h
download_chunk-elsewhere true false events task file_data k h = refl
download_chunk-elsewhere false true events task file_data k h = refl
download_chunk-elsewhere false false events task file_data k h = refl

pub receive_timeout :
    (l : Loop) (file_data : Bytes) (events : List Event)
    → receive (running l) file_data (timeout ∷ events) ≡ receive (retry l) file_data events
unfolding receive round
receive_timeout l file_data events = refl

pub retry_again :
    (l : Loop)
    → l.retry_count < max_retries
    → retry l ≡ running (record l { retry_count = l.retry_count + 1 })
unfolding retry
retry_again l h = ground arith

-- A thread that waits for data gives up with the value 1 at the sixth `recvfrom` in a row that brings
-- nothing, and not before.
pub receive-timeouts :
    (n : ℕ) (l : Loop) (file_data : Bytes)
    → l.retry_count + n ≤ max_retries
    → (receive (running l) file_data (replicate n timeout)).thread
      ≡ running (record l { retry_count = l.retry_count + n })
receive-timeouts zero l file_data h = unfold receive in ground arith
receive-timeouts (suc n) l file_data h =
    ap (λ r. r.thread) (receive_timeout l file_data (replicate n timeout))
    ∙ ap (λ t. (receive t file_data (replicate n timeout)).thread) (retry_again l (omega arith))
    ∙ receive-timeouts n (record l { retry_count = l.retry_count + 1 }) file_data (omega arith)
    ∙ ap (λ k. running (record l { retry_count = k })) (omega arith)

pub retry_gives_up : (l : Loop) → max_retries ≤ l.retry_count → retry l ≡ ended (exited 1)
unfolding retry
retry_gives_up l h = ground arith
