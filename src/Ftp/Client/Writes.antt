-- ===== src/Ftp/Client/Writes.antt =====
-- A thread of ftp/client.c as the writes that it makes, one for each `recv`.
use network_protocol_cli_too.Common.{
  ℕ, ◌+◌, ◌-◌, ◌≤◌, ◌≡◌, ◌⊎◌, inl, inr, refl, sym, ap, ◌∙◌, Bool, true, false, not, ◌||◌, List, [],
  ◌∷◌, Option, none, some, arith, ltb, ◌==◌, if◌then◌else◌, length, take, drop, min, length-take,
  write_at, Bool-cases,
}
use network_protocol_cli_too.CString.{Bytes}
use network_protocol_cli_too.Transfer.Plan.{DownloadTask}
use network_protocol_cli_too.Ftp.Client.{
  Peer, to_read, receive, requested, connected, connect_loop, download_chunk,
}

-- What one `recv` stores: the place in the buffer, and the bytes.
abbrev pub Write : Type 0
Write = ℕ × Bytes

abbrev pub apply_all : List Write → Bytes → Bytes
apply_all [] file_data = file_data
apply_all ((position, bytes) ∷ writes) file_data =
    apply_all writes (write_at file_data position bytes)

-- What the calls of a thread store, in their order.
unfoldable pub writes_of : List ℕ → Bytes → ℕ → ℕ → List Write
writes_of [] stream remaining position = []
writes_of (count ∷ counts) stream remaining position =
    let received = take (min count (to_read remaining)) stream in
    let n = length received in
    let later = writes_of counts (drop n stream) (remaining - n) (position + n) in
    if remaining == 0 || n == 0 then [] else (position, received) ∷ later

receive_round :
    (count : ℕ) (counts : List ℕ) (stream : Bytes) (remaining position : ℕ) (file_data : Bytes)
    → let received = take (min count (to_read remaining)) stream in
      let n = length received in
      ((remaining == 0 || n == 0) ≡ true
        × ((receive (count ∷ counts) stream remaining position file_data).1 ≡ file_data))
      ⊎ ((remaining == 0 || n == 0) ≡ false
          × ((receive (count ∷ counts) stream remaining position file_data).1
              ≡ (receive counts
                  (drop n stream)
                  (remaining - n)
                  (position + n)
                  (write_at file_data position received)).1))
unfolding receive
receive_round count counts stream remaining position file_data =
    let size = length-take (min count (to_read remaining)) stream in
    elim (Bool-cases (remaining == 0)) [
      | inl e ↦ inl (rw e refl, rw e refl)
      | inr e ↦ elim (Bool-cases (length (take (min count (to_read remaining)) stream) == 0)) [
        | inl z ↦ inl (rw (e, z) refl, rw (e, z) refl)
        | inr z ↦
            let less : ltb remaining (length (take (min count (to_read remaining)) stream))
                ≡ false =
              ground (arith, size) in
            inr (rw (e, z) refl, rw (e, z, less) refl)
      ]
    ]

apply_if :
    (b : Bool) (w : Write) (ws : List Write) (file_data : Bytes)
    → apply_all (if b then [] else w ∷ ws) file_data
      ≡ (if b then file_data else apply_all ws (write_at file_data w.0 w.1))
apply_if true w ws file_data = refl
apply_if false w ws file_data = refl

-- The buffer that the loop leaves is the one that its writes leave.
pub receive-apply_all :
    (counts : List ℕ) (stream : Bytes) (remaining position : ℕ) (file_data : Bytes)
    → (receive counts stream remaining position file_data).1
      ≡ apply_all (writes_of counts stream remaining position) file_data
receive-apply_all [] stream remaining position file_data = unfold receive writes_of in refl
receive-apply_all (count ∷ counts) stream remaining position file_data =
    elim (receive_round count counts stream remaining position file_data) [
      | inl (e, same) ↦
          same
          ∙ (unfold writes_of in
              sym (
                apply_if _ (position, received) later file_data
                ∙ ap
                    (λ b.
                      if b
                      then file_data
                      else apply_all later (write_at file_data position received))
                    e))
      | inr (e, next) ↦
          next
          ∙ receive-apply_all counts (drop n stream) (remaining - n) (position + n)
              (write_at file_data position received)
          ∙ (unfold writes_of in
              sym (
                apply_if _ (position, received) later file_data
                ∙ ap
                    (λ b.
                      if b
                      then file_data
                      else apply_all later (write_at file_data position received))
                    e))
    ]
  where
    received : Bytes
    received = take (min count (to_read remaining)) stream

    n : ℕ
    n = length received

    later : List Write
    later = writes_of counts (drop n stream) (remaining - n) (position + n)

-- All writes lie from `a` up to `b`.
abbrev pub AllWithin : ℕ → ℕ → List Write → Type 0
AllWithin a b [] = Unit {0}
AllWithin a b ((position, bytes) ∷ writes) =
    (a ≤ position) × (position + length bytes ≤ b) × AllWithin a b writes

AllWithin-if :
    (a b : ℕ) (t : Bool) (w : Write) (ws : List Write)
    → AllWithin a b (w ∷ ws)
    → AllWithin a b (if t then [] else w ∷ ws)
AllWithin-if a b true w ws h = tt
AllWithin-if a b false w ws h = h

writes_of-AllWithin :
    (a b : ℕ) (counts : List ℕ) (stream : Bytes) (remaining position : ℕ)
    → a ≤ position
    → position + remaining ≤ b
    → AllWithin a b (writes_of counts stream remaining position)
unfolding writes_of
writes_of-AllWithin a b [] stream remaining position h k = tt
writes_of-AllWithin a b (count ∷ counts) stream remaining position h k =
    let received = take (min count (to_read remaining)) stream in
    let n = length received in
    let size : n ≡ min (min count (to_read remaining)) (length stream) =
      length-take (min count (to_read remaining)) stream in
    let less : n ≤ remaining = ground (arith, size) in
    AllWithin-if a b (remaining == 0 || n == 0) (position, received) _
      (
        h,
        omega (arith, less),
        writes_of-AllWithin a b counts (drop n stream) (remaining - n) (position + n) (omega arith)
            (omega (arith, less)),
      )

if_within :
    (a b : ℕ) (t : Bool) (ws : List Write) → AllWithin a b ws → AllWithin a b (if t then [] else ws)
if_within a b true ws h = tt
if_within a b false ws h = h

connected_writes : Peer → DownloadTask → Option ℕ → List Write
connected_writes peer task none = []
connected_writes peer task (some retries) =
    if retries == 0 || not peer.request_written
    then []
    else writes_of peer.counts peer.stream task.size task.output

-- The writes of a thread: none if it does not come to its loop
unfoldable pub thread_writes : Peer → DownloadTask → List Write
unfolding connected_writes
thread_writes peer task =
    if not peer.has_socket then [] else connected_writes peer task (connect_loop peer.connects 3)

connected-apply_all :
    (peer : Peer) (task : DownloadTask) (file_data : Bytes) (left : Option ℕ)
    → (connected peer task file_data left).file_data
      ≡ apply_all (connected_writes peer task left) file_data
unfolding connected connected_writes requested
connected-apply_all peer task file_data none = refl
connected-apply_all peer task file_data (some retries) =
    elim (Bool-cases (retries == 0 || not peer.request_written)) [
      | inl e ↦ rw e refl
      | inr e ↦ rw e (receive-apply_all peer.counts peer.stream task.size task.output file_data)
    ]

-- A thread leaves in the buffer what its writes leave.
pub download_chunk-apply_all :
    (peer : Peer) (task : DownloadTask) (file_data : Bytes)
    → (download_chunk peer task file_data).file_data ≡ apply_all (thread_writes peer task) file_data
unfolding download_chunk thread_writes requested
download_chunk-apply_all peer task file_data = elim (Bool-cases (not peer.has_socket)) [
  | inl e ↦ rw e refl
  | inr e ↦ rw e (connected-apply_all peer task file_data (connect_loop peer.connects 3))
]

-- A thread writes into its task's part of the buffer only.
pub thread_writes-AllWithin :
    (peer : Peer) (task : DownloadTask)
    → AllWithin task.output (task.output + task.size) (thread_writes peer task)
unfolding thread_writes
thread_writes-AllWithin peer task = elim (Bool-cases (not peer.has_socket)) [
  | inl e ↦ rw e tt
  | inr e ↦ rw e (behind (connect_loop peer.connects 3))
]
  where
    behind :
        (left : Option ℕ)
        → AllWithin task.output (task.output + task.size) (connected_writes peer task left)
    behind none = unfold connected_writes in tt
    behind (some retries) =
        unfold connected_writes in
        if_within task.output (task.output + task.size) (retries == 0 || not peer.request_written)
          (writes_of peer.counts peer.stream task.size task.output)
          (writes_of-AllWithin task.output (task.output + task.size) peer.counts peer.stream
            task.size task.output (omega arith) (omega arith))
