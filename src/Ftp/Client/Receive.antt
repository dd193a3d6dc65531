-- ===== src/Ftp/Client/Receive.antt =====
-- What a thread has in its part of the buffer, and when it gives up.
use network_protocol_cli_too.Common.{
  ℕ, zero, suc, ◌+◌, ◌-◌, ◌≤◌, ◌<◌, ◌≡◌, refl, sym, ap, ◌∙◌, Bool, true, false, List, [], ◌∷◌, ◌++◌,
  some, arith, ltb, ◌==◌, length, take, drop, min, write_at, write_at-append, write_at-nil,
  take-add, length-take, length-drop, replicate,
}
use network_protocol_cli_too.CString.{Bytes}
use network_protocol_cli_too.Transfer.Protocol.{get_request}
use network_protocol_cli_too.Transfer.Plan.{DownloadTask}
use network_protocol_cli_too.Ftp.Server.{buffer_size}
use network_protocol_cli_too.Ftp.Client.{
  returned, connect_loop, to_read, receive, Peer, requested, connected, download_chunk,
}

-- `n` failures of `connect` and a success leave `retries - n`, for `n` up to `retries`. With 3
-- retries, a fourth attempt that succeeds leaves 0, where the thread gives up.
pub connect_loop_failures :
    (n retries : ℕ) (results : List Bool)
    → n ≤ retries
    → connect_loop (replicate n false ++ (true ∷ results)) retries ≡ some (retries - n)
unfolding connect_loop
connect_loop_failures zero retries results h = ap some (omega arith)
connect_loop_failures (suc n) zero results h = absurd (omega arith)
connect_loop_failures (suc n) (suc retries) results h =
    connect_loop_failures n retries results (omega arith) ∙ ap some (omega arith)

-- A `recv` that is made returns something.
abbrev pub AllPositive : List ℕ → Type 0
AllPositive [] = Unit {0}
AllPositive (n ∷ ns) = (0 < n) × AllPositive ns

receive_some :
    (count : ℕ) (counts : List ℕ) (stream : Bytes) (remaining position : ℕ) (file_data : Bytes)
    (n : ℕ)
    → 0 < remaining
    → length (take (min count (to_read remaining)) stream) ≡ n
    → 0 < n
    → n ≤ remaining
    → receive (count ∷ counts) stream remaining position file_data
      ≡ receive counts
          (drop n stream)
          (remaining - n)
          (position + n)
          (write_at file_data position (take (min count (to_read remaining)) stream))
unfolding receive
receive_some count counts stream remaining position file_data n r e p h =
    rw (e, positive, some_bytes, in_range) refl
  where
    positive : (remaining == 0) ≡ false
    positive = ground arith

    some_bytes : (n == 0) ≡ false
    some_bytes = ground arith

    in_range : ltb remaining n ≡ false
    in_range = ground arith

-- A thread that can read as much as its task is for comes to its end, and has copied exactly the
-- first bytes of the stream to its part of the buffer, if no `recv` fails and there are enough.
pub receive-returned :
    (counts : List ℕ) (stream : Bytes) (remaining position : ℕ) (file_data : Bytes)
    → AllPositive counts
    → remaining ≤ length counts
    → remaining ≤ length stream
    → receive counts stream remaining position file_data
      ≡ (returned, write_at file_data position (take remaining stream))
receive-returned [] stream zero position file_data a e h =
    unfold receive in ap (λ d. (returned, d)) (sym (write_at-nil file_data position))
receive-returned (count ∷ counts) stream zero position file_data a e h =
    unfold receive in ap (λ d. (returned, d)) (sym (write_at-nil file_data position))
receive-returned [] stream (suc remaining) position file_data a e h = absurd (omega arith)
receive-returned (count ∷ counts) stream (suc remaining) position file_data a e h =
    let asked = min count (to_read (suc remaining)) in
    let n = length (take asked stream) in
    let size : n ≡ min asked (length stream) = length-take asked stream in
    let all : n ≡ asked = ground (arith, size) in
    let less : n ≤ suc remaining = ground (arith, size) in
    let rejoined : n + (suc remaining - n) ≡ suc remaining = omega (arith, less) in
    receive_some count counts stream (suc remaining) position file_data n (omega arith) refl
      (ground (arith, size, a.0)) (ground (arith, size))
    ∙ receive-returned counts (drop n stream) (suc remaining - n) (position + n)
        (write_at file_data position (take asked stream)) a.1 (ground (arith, size, a.0))
        (omega (arith, length-drop n stream))
    ∙ ap (λ d. (returned, d))
        (write_at-append file_data position (take asked stream)
            (take (suc remaining - n) (drop n stream))
          ∙ ap (write_at file_data position) (
              ap (λ k. take k stream ++ take (suc remaining - n) (drop n stream)) (sym all)
              ∙ sym (take-add n (suc remaining - n) stream)
              ∙ ap (λ k. take k stream) rejoined))

-- The calls of one thread succeed: it connects with a retry left, and enough calls of `recv` each
-- return something.
pub record Connects (peer : Peer) (task : DownloadTask) : Type 0 where
  pub socket : peer.has_socket ≡ true
  pub left : ℕ
  pub connects : connect_loop peer.connects 3 ≡ some (suc left)
  pub written : peer.request_written ≡ true
  pub some_bytes : AllPositive peer.counts
  pub enough : task.size ≤ length peer.counts

-- A thread whose calls succeed comes to its end, with its request sent and the first bytes of the
-- stream in its part of the buffer, which is all that it changes.
pub download_chunk-returned :
    (peer : Peer) (task : DownloadTask) (file_data : Bytes)
    → Connects peer task
    → task.size ≤ length peer.stream
    → download_chunk peer task file_data ≡ record {
      request = get_request buffer_size task.filename task.offset task.size;
      file_data = write_at file_data task.output (take task.size peer.stream);
      ended = returned;
    }
unfolding download_chunk requested
download_chunk-returned peer task file_data c h =
    simp (c.socket, c.connects)
      (unfold connected in
        simp (c.written, retries_left)
          (ap (requested (get_request buffer_size task.filename task.offset task.size)) (
            receive-returned peer.counts peer.stream task.size task.output file_data c.some_bytes
              c.enough h)))
  where
    retries_left : (suc c.left == 0) ≡ false
    retries_left = ground arith
