-- ===== src/Ftp/Client.antt =====
-- ftp/client.c: the thread `download_chunk`. The operating system answers by arguments: what each
-- `connect` returns, the bytes that the connection will bring, and how many of them each `recv`
-- returns.
pub mod Receive
pub mod Writes
use network_protocol_cli_too.Common.{
  ℕ, zero, suc, ◌+◌, ◌-◌, ◌≡◌, Bool, true, false, not, ◌||◌, List, [], ◌∷◌, ◌++◌, Option, none,
  some, ltb, ◌==◌, if◌then◌else◌, length, take, drop, min, write_at,
}
use network_protocol_cli_too.CString.{Bytes}
use network_protocol_cli_too.Transfer.Protocol.{get_request}
use network_protocol_cli_too.Transfer.Plan.{DownloadTask}
use network_protocol_cli_too.Ftp.Server.{buffer_size}

-- How a thread ends: by `pthread_exit` with a value, or by reaching the end of the function, which
-- returns no value; `blocked` if it waits for more than the environment gives.
pub data Ended : Type 0 where
  exited : ℕ → Ended
  returned : Ended
  blocked : Ended

-- What the thread has requested, the shared buffer, and its end.
pub record Download : Type 0 where
  pub request : Bytes
  pub file_data : Bytes
  pub ended : Ended

-- `while (connect(…) == -1 && retries > 0) retries--;`, for the results of the calls in order: what
-- is left of `retries` behind the loop.
unfoldable pub connect_loop : List Bool → ℕ → Option ℕ
connect_loop [] retries = none
connect_loop (true ∷ results) retries = some retries
connect_loop (false ∷ results) zero = some zero
connect_loop (false ∷ results) (suc retries) = connect_loop results retries

-- `bytes_to_read`
abbrev pub to_read : ℕ → ℕ
to_read remaining = if ltb buffer_size remaining then buffer_size else remaining

-- `while (bytes_remaining > 0)`. A `recv` returns at most the bytes that are there, at most those that
-- are asked for, and at most the count that the environment gives; nothing at an error or at the end
-- of the stream.
unfoldable pub receive : List ℕ → Bytes → ℕ → ℕ → Bytes → Ended × Bytes
receive [] stream remaining position file_data =
    (if remaining == 0 then returned else blocked, file_data)
receive (count ∷ counts) stream remaining position file_data =
    let received = take (min count (to_read remaining)) stream in
    let n = length received in
    let later =
      receive counts (drop n stream) (remaining - n) (position + n)
        (write_at file_data position received) in
    if remaining == 0
    then (returned, file_data)
    else if n == 0
    then (exited 1, file_data)
    else if ltb remaining n
    then (exited 0, file_data)
    else later

-- What the environment does for one thread.
pub record Peer : Type 0 where
  pub has_socket : Bool
  pub connects : List Bool
  pub request_written : Bool
  pub stream : Bytes
  pub counts : List ℕ

requested : Bytes → Ended × Bytes → Download
requested request (e, file_data) = record { request = request; file_data = file_data; ended = e }

connected : Peer → DownloadTask → Bytes → Option ℕ → Download
unfolding requested receive
connected peer task file_data none = requested [] (blocked, file_data)
connected peer task file_data (some retries) =
    if retries == 0 || not peer.request_written
    then requested [] (exited 0, file_data)
    else requested (get_request buffer_size task.filename task.offset task.size)
        (receive peer.counts peer.stream task.size task.output file_data)

-- `download_chunk`. A missing socket, a connection that fails and a request that cannot be written
-- end the thread by `pthread_exit(NULL)`, which is the value 0.
unfoldable pub download_chunk : Peer → DownloadTask → Bytes → Download
unfolding requested connected connect_loop
download_chunk peer task file_data =
    if not peer.has_socket
    then requested [] (exited 0, file_data)
    else connected peer task file_data (connect_loop peer.connects 3)
