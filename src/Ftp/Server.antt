-- ===== src/Ftp/Server.antt =====
-- ftp/server.c: `handle_client`. The operating system answers by arguments: what `recv` returns,
-- which files there are, and what each `write` of file data returns.
pub mod Stream
pub mod Get
pub mod Main
use network_protocol_cli_too.Common.{
  ℕ, zero, suc, ◌+◌, ◌-◌, ◌^◌, ◌≡◌, Bool, true, false, ◌||◌, List, [], ◌∷◌, ◌++◌, Option, none,
  some, ltb, leb, ◌==◌, if◌then◌else◌, length, take, drop, slice, add_size, sub_size, size_max,
}
use network_protocol_cli_too.CString.{Bytes, codes, c_str, bytes_eq}
use network_protocol_cli_too.Transfer.Protocol.{Params, scan_request, ok_response, not_found}

abbrev pub buffer_size : ℕ
buffer_size = 1_048_576

-- How a connection ends: closed at the end of `handle_client`, closed early, by `exit` of the whole
-- server, in undefined behaviour, or not yet (no further `write` is given).
pub data Ended : Type 0 where
  closed : Ended
  dropped : Ended
  process_exit : Ended
  undefined : Ended
  writing : Ended

-- What goes to the client, and how the connection ends.
pub record Served : Type 0 where
  pub sent : Bytes
  pub ended : Ended

pub stop : Ended → Served
stop e = record { sent = []; ended = e }

pub sent_first : Bytes → Served → Served
sent_first b s = record s { sent = b ++ s.sent }

-- A block of the file on its way: the buffer with what `fread` read, `bytes_to_send` and
-- `bytes_sent_total`; `bytes_remaining` (this block included) and the file behind the block.
pub record Block : Type 0 where
  pub buffer : Bytes
  pub to_send : ℕ
  pub total : ℕ
  pub remaining : ℕ
  pub rest : Bytes

pub data Next : Type 0 where
  finish : Ended → Next
  block : Block → Next

read_block : ℕ → Bytes → Bytes → Next
read_block remaining behind [] = finish closed
read_block remaining behind (b ∷ bytes) = block (record {
  buffer = b ∷ bytes;
  to_send = length (b ∷ bytes);
  total = 0;
  remaining = remaining;
  rest = behind;
})

abbrev pub block_size : ℕ → ℕ
block_size remaining = if ltb buffer_size remaining then buffer_size else remaining

-- The head of `while (bytes_remaining > 0)` and its `fread`. At the end of the file the loop breaks.
pub load : ℕ → Bytes → Next
unfolding read_block
load remaining rest =
    if remaining == 0
    then finish closed
    else read_block remaining (drop (block_size remaining) rest) (take (block_size remaining) rest)

-- Behind a `write` of `n` bytes: the block's counters, and the next block when it is sent. The
-- counters are `size_t`.
pub advance : Block → ℕ → Next
unfolding load
advance b n =
    let left = sub_size b.to_send n in
    if left == 0
    then load (sub_size b.remaining (length b.buffer)) b.rest
    else block (record b { to_send = left; total = add_size b.total n })

-- The result of a `write`: a count, or the error -1, which `size_t` turns into its largest value.
abbrev pub as_count : Option ℕ → ℕ
as_count none = size_max
as_count (some n) = n

-- What `write` takes from the buffer: nothing at an error.
abbrev pub written : Block → Option ℕ → Bytes
written b none = []
written b (some n) = slice b.buffer b.total n

-- The inner and the outer loop, one `write` after the other. A function of the environment gives the
-- result of each `write` from the count that it is asked to send. A `bytes_sent_total` that has
-- wrapped points in front of the buffer.
unfoldable pub send_blocks : List (ℕ → Option ℕ) → Next → Served
unfolding stop sent_first advance
send_blocks writes (finish e) = stop e
send_blocks [] (block b) = stop writing
send_blocks (w ∷ writes) (block b) =
    let result = w b.to_send in
    let later = send_blocks writes (advance b (as_count result)) in
    if ltb buffer_size b.total
    then stop undefined
    else if as_count result == 0
    then stop dropped
    else sent_first (written b result) later

-- `offset >= file_size || offset + chunk_size > file_size`, in `size_t`
abbrev pub out_of_range : ℕ → ℕ → ℕ → Bool
out_of_range file_size offset chunk_size =
    leb file_size offset || ltb file_size (add_size offset chunk_size)

serve_get : List (ℕ → Option ℕ) → ℕ → ℕ → Bytes → Served
unfolding stop load
serve_get writes offset chunk_size file =
    if out_of_range (length file) offset chunk_size
    then stop process_exit
    else send_blocks writes (load chunk_size (drop offset file))

-- Behind the check of the request: the file is opened.
serve_file : Bool → List (ℕ → Option ℕ) → Params → Option Bytes → Served
unfolding serve_get
serve_file is_check writes p none = record { sent = not_found; ended = dropped }
serve_file true writes p (some file) = record {
  sent = ok_response buffer_size (length file);
  ended = closed;
}
serve_file false writes p (some file) = serve_get writes p.offset p.chunk_size file

-- The check of the scanned request. A refused request is answered by an empty text.
serve_request : (Bytes → Option Bytes) → List (ℕ → Option ℕ) → ℕ × Params → Served
unfolding stop serve_file
serve_request fopen writes (count, p) =
    if bytes_eq p.command (codes "CHECK")
    then if ltb count 2 then stop dropped else serve_file true writes p (fopen p.filename)
    else if bytes_eq p.command (codes "GET")
    then if ltb count 4 || p.chunk_size == 0
      then stop dropped
      else serve_file false writes p (fopen p.filename)
    else stop dropped

-- `handle_client`. `none` stands for a `recv` that fails: -1 is a count above the buffer's size. The
-- fields of the request hold `old` before the scan.
unfoldable pub handle_client :
    Params → (Bytes → Option Bytes) → List (ℕ → Option ℕ) → Option Bytes → Served
unfolding stop serve_request
handle_client old fopen writes none = stop dropped
handle_client old fopen writes (some []) = stop dropped
handle_client old fopen writes (some (c ∷ request)) =
    serve_request fopen writes (scan_request old (c_str (take (buffer_size - 1) (c ∷ request))))
