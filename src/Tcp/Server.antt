-- ===== src/Tcp/Server.antt =====
-- archive/file-transfer/tcp-file-transfer/src/myserver.c: one connection of the loop of `main`. A number
-- on the wire is 32 bits, the first byte the highest.
use network_protocol_cli_too.Common.{
  ℕ, ◌+◌, ◌*◌, ◌/◌, ◌%◌, ◌^◌, Bool, true, false, not, [], ◌∷◌, ◌++◌, Option, none, some, ltb, ◌==◌,
  if◌then◌else◌, length, take, drop, into, Outcome, ok, ◌>>=◌, ◌>>◌, undefined_if,
}
use network_protocol_cli_too.CString.{Bytes, codes, c_str}

abbrev pub buff_size : ℕ
buff_size = 2048

abbrev pub filename_size : ℕ
filename_size = 300

-- `htonl` and what is written of its result, and the other way.
unfoldable pub htonl : ℕ → Bytes
htonl n = (n / 2 ^ 24) % 256 ∷ (n / 2 ^ 16) % 256 ∷ (n / 2 ^ 8) % 256 ∷ n % 256 ∷ []

unfoldable pub ntohl : Bytes → ℕ
ntohl [] = 0
ntohl (c ∷ s) = c * 256 ^ length s + ntohl s

-- What the server leaves: what it sent, and whether the process goes on.
pub record Served : Type 0 where
  pub sent : Bytes
  pub goes_on : Bool

-- `fread` into an array of 2048 bytes, and `send`.
unfoldable pub send_segment : Bytes → ℕ → ℕ → Outcome Bytes
send_segment file offset segment_size =
    let chunk = take segment_size (drop offset file) in
    do undefined_if (ltb buff_size (length chunk)); ok chunk

-- The download: the offset, then the size, through the variable `response`.
unfoldable pub serve_download : Bytes → Bytes → Bytes → Outcome Bytes
unfolding send_segment ntohl
serve_download file response stream =
    let first = into response (take 4 stream) in
    let second = into first (take 4 (drop 4 stream)) in
    send_segment file (ntohl first) (ntohl second)

-- The request behind the file's name: its flag, then what belongs to it.
unfoldable pub serve_flag : Bytes → Bytes → Bytes → Bytes → Outcome Bytes
unfolding serve_download htonl
serve_flag file response flag stream =
    let got = into flag (take 1 stream) in
    elim got [
      | [] ↦ ok []
      | c ∷ s ↦
          if c == b'1'
          then serve_download file response (drop 1 stream)
          else if c == b'0'
          then ok (htonl (length file % 2 ^ 32))
          else ok []
    ]

opened : Option Bytes → Bytes → Bytes → Bytes → Outcome Served
unfolding serve_flag
opened none response flag stream = ok (record { sent = codes "1"; goes_on = false })
opened (some file) response flag stream = do
  sent ← serve_flag file response flag stream
  ok (record { sent = codes "0" ++ sent; goes_on = true })

-- One connection: the files, what the array `filename` and the variables `response` and `flag` held, the
-- message with the name, and what comes behind it. The name is a string where a NUL is in the array.
unfoldable pub serve :
    (Bytes → Option Bytes) → Bytes → Bytes → Bytes → Bytes → Bytes → Outcome Served
unfolding opened c_str
serve files filename response flag message stream =
    let name = into filename (take filename_size message) in
    do
      undefined_if (not (ltb (length (c_str name)) (length name)))
      opened (files (c_str name)) response flag stream
