-- ===== src/Transfer/Protocol.antt =====
-- The text protocol: `CHECK <file>`, `GET <file> <offset> <size>`, `OK <size>` and `ACK <seq>`, as
-- ftp/client.c and tftp/client.c print them and ftp/server.c and tftp/server.c scan them.
pub mod RoundTrip
use mathlib.Core.Option
use network_protocol_cli_too.Common.{
  ℕ, zero, suc, ◌+◌, ◌-◌, ◌≤◌, ◌<◌, ◌≡◌, refl, sym, ap, ◌∙◌, Bool, List, [], ◌∷◌, ◌++◌, Option,
  none, some, arith, length, length-append, take, drop, take_all, append_assoc, append-nil,
  size_max,
}
use network_protocol_cli_too.CString.{Bytes, codes, c_str, strip_prefix}
use network_protocol_cli_too.CString.Decimal.{print_zu, scan_zu, scan_zu-print_zu, length-print_zu}
use network_protocol_cli_too.CString.Scan.{
  scan_word, scan_word_append, scan_word_space, IsWord, EndsWord,
}

-- `snprintf(buffer, n, …)` keeps what fits in front of the NUL.
abbrev pub snprintf : ℕ → Bytes → Bytes
snprintf n text = take (n - 1) text

-- `"CHECK %s"`
unfoldable pub check_request : ℕ → Bytes → Bytes
check_request n filename = snprintf n (codes "CHECK " ++ filename)

-- `"GET %s %zu %zu"`
unfoldable pub get_request : ℕ → Bytes → ℕ → ℕ → Bytes
unfolding print_zu
get_request n filename offset size =
    snprintf n (codes "GET " ++ (filename ++ (32 ∷ (print_zu offset ++ (32 ∷ print_zu size)))))

-- `"OK %zu"`
unfoldable pub ok_response : ℕ → ℕ → Bytes
unfolding print_zu
ok_response n file_size = snprintf n (codes "OK " ++ print_zu file_size)

abbrev pub not_found : Bytes
not_found = codes "ERROR File not found"

-- `"ACK %zu"`
unfoldable pub ack_packet : ℕ → ℕ → Bytes
unfolding print_zu
ack_packet n seq_num = snprintf n (codes "ACK " ++ print_zu seq_num)

-- The fields that a server's `sscanf` fills.
pub record Params : Type 0 where
  pub command : Bytes
  pub filename : Bytes
  pub offset : ℕ
  pub chunk_size : ℕ

-- The conversions in turn: each one is handed what its directive scanned.
set_chunk_size : Params → Option (ℕ × Bytes) → ℕ × Params
set_chunk_size p none = (3, p)
set_chunk_size p (some (n, rest)) = (4, record p { chunk_size = n })

set_offset : Params → Option (ℕ × Bytes) → ℕ × Params
unfolding set_chunk_size scan_zu
set_offset p none = (2, p)
set_offset p (some (n, rest)) = set_chunk_size (record p { offset = n }) (scan_zu rest)

set_filename : Params → Option (Bytes × Bytes) → ℕ × Params
unfolding set_offset scan_zu
set_filename p none = (1, p)
set_filename p (some (w, rest)) = set_offset (record p { filename = w }) (scan_zu rest)

set_command : Params → Option (Bytes × Bytes) → ℕ × Params
unfolding set_filename scan_word
set_command p none = (0, p)
set_command p (some (w, rest)) = set_filename (record p { command = w }) (scan_word 255 rest)

-- `sscanf(buffer, "%9s %255s %zu %zu", …)` into fields that hold `p`: how many conversions it makes
-- (0 stands for EOF too), and the fields. A field without a conversion keeps what it held.
unfoldable pub scan_request : Params → Bytes → ℕ × Params
unfolding set_command scan_word
scan_request p s = set_command p (scan_word 9 s)

-- `sscanf(buffer, "%zu", &n)`, where `n` held `old`
or_keep : ℕ → Option (ℕ × Bytes) → ℕ
or_keep old none = old
or_keep old (some (n, rest)) = n

unfoldable pub scan_number : ℕ → Bytes → ℕ
unfolding or_keep scan_zu
scan_number old s = or_keep old (scan_zu s)

scan_behind : ℕ → Option Bytes → ℕ
unfolding scan_number
scan_behind old none = old
scan_behind old (some rest) = scan_number old rest

-- `sscanf(buffer, "OK %zu", &file_size)`, where `file_size` held `old`
unfoldable pub scan_ok : ℕ → Bytes → ℕ
unfolding strip_prefix scan_behind
scan_ok old s = scan_behind old (strip_prefix (codes "OK") s)

-- `sscanf(buffer + 4, "%zu", &seq_num)`, of all the bytes of the buffer
unfoldable pub scan_ack : ℕ → Bytes → ℕ
unfolding scan_number c_str
scan_ack old buffer = scan_number old (c_str (drop 4 buffer))
