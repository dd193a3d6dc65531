-- ===== src/Web/Response.antt =====
-- The loops of archive/web-downloader/secure-web-downloader/src/myweb.c over the response, which comes
-- byte by byte. Those over TLS and those without are alike.
pub mod HeaderEnd
pub mod Reading
pub mod Lines
use network_protocol_cli_too.Common.{
  ℕ, suc, Bool, true, false, List, [], ◌∷◌, ◌++◌, Option, none, some, leb, ltb_ℤ, if◌then◌else◌,
  length, ℤ, pos, Outcome, ok, exit_failure, fault, ◌>>=◌, ◌>>◌, undefined_if,
}
use network_protocol_cli_too.CString.{Bytes, codes, c_str, skip_spaces}
use network_protocol_cli_too.CString.Signed.{scan_d}
use network_protocol_cli_too.CString.Search.{contains}

abbrev pub temp_size : ℕ
temp_size = 2048

abbrev pub header_end : Bytes
header_end = codes "\r\n\r\n"

-- What the loop over the header leaves: the array `temp` as a string, what is printed for `-h`, and
-- what the connection brings afterwards.
pub record Header : Type 0 where
  pub temp : Bytes
  pub printed : Bytes
  pub rest : Bytes

abbrev pub printed_first : Bytes → Outcome Header → Outcome Header
printed_first text m = m >>= λ h. ok (record h { printed = text ++ h.printed })

-- `temp` is an array on the stack that is not set, so its first content is an argument. A byte that is
-- NUL is an empty string.
unfoldable pub read_header : Bytes → Bytes → Outcome Header
unfolding c_str contains
read_header temp [] = ok (record { temp = temp; printed = []; rest = [] })
read_header temp (c ∷ s) =
    let text = c_str (c ∷ []) in
    elim (leb temp_size (length (temp ++ text))) [
      | true ↦ fault
      | false ↦ elim (contains header_end (temp ++ text)) [
        | true ↦ ok (record { temp = temp ++ text; printed = text; rest = s })
        | false ↦ printed_first text (read_header (temp ++ text) s)
      ]
    ]

-- `sscanf(text, "Content-Length: %d", &length)` behind the words: `EOF` where there is only white
-- space, else a number, or no conversion, which leaves `length` what it is.
unfoldable pub scanned_length : ℤ → Option (ℤ × Bytes) → ℤ
scanned_length unset none = unset
scanned_length unset (some (n, rest)) = n

unfoldable pub length_of : ℤ → Bytes → Option ℤ
unfolding scanned_length scan_d skip_spaces
length_of unset text = elim (skip_spaces text) [
  | [] ↦ none
  | c ∷ s ↦ some (scanned_length unset (scan_d text))
]

-- The loop that writes output.dat: a byte is read before the count is looked at.
unfoldable pub body : ℕ → ℤ → Bytes → Bytes
unfolding c_str
body n length [] = []
body n length (c ∷ s) =
    let later = body (suc n) length s in
    if ltb_ℤ (pos n) length then c_str (c ∷ []) ++ later else []
