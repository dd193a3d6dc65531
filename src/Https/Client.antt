-- ===== src/Https/Client.antt =====
-- https/client.c: `parse_url`, the request, and the loop that prints or stores the response. What the
-- network and OpenSSL answer are arguments.
pub mod Parsing
pub mod Response
pub mod Fetch
use network_protocol_cli_too.Common.{
  ℕ, zero, suc, Bool, true, false, not, ◌&&◌, ◌||◌, List, [], ◌∷◌, ◌++◌, Option, none, some, ltb,
  ◌==◌, if◌then◌else◌, length, take, drop, ℤ, pos, negsuc,
}
use network_protocol_cli_too.CString.{Bytes, codes, bytes_eq, starts_with}
use network_protocol_cli_too.CString.Signed.{atoi}

-- What `parse_url` stores.
pub record Url : Type 0 where
  pub scheme : Bytes
  pub ip : Bytes
  pub port : ℤ
  pub path : Bytes

-- `strchr`: the text in front of the first `c`, and the text behind it.
unfoldable pub split_at : ℕ → Bytes → Option (Bytes × Bytes)
split_at c [] = none
split_at c (d ∷ s) =
    let later = split_at c s in
    if d == c then some ([], s) else elim later [ none ↦ none | some r ↦ some (d ∷ r.0, r.1) ]

-- The scheme, its port, and `url_start`.
unfoldable pub scheme_of : Bytes → Bytes × ℕ × Bytes
scheme_of url =
    if starts_with (codes "http://") url
    then (codes "http", 80, drop 7 url)
    else if starts_with (codes "https://") url
    then (codes "https", 443, drop 8 url)
    else (codes "https", 443, url)

abbrev pub port_is : ℕ → ℤ → Bool
port_is n (pos p) = p == n
port_is n (negsuc p) = false

abbrev pub is_positive : ℤ → Bool
is_positive (pos p) = ltb 0 p
is_positive (negsuc p) = false

-- The check of the port against the scheme.
agreed : Url → Option Url
agreed u =
    if port_is 443 u.port && bytes_eq u.scheme (codes "http")
    then none
    else if port_is 80 u.port && bytes_eq u.scheme (codes "https")
    then none
    else some u

-- `colon && colon < slash`: the colon is in front of the slash.
with_port : Bytes → ℕ → Bytes → Bytes → Option (Bytes × Bytes) → Option Url
unfolding agreed
with_port scheme port host path none =
    agreed (record { scheme = scheme; ip = host; port = pos port; path = path })
with_port scheme port host path (some (ip, behind)) =
    if ltb (length ip) (length host)
    then if is_positive (atoi behind)
      then agreed (record { scheme = scheme; ip = ip; port = atoi behind; path = path })
      else none
    else agreed (record { scheme = scheme; ip = host; port = pos port; path = path })

located : Bytes → ℕ → Bytes → Option (Bytes × Bytes) → Option Url
unfolding with_port split_at
located scheme port rest none = none
located scheme port rest (some (host, path)) = with_port scheme port host path (split_at b':' rest)

-- `parse_url`, which is none where it returns -1
unfoldable pub parse_url : Bytes → Option Url
unfolding scheme_of located split_at
parse_url url =
    let (scheme, port, rest) = scheme_of url in located scheme port rest (split_at b'/' rest)

-- The request, in an array of 1024 bytes.
unfoldable pub http_request : Bool → Bytes → Bytes → Bytes
http_request header_only path ip = take 1023 (
    (if header_only then codes "HEAD" else codes "GET")
    ++ codes " /"
    ++ path
    ++ codes " HTTP/1.1\r\nHost: "
    ++ ip
    ++ codes "\r\nConnection: close\r\n\r\n")

-- The loop over a buffer for `-h`: the bytes that are printed, and `header_done`. `i` is the index of
-- the next byte, behind `x`, `y`, `z`.
unfoldable pub print_header : ℕ → ℕ → ℕ → ℕ → Bytes → Bytes × Bool
print_header i x y z [] = ([], false)
print_header i x y z (c ∷ s) =
    let (printed, finished) = print_header (suc i) y z c s in
    if ltb 3 i && c == 10 && z == 13 && y == 10 && x == 13
    then (c ∷ [], true)
    else (c ∷ printed, finished)

-- What goes to the terminal and to the file `output.dat`.
pub record Output : Type 0 where
  pub printed : Bytes
  pub stored : Bytes

-- The loop over the buffers that the connection brings, up to one that is empty.
unfoldable pub read_response : Bool → List Bytes → Output
unfolding print_header
read_response header_only [] = record { printed = []; stored = [] }
read_response header_only ([] ∷ reads) = record { printed = []; stored = [] }
read_response header_only ((c ∷ s) ∷ reads) =
    let later = read_response header_only reads in
    let (header, finished) = print_header 0 0 0 0 (c ∷ s) in
    if header_only
    then if finished
      then record { printed = header; stored = [] }
      else record { printed = header ++ later.printed; stored = later.stored }
    else record { printed = later.printed; stored = (c ∷ s) ++ later.stored }

-- `fetch_via_http`: none where it returns `EXIT_FAILURE`, since the request is not sent or the file
-- cannot be created.
unfoldable pub fetch_via_http : Bool → Bool → Bool → List Bytes → Option Output
unfolding read_response
fetch_via_http sent created header_only reads =
    if sent && (header_only || created) then some (read_response header_only reads) else none
