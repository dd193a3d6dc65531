-- ===== src/Web/Secure.antt =====
-- archive/web-downloader/secure-web-downloader/src/myweb.c: the URL, the request, and what is stored or
-- printed. What the system calls and OpenSSL return are arguments.
pub mod Length
pub mod Stored
use network_protocol_cli_too.Common.{
  ℕ, Bool, true, false, not, List, [], ◌∷◌, ◌++◌, Option, none, some, leb, if◌then◌else◌, length, ℤ,
  pos, Outcome, ok, exit_failure, fault, ◌>>=◌, ◌>>◌, undefined_if, exit_if,
}
use network_protocol_cli_too.CString.{Bytes, codes, bytes_eq, strip_prefix}
use network_protocol_cli_too.CString.Signed.{atoi}
use network_protocol_cli_too.CString.Search.{strtok, find_text, up_to}
use network_protocol_cli_too.Web.Response.{Header, read_header, length_of, body}

-- `SSLmode`, `ip_port` and `pathname`. A missing path is NULL.
pub record Target : Type 0 where
  pub ssl_mode : Bool
  pub host : Bytes
  pub port : ℤ
  pub path : Option Bytes

abbrev pub token : Option (Bytes × Bytes) → Option Bytes
token none = none
token (some (t, rest)) = some t

port_of : Option (Bytes × Bytes) → ℤ
unfolding atoi
port_of none = pos 80
port_of (some (text, rest)) = atoi text

-- The tokens of the host's part. Without one the name of the host is NULL.
host_of : Bool → Option Bytes → Option (Bytes × Bytes) → Outcome Target
unfolding port_of strtok
host_of ssl_mode path none = fault
host_of ssl_mode path (some (host, rest)) = ok (record {
  ssl_mode = ssl_mode;
  host = host;
  port = port_of (strtok (codes ":") rest);
  path = path;
})

addressed : Bool → Option (Bytes × Bytes) → Outcome Target
unfolding host_of strtok
addressed ssl_mode none = fault
addressed ssl_mode (some (authority, rest)) =
    host_of ssl_mode (token (strtok (codes "/") rest)) (strtok (codes ":") authority)

after_scheme : Option (Bytes × Bytes) → Outcome Target
unfolding addressed strtok
after_scheme none = fault
after_scheme (some (first, rest)) =
    if bytes_eq first (codes "https:")
    then addressed true (strtok (codes "/") rest)
    else addressed false (some (first, rest))

unfoldable pub target : Bytes → Outcome Target
unfolding after_scheme strtok
target url = after_scheme (strtok (codes "/") url)

-- `sprintf` into 1024 bytes. It is sent with its NUL.
request_text : Bool → Bytes → Option Bytes → Outcome Bytes
request_text head host none = fault
request_text head host (some path) =
    let text =
      (if head then codes "HEAD" else codes "GET")
      ++ codes " /"
      ++ path
      ++ codes " HTTP/1.1\r\nHost: "
      ++ host
      ++ codes "\r\n\r\n" in
    do undefined_if (leb 1024 (length text)); ok (text ++ (0 ∷ []))

unfoldable pub request : Bool → Target → Outcome Bytes
unfolding request_text
request head t = request_text head t.host t.path

-- The answer to `find_text` for the content length: the line behind its name, up to the '\r'.
scan_length : ℤ → Option Bytes → Outcome ℤ
unfolding length_of
scan_length unset none = fault
scan_length unset (some text) = elim (length_of unset text) [ none ↦ exit_failure | some n ↦ ok n ]

located_length : ℤ → Option Bytes → Outcome ℤ
unfolding scan_length strip_prefix up_to
located_length unset none = exit_failure
located_length unset (some text) =
    scan_length unset (strip_prefix (codes "Content-Length:") (up_to b'\r' text))

-- `length` from the header: `exit(1)` where it is not given.
unfoldable pub content_length : ℤ → Bytes → Outcome ℤ
unfolding located_length find_text
content_length unset temp = located_length unset (find_text (codes "Content-Length: ") temp)

-- What the process leaves: what it sent, what it printed and what it stored.
pub record Output : Type 0 where
  pub sent : Bytes
  pub printed : Bytes
  pub stored : Bytes

stored_body : ℤ → Bool → Bytes → Header → Outcome Output
unfolding content_length body
stored_body unset creates sent header = do
  n ← content_length unset header.temp
  undefined_if (not creates)
  ok (record { sent = sent; printed = []; stored = body 0 n header.rest })

-- The request and the response, with the array `temp` and the variable `length` as they are found, and
-- whether output.dat can be created. `fprintf` to a file that is NULL is undefined.
unfoldable pub exchange : Bytes → ℤ → Bool → Bool → Target → Bytes → Outcome Output
unfolding request read_header stored_body
exchange temp unset creates head t reads = do
  sent ← request head t
  header ← read_header temp reads
  if head
      then ok (record { sent = sent; printed = header.printed; stored = [] })
      else stored_body unset creates sent header

-- What the system and OpenSSL answer before the request.
pub record Network : Type 0 where
  pub resolves : Bool
  pub has_socket : Bool
  pub has_address : Bool
  pub connects : Bool
  pub context : Bool
  pub has_ssl : Bool
  pub handshake : Bool

-- `main` on a URL, with or without `-h`.
unfoldable pub run : Network → Bytes → ℤ → Bool → Bool → Bytes → Bytes → Outcome Output
unfolding target exchange
run net temp unset creates head url reads = do
  t ← target url
  exit_if (not net.resolves)
  exit_if (not net.has_socket)
  exit_if (not net.has_address)
  exit_if (not net.connects)
  exit_if (if t.ssl_mode then not net.context else false)
  exit_if (if t.ssl_mode then not net.has_ssl else false)
  exit_if (if t.ssl_mode then not net.handshake else false)
  exchange temp unset creates head t reads
