-- ===== src/Web/Simple.antt =====
-- archive/web-downloader/simple-web-downloader/src/client.c: an earlier form, which takes the name of the
-- host, then its address with the path. Its loops over the response are those of Web.Response.
use network_protocol_cli_too.Common.{
  Bool, false, not, [], ◌∷◌, ◌++◌, Option, none, some, leb, if◌then◌else◌, length, ℤ, pos, Outcome,
  ok, fault, ◌>>=◌, ◌>>◌, undefined_if, exit_if,
}
use network_protocol_cli_too.CString.{Bytes, codes, strip_prefix}
use network_protocol_cli_too.CString.Signed.{atoi}
use network_protocol_cli_too.CString.Search.{strtok, find_text, up_to}
use network_protocol_cli_too.Web.Response.{Header, read_header, length_of, body}
use network_protocol_cli_too.Web.Secure.{Target, Output, token}

port_of : Option (Bytes × Bytes) → ℤ
unfolding atoi
port_of none = pos 80
port_of (some (text, rest)) = atoi text

host_of : Option Bytes → Option (Bytes × Bytes) → Outcome Target
unfolding port_of strtok
host_of path none = fault
host_of path (some (host, rest)) = ok (record {
  ssl_mode = false;
  host = host;
  port = port_of (strtok (codes ":") rest);
  path = path;
})

addressed : Option (Bytes × Bytes) → Outcome Target
unfolding host_of strtok
addressed none = fault
addressed (some (authority, rest)) =
    host_of (token (strtok (codes "/") rest)) (strtok (codes ":") authority)

-- The second argument: the address, its port and the path.
unfoldable pub target : Bytes → Outcome Target
unfolding addressed strtok
target text = addressed (strtok (codes "/") text)

-- The request names the host by the first argument.
request : Bool → Bytes → Option Bytes → Outcome Bytes
request head host none = fault
request head host (some path) =
    let text =
      (if head then codes "HEAD" else codes "GET")
      ++ codes " /"
      ++ path
      ++ codes " HTTP/1.1\r\nHost: "
      ++ host
      ++ codes "\r\n\r\n" in
    do undefined_if (leb 1024 (length text)); ok (text ++ (0 ∷ []))

-- Where there is no number, `length` is what it was; the search in a text that is NULL is undefined.
scan_length : ℤ → Option Bytes → ℤ
unfolding length_of
scan_length unset none = unset
scan_length unset (some text) = elim (length_of unset text) [ none ↦ unset | some n ↦ n ]

located_length : ℤ → Option Bytes → Outcome ℤ
unfolding scan_length strip_prefix up_to
located_length unset none = fault
located_length unset (some text) =
    ok (scan_length unset (strip_prefix (codes "Content-Length:") (up_to b'\r' text)))

unfoldable pub content_length : ℤ → Bytes → Outcome ℤ
unfolding located_length find_text
content_length unset temp = located_length unset (find_text (codes "Content-Length: ") temp)

stored_body : ℤ → Bool → Bytes → Header → Outcome Output
unfolding content_length body
stored_body unset creates sent header = do
  n ← content_length unset header.temp
  undefined_if (not creates)
  ok (record { sent = sent; printed = []; stored = body 0 n header.rest })

exchange : Bytes → ℤ → Bool → Bool → Bytes → Target → Bytes → Outcome Output
unfolding request read_header stored_body
exchange temp unset creates head host t reads = do
  sent ← request head host t.path
  header ← read_header temp reads
  if head
      then ok (record { sent = sent; printed = header.printed; stored = [] })
      else stored_body unset creates sent header

-- What the system answers before the request.
pub record Network : Type 0 where
  pub has_socket : Bool
  pub has_address : Bool
  pub connects : Bool

-- `main` on the host, the address, and `-h` or not; it returns -1 where a call fails.
unfoldable pub run : Network → Bytes → ℤ → Bool → Bool → Bytes → Bytes → Bytes → Outcome Output
unfolding target exchange
run net temp unset creates head host address reads = do
  exit_if (not net.has_socket)
  t ← target address
  exit_if (not net.has_address)
  exit_if (not net.connects)
  exchange temp unset creates head host t reads
