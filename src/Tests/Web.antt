-- ===== src/Tests/Web.antt =====
-- A response with three header lines, and URLs.
use network_protocol_cli_too.Common.{
  ◌≡◌, refl, true, false, [], ◌∷◌, ◌++◌, none, some, arith, pos, ok,
}
use network_protocol_cli_too.CString.{Bytes, codes, bytes_eq, starts_with}
use network_protocol_cli_too.CString.Decimal.{print_zu}
use network_protocol_cli_too.CString.Signed.{atoi}
use network_protocol_cli_too.CString.Search.{find_text, strtok}
use network_protocol_cli_too.Web.Response.Lines.{AllOther, header_text}
use network_protocol_cli_too.Web.Secure.{Target, target, request, exchange}
use network_protocol_cli_too.Web.Secure.Length.{length_name, length_line}
use network_protocol_cli_too.Web.Secure.Stored.{exchange-lines}

abbrev ab_x : Target
ab_x = record { ssl_mode = true; host = codes "ab"; port = pos 443; path = some (codes "x") }

-- Only the first part of a path is asked for.
target_path : target (codes "https://ab:443/x/y") ≡ ok ab_x
unfolding target strtok bytes_eq atoi
target_path = refl

-- The scheme of an `http` URL is taken for the host.
target_http :
    target (codes "http://ab/x")
    ≡ ok (record { ssl_mode = false; host = codes "http"; port = pos 80; path = some (codes "ab") })
unfolding target strtok bytes_eq
target_http = refl

abbrev get_sent : Bytes
get_sent = codes "GET /x HTTP/1.1\r\nHost: ab\r\n\r\n" ++ (0 ∷ [])

abbrev head_sent : Bytes
head_sent = codes "HEAD /x HTTP/1.1\r\nHost: ab\r\n\r\n" ++ (0 ∷ [])

get_request : request false ab_x ≡ ok get_sent
unfolding request
get_request = refl

head_request : request true ab_x ≡ ok head_sent
unfolding request
head_request = refl

abbrev response : Bytes
response = header_text (codes "HTTP/1.1 200" ∷ length_line 2 ∷ codes "A: b" ∷ []) ++ codes "okay"

status-AllOther : AllOther (codes "HTTP/1.1 200")
status-AllOther = ground arith

last-AllOther : AllOther (codes "A: b")
last-AllOther = ground arith

no_length : find_text length_name (codes "HTTP/1.1 200") ≡ none
unfolding find_text starts_with
no_length = refl

exchange-lines_example :
    (exchange [] (pos 0) true false ab_x response
      ≡ ok (record { sent = get_sent; printed = []; stored = codes "ok" }))
    × (exchange [] (pos 0) true true ab_x response
        ≡ ok (record {
          sent = head_sent;
          printed = header_text (codes "HTTP/1.1 200" ∷ length_line 2 ∷ codes "A: b" ∷ []);
          stored = [];
        }))
exchange-lines_example =
    exchange-lines (pos 0) ab_x get_sent head_sent (codes "HTTP/1.1 200") [] (codes "A: b" ∷ []) 2
      (codes "okay") get_request head_request (λ e. cc, status-AllOther, tt)
      (λ e. cc, last-AllOther, tt) (no_length, tt) (omega arith) (unfold print_zu in omega arith)
      (ground arith)
