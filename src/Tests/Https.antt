-- ===== src/Tests/Https.antt =====
-- A URL and responses.
use network_protocol_cli_too.Common.{◌≡◌, refl, true, false, [], ◌∷◌, ◌++◌, some, arith, pos}
use network_protocol_cli_too.CString.{codes}
use network_protocol_cli_too.Https.Client.{Url, parse_url, read_response, fetch_via_http}
use network_protocol_cli_too.Https.Client.Fetch.{releases, Tls, Network, fetch_via_https, main}
use network_protocol_cli_too.Https.Client.Fetch.Unverified.{
  requests, fetch_via_https-fetch_via_http,
}
use network_protocol_cli_too.Https.Client.Fetch.Status.{EndsWell, main_status}
use network_protocol_cli_too.Https.Client.Parsing.{Lacks, with_scheme, parse_url_default}
use network_protocol_cli_too.Https.Client.Parsing.Port.{port_text, parse_url-with_scheme}
use network_protocol_cli_too.Https.Client.Response.{read_response_short}

no_slash : Lacks b'/' (codes "ab")
no_slash = (ground arith, (ground arith, tt))

no_colon : Lacks b':' (codes "ab")
no_colon = (ground arith, (ground arith, tt))

parse_url-with_scheme_example :
    parse_url (with_scheme true (codes "ab" ++ (port_text (some 8443) ++ (b'/' ∷ codes "x:1/y"))))
    ≡ some
        (record { scheme = codes "https"; ip = codes "ab"; port = pos 8443; path = codes "x:1/y" })
parse_url-with_scheme_example =
    parse_url-with_scheme true (codes "ab") (codes "x:1/y") (some 8443) no_slash no_colon
      (omega arith) (omega arith)

read_response_short_example :
    read_response true (codes "\r\n\r\n" ∷ codes "body" ∷ [])
    ≡ record { printed = codes "\r\n\r\nbody"; stored = [] }
read_response_short_example =
    read_response_short (codes "\r\n\r\n" ∷ codes "body" ∷ [])
      (omega arith, omega arith, (omega arith, omega arith, tt))

-- A server whose certificate cannot be verified.
abbrev untrusted : Tls
untrusted = record {
  context = true;
  connects = true;
  certificate = true;
  verified = false;
  verified_again = false;
  chain = some (codes "a" ∷ codes "b" ∷ []);
  stores = true;
  writes = true;
  creates = true;
  reads = codes "ab" ∷ [];
}

fetch_via_https-fetch_via_http_example :
    (requests (fetch_via_https untrusted (codes "GET") false (pos 7) (pos 8)).calls
      ≡ codes "GET" ∷ [])
    × (some (fetch_via_https untrusted (codes "GET") false (pos 7) (pos 8)).output
        ≡ fetch_via_http true true false (codes "ab" ∷ []))
    × (releases (fetch_via_https untrusted (codes "GET") false (pos 7) (pos 8)).calls ≡ 2)
fetch_via_https-fetch_via_http_example =
    fetch_via_https-fetch_via_http untrusted (codes "GET") false (pos 7) (pos 8) refl refl refl refl

abbrev reachable : Network
reachable = record {
  resolves = true;
  has_socket = true;
  connects = true;
  sends = false;
  creates = false;
  reads = [];
  tls = record untrusted { certificate = false; writes = false };
}

abbrev the_url : Url
the_url = record { scheme = codes "https"; ip = codes "ab"; port = pos 443; path = codes "x" }

the_url_parsed : parse_url (codes "https://ab/x") ≡ some the_url
the_url_parsed = parse_url_default true (codes "ab") (codes "x") no_slash no_colon

main_status_example : EndsWell (main reachable (codes "https://ab/x" ∷ []) (pos 7) (pos 8))
main_status_example =
    main_status reachable the_url (codes "https://ab/x") [] (pos 7) (pos 8) the_url_parsed refl refl
      refl refl refl refl refl
