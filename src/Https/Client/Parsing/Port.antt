-- ===== src/Https/Client/Parsing/Port.antt =====
-- `parse_url` on URLs with a port or without one.
use network_protocol_cli_too.Common.{
  ℕ, ◌<◌, ◌^◌, ◌≡◌, refl, ap, ◌∙◌, sym, Bool, true, false, not, [], ◌∷◌, ◌++◌, Option, none, some,
  arith, ltb, ◌==◌, if◌then◌else◌, length, length-append, append_assoc, pos,
}
use network_protocol_cli_too.CString.{Bytes, bytes_eq, is_digit}
use network_protocol_cli_too.CString.Decimal.{print_zu, AllFrom0, print_zu-AllFrom0}
use network_protocol_cli_too.CString.Signed.{atoi}
use network_protocol_cli_too.CString.Signed.RoundTrip.{atoi-print_zu}
use network_protocol_cli_too.Https.Client.{Url, split_at, agreed, with_port, located, parse_url}
use network_protocol_cli_too.Https.Client.Parsing.{
  Lacks, split_at_first, parse_url_default, parse_url_rest, scheme_text, default_port, with_scheme,
}

-- The port as it is written in a URL, and what it is to be.
abbrev pub port_text : Option ℕ → Bytes
port_text none = []
port_text (some port) = b':' ∷ print_zu port

abbrev pub port_value : Bool → Option ℕ → ℕ
port_value tls none = default_port tls
port_value tls (some port) = port

-- The port that belongs to the other scheme.
abbrev pub other_port : Bool → ℕ
other_port tls = default_port (not tls)

abbrev pub agreed_url : Bool → Bytes → ℕ → Bytes → Option Url
agreed_url tls host port path =
    if port == other_port tls
    then none
    else some (record { scheme = scheme_text tls; ip = host; port = pos port; path = path })

agreed_port :
    (tls : Bool) (host path : Bytes) (port : ℕ)
    → agreed (record { scheme = scheme_text tls; ip = host; port = pos port; path = path })
      ≡ agreed_url tls host port path
unfolding agreed bytes_eq
agreed_port true host path port = ground arith
agreed_port false host path port = ground arith

Lacks-append : (c : ℕ) (s t : Bytes) → Lacks c s → Lacks c t → Lacks c (s ++ t)
Lacks-append c [] t h k = k
Lacks-append c (d ∷ s) t h k = (h.0, Lacks-append c s t h.1 k)

AllFrom0-Lacks : (s : Bytes) → AllFrom0 s → Lacks b'/' s
AllFrom0-Lacks [] h = tt
AllFrom0-Lacks (c ∷ s) h = (omega (arith, h.0), AllFrom0-Lacks s h.1)

with_port_found :
    (scheme : Bytes) (first port : ℕ) (host authority path behind : Bytes)
    → length host < length authority
    → atoi behind ≡ pos port
    → 0 < port
    → with_port scheme first authority path (some (host, behind))
      ≡ agreed (record { scheme = scheme; ip = host; port = pos port; path = path })
unfolding with_port
with_port_found scheme first port host authority path behind h e p = rw (inside, e, positive)
  where
    inside : ltb (length host) (length authority) ≡ true
    inside = ground arith

    positive : ltb 0 port ≡ true
    positive = ground arith

default_agreed :
    (tls : Bool) (host path : Bytes)
    → some
        (record { scheme = scheme_text tls; ip = host; port = pos (default_port tls); path = path })
      ≡ agreed_url tls host (default_port tls) path
default_agreed true host path = refl
default_agreed false host path = refl

-- A URL with a port or without one is split into its scheme, the host, the port, which is that of the
-- scheme where none is written, and the path, if the host has neither '/' nor ':' and the port is from 1
-- to 2^31 - 1; the path may have both. A port that belongs to the other scheme is refused.
pub parse_url-with_scheme :
    (tls : Bool) (host path : Bytes) (port : Option ℕ)
    → Lacks b'/' host
    → Lacks b':' host
    → 0 < port_value tls port
    → port_value tls port < 2 ^ 31
    → parse_url (with_scheme tls (host ++ (port_text port ++ (b'/' ∷ path))))
      ≡ agreed_url tls host (port_value tls port) path
parse_url-with_scheme tls host path none s c p k =
    parse_url_default tls host path s c ∙ default_agreed tls host path
parse_url-with_scheme tls host path (some port) s c p k =
    parse_url_rest tls rest
    ∙ ap (located (scheme_text tls) (default_port tls) rest) (
        ap (split_at b'/') (sym (append_assoc host (b':' ∷ print_zu port) (b'/' ∷ path)))
        ∙ split_at_first b'/' authority path slashes)
    ∙ unfold located in
      (ap (with_port (scheme_text tls) (default_port tls) authority path)
          (split_at_first b':' host (print_zu port ++ (b'/' ∷ path)) c)
        ∙ with_port_found (scheme_text tls) (default_port tls) port host authority path
            (print_zu port ++ (b'/' ∷ path)) shorter
            (atoi-print_zu port (b'/' ∷ path) k (unfold is_digit in refl)) p
        ∙ agreed_port tls host path port)
  where
    rest : Bytes
    rest = host ++ (b':' ∷ print_zu port ++ (b'/' ∷ path))

    authority : Bytes
    authority = host ++ (b':' ∷ print_zu port)

    slashes : Lacks b'/' authority
    slashes =
        Lacks-append b'/' host (b':' ∷ print_zu port) s
          (omega arith, AllFrom0-Lacks (print_zu port) (print_zu-AllFrom0 port))

    shorter : length host < length authority
    shorter = omega (arith, length-append host (b':' ∷ print_zu port))
