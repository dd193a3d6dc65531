-- ===== src/Https/Client/Parsing.antt =====
-- `parse_url` on URLs without a port.
pub mod Port
use network_protocol_cli_too.Common.{
  ℕ, ◌≤◌, ◌≡◌, ◌≢◌, inl, inr, refl, ap, ◌∙◌, Bool, true, false, [], ◌∷◌, ◌++◌, Option, none, some,
  arith, ltb, ◌==◌, if◌then◌else◌, length, pos, Option-cases, subst,
}
use network_protocol_cli_too.CString.{Bytes, codes, bytes_eq, starts_with}
use network_protocol_cli_too.Https.Client.{
  split_at, scheme_of, agreed, with_port, located, parse_url,
}

abbrev pub Lacks : ℕ → Bytes → Type 0
Lacks c [] = Unit {0}
Lacks c (d ∷ s) = (d ≢ c) × Lacks c s

split_at_first : (c : ℕ) (s t : Bytes) → Lacks c s → split_at c (s ++ (c ∷ t)) ≡ some (s, t)
unfolding split_at
split_at_first c [] t l = ground arith
split_at_first c (d ∷ s) t l = ground (arith, split_at_first c s t l.1)

-- A `c` behind a text that has none
abbrev Behind : Bytes → Option (Bytes × Bytes) → Type 0
Behind s none = Unit {0}
Behind s (some r) = length s ≤ length r.0

Behind-cons :
    (c d : ℕ) (s t : Bytes) → d ≢ c → Behind s (split_at c t) → Behind (d ∷ s) (split_at c (d ∷ t))
unfolding split_at
Behind-cons c d s t n b = elim (Option-cases (split_at c t)) [
  | inl e ↦ rw (other, e) tt
  | inr (r, e) ↦
      let before : length s ≤ length r.0 = subst (Behind s) e b in
      rw (other, e) (omega (arith, before))
]
  where
    other : (d == c) ≡ false
    other = ground arith

Behind-nil : (o : Option (Bytes × Bytes)) → Behind [] o
Behind-nil none = tt
Behind-nil (some r) = omega arith

split_at-Behind : (c : ℕ) (s t : Bytes) → Lacks c s → Behind s (split_at c (s ++ t))
split_at-Behind c [] t l = Behind-nil (split_at c t)
split_at-Behind c (d ∷ s) t l = Behind-cons c d s (s ++ t) l.0 (split_at-Behind c s t l.1)

with_port_none :
    (scheme : Bytes) (port : ℕ) (host path : Bytes) (colon : Option (Bytes × Bytes))
    → Behind host colon
    → with_port scheme port host path colon
      ≡ agreed (record { scheme = scheme; ip = host; port = pos port; path = path })
unfolding with_port
with_port_none scheme port host path none b = refl
with_port_none scheme port host path (some (ip, behind)) b = rw later
  where
    later : ltb (length ip) (length host) ≡ false
    later = ground arith

abbrev pub scheme_text : Bool → Bytes
scheme_text tls = if tls then codes "https" else codes "http"

abbrev pub default_port : Bool → ℕ
default_port tls = if tls then 443 else 80

abbrev pub with_scheme : Bool → Bytes → Bytes
with_scheme tls rest = (if tls then codes "https://" else codes "http://") ++ rest

scheme_of_lem :
    (tls : Bool) (rest : Bytes)
    → scheme_of (with_scheme tls rest) ≡ (scheme_text tls, default_port tls, rest)
unfolding scheme_of starts_with
scheme_of_lem true rest = refl
scheme_of_lem false rest = refl

parse_url_rest :
    (tls : Bool) (rest : Bytes)
    → parse_url (with_scheme tls rest)
      ≡ located (scheme_text tls) (default_port tls) rest (split_at b'/' rest)
unfolding parse_url
parse_url_rest tls rest = rw (scheme_of_lem tls rest)

agreed_default :
    (tls : Bool) (host path : Bytes)
    → agreed
        (record { scheme = scheme_text tls; ip = host; port = pos (default_port tls); path = path })
      ≡ some (record {
        scheme = scheme_text tls;
        ip = host;
        port = pos (default_port tls);
        path = path;
      })
unfolding agreed bytes_eq
agreed_default true host path = refl
agreed_default false host path = refl

-- A URL without a port is split into its scheme, the port of the scheme, the host and the path, if
-- the host has neither '/' nor ':'. The path may have both.
pub parse_url_default :
    (tls : Bool) (host path : Bytes)
    → Lacks b'/' host
    → Lacks b':' host
    → parse_url (with_scheme tls (host ++ (b'/' ∷ path)))
      ≡ some (record {
        scheme = scheme_text tls;
        ip = host;
        port = pos (default_port tls);
        path = path;
      })
parse_url_default tls host path s c =
    parse_url_rest tls rest
    ∙ ap (located (scheme_text tls) (default_port tls) rest) (split_at_first b'/' host path s)
    ∙ unfold located in
      with_port_none (scheme_text tls) (default_port tls) host path _
        (split_at-Behind b':' host (b'/' ∷ path) c)
      ∙ agreed_default tls host path
  where
    rest : Bytes
    rest = host ++ (b'/' ∷ path)
