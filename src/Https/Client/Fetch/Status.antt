-- ===== src/Https/Client/Fetch/Status.antt =====
-- The status with which https/client.c ends.
use network_protocol_cli_too.Common.{
  ◌≤◌, ◌≡◌, arith, ltb, if◌then◌else◌, sym, subst, Outcome, ok, ◌>>◌, undefined_if, refl, ap, ◌∙◌,
  Bool, true, false, ◌||◌, List, ◌∷◌, Option, none, some, ℤ, pos, Bool-cases, inl, inr,
}
use network_protocol_cli_too.CString.{Bytes, codes, bytes_eq}
use network_protocol_cli_too.Https.Client.{Url, Output, parse_url, http_request, fetch_via_http}
use network_protocol_cli_too.Https.Client.Fetch.{
  Tls, Network, ended_https, ended_http, is_minus_one, validate_certificate, validated_https,
  receive_https, request_https, fetch_via_https, run_https, fetch, connected, parsed, header_option,
  main, releases, Result, Ended, ended, no_output, exit_failure_value,
}
use network_protocol_cli_too.Https.Client.Fetch.Unverified.{validated, unverified, releases-append}

receive_value :
    (tls : Tls) (header_only : Bool) (leftover : ℤ)
    → is_minus_one leftover ≡ false
    → is_minus_one (receive_https tls header_only leftover).value ≡ false
unfolding receive_https
receive_value tls header_only leftover m = elim (Bool-cases (header_only || tls.creates)) [
  | inl c ↦ simp (c, m)
  | inr c ↦ simp c
]

request_value :
    (tls : Tls) (request : Bytes) (header_only : Bool) (value leftover : ℤ)
    → is_minus_one value ≡ false
    → is_minus_one leftover ≡ false
    → is_minus_one (request_https tls request header_only value leftover).value ≡ false
unfolding request_https
request_value tls request header_only value leftover n m = elim (Bool-cases tls.writes) [
  | inl w ↦ simp (n, w, receive_value tls header_only leftover m)
  | inr w ↦ simp (n, w)
]

fetch_via_https_value :
    (tls : Tls) (request : Bytes) (header_only : Bool) (first second : ℤ)
    → is_minus_one first ≡ false
    → is_minus_one second ≡ false
    → is_minus_one (fetch_via_https tls request header_only first second).value ≡ false
unfolding fetch_via_https validated_https
fetch_via_https_value tls request header_only first second n m = elim (Bool-cases tls.connects) [
  | inl k ↦ simp (
    k,
    request_value tls request header_only (validate_certificate tls first).1 second
        (validated tls first n).0 m,
  )
  | inr k ↦ simp k
]

releases-receive_https :
    (tls : Tls) (header_only : Bool) (leftover : ℤ)
    → releases (receive_https tls header_only leftover).calls ≤ 1
unfolding receive_https
releases-receive_https tls header_only leftover = elim (Bool-cases (header_only || tls.creates)) [
  | inl c ↦ rw c (omega arith)
  | inr c ↦ rw c (omega arith)
]

releases-request_https :
    (tls : Tls) (request : Bytes) (header_only : Bool) (value leftover : ℤ)
    → releases (request_https tls request header_only value leftover).calls ≤ 1
unfolding request_https
releases-request_https tls request header_only value leftover =
    elim (Bool-cases (is_minus_one value)) [
      | inl n ↦ rw n (omega arith)
      | inr n ↦ elim (Bool-cases tls.writes) [
        | inl w ↦ rw (n, w) (omega (arith, releases-receive_https tls header_only leftover))
        | inr w ↦ rw (n, w) (omega arith)
      ]
    ]

-- Without an unverified certificate the context is released once at most.
releases-fetch_via_https :
    (tls : Tls) (request : Bytes) (header_only : Bool) (first second : ℤ)
    → is_minus_one first ≡ false
    → unverified tls ≡ false
    → releases (fetch_via_https tls request header_only first second).calls ≤ 1
unfolding fetch_via_https validated_https
releases-fetch_via_https tls request header_only first second n u =
    let v = validate_certificate tls first in
    let later = request_https tls request header_only v.1 second in
    let none_yet : releases v.0 ≡ 0 = (validated tls first n).1 ∙ ap (λ b. if b then 1 else 0) u in
    elim (Bool-cases tls.connects) [
      | inl k ↦ rw k (
          omega (
            arith,
            releases-append v.0 later.calls,
            none_yet,
            releases-request_https tls request header_only v.1 second,
          ))
      | inr k ↦ rw k (omega arith)
    ]

-- The process has ended with status 0.
abbrev pub EndsWell : Outcome Ended → Type 0
EndsWell m = (output : Output) × (m ≡ ok (record { output = output; status = pos 0 }))

ended_well :
    (value : ℤ) (output : Output) → is_minus_one value ≡ false → EndsWell (ok (ended value output))
ended_well value output m =
    (output, ap (λ b. ok (record { output = output; status = if b then pos 1 else pos 0 })) m)

ended_https_well :
    (r : Result)
    → is_minus_one r.value ≡ false
    → releases r.calls ≤ 1
    → EndsWell (ended_https (some r))
unfolding ended_https
ended_https_well r m h =
    let once : ltb 1 (releases r.calls) ≡ false = ground arith in
    subst EndsWell (sym (ap (λ b. undefined_if b >> ok (ended r.value r.output)) once))
      (ended_well r.value r.output m)

ended_http_well :
    (leftover : ℤ) (output : Option Output)
    → is_minus_one leftover ≡ false
    → EndsWell (ok (ended_http leftover output))
unfolding ended_http
ended_http_well leftover none m = ended_well exit_failure_value no_output refl
ended_http_well leftover (some o) m = ended_well leftover o m

fetch_well :
    (net : Network) (url : Url) (header_only : Bool) (first second : ℤ)
    → net.tls.context ≡ true
    → unverified net.tls ≡ false
    → is_minus_one first ≡ false
    → is_minus_one second ≡ false
    → EndsWell (fetch net url header_only first second)
unfolding fetch run_https
fetch_well net url header_only first second t u n m =
    let request = http_request header_only url.path url.ip in
    elim (Bool-cases (bytes_eq url.scheme (codes "https"))) [
      | inl e ↦
          rw (e, t)
            (ended_https_well (fetch_via_https net.tls request header_only first second)
              (fetch_via_https_value net.tls request header_only first second n m)
              (releases-fetch_via_https net.tls request header_only first second n u))
      | inr e ↦
          rw e
            (ended_http_well second (fetch_via_http net.sends net.creates header_only net.reads) m)
    ]

-- For a URL that is parsed, once the host is resolved and connected and the context is there, the
-- process ends with status 0, whether or not the handshake succeeds, a certificate is there, the
-- request is sent or the file is created, if no value that a function leaves without `return`
-- happens to be -1. A certificate that is verified neither at first nor when asked again is left
-- out: for it the context may be released twice.
pub main_status :
    (net : Network) (url : Url) (text : Bytes) (options : List Bytes) (first second : ℤ)
    → parse_url text ≡ some url
    → net.resolves ≡ true
    → net.has_socket ≡ true
    → net.connects ≡ true
    → net.tls.context ≡ true
    → unverified net.tls ≡ false
    → is_minus_one first ≡ false
    → is_minus_one second ≡ false
    → EndsWell (main net (text ∷ options) first second)
unfolding main connected parsed
main_status net url text options first second p r s k t u n m =
    subst (λ o. EndsWell (parsed net o (header_option options) first second)) (sym p)
      (rw (r, s, k) (fetch_well net url (header_option options) first second t u n m))
