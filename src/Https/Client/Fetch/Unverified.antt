-- ===== src/Https/Client/Fetch/Unverified.antt =====
-- What `fetch_via_https` does whether or not the certificate is verified.
use network_protocol_cli_too.Common.{
  ◌+◌, ◌≡◌, refl, sym, ap, ◌∙◌, Bool, true, false, not, ◌&&◌, ◌||◌, List, [], ◌∷◌, ◌++◌, Option,
  none, some, arith, if◌then◌else◌, ℤ, Bool-cases, inl, inr, append_assoc,
}
use network_protocol_cli_too.CString.{Bytes}
use network_protocol_cli_too.Https.Client.{read_response, fetch_via_http}
use network_protocol_cli_too.Https.Client.Fetch.{
  Call, new_context, new_ssl, handshake, shutdown, free_ssl, free_context, write_certificate,
  load_certificate, write, Tls, is_minus_one, behind, no_handshake, add_certificates,
  add_missing_certificate, validate_certificate, validated_https, receive_https, request_https,
  fetch_via_https, releases,
}

pub releases-append : (xs ys : List Call) → releases (xs ++ ys) ≡ releases xs + releases ys
releases-append [] ys = omega arith
releases-append (x ∷ xs) ys = omega (arith, releases-append xs ys)

releases-add_certificates :
    (stores : Bool) (cs : List Bytes) → releases (add_certificates stores cs) ≡ 0
unfolding add_certificates
releases-add_certificates stores [] = refl
releases-add_certificates true (c ∷ cs) = omega (arith, releases-add_certificates true cs)
releases-add_certificates false (c ∷ cs) = releases-add_certificates false cs

releases-add_missing_certificate :
    (stores : Bool) (chain : Option (List Bytes))
    → releases (add_missing_certificate stores chain) ≡ 0
unfolding add_missing_certificate
releases-add_missing_certificate stores none = refl
releases-add_missing_certificate stores (some []) = refl
releases-add_missing_certificate stores (some (server ∷ cs)) = releases-add_certificates stores cs

-- The requests that are sent.
abbrev pub requests : List Call → List Bytes
requests [] = []
requests (write request ∷ cs) = request ∷ requests cs
requests (new_context ∷ cs) = requests cs
requests (new_ssl ∷ cs) = requests cs
requests (handshake ∷ cs) = requests cs
requests (shutdown ∷ cs) = requests cs
requests (free_ssl ∷ cs) = requests cs
requests (free_context ∷ cs) = requests cs
requests (write_certificate c ∷ cs) = requests cs
requests (load_certificate ∷ cs) = requests cs

requests-add_certificates :
    (stores : Bool) (cs : List Bytes) (rest : List Call)
    → requests (add_certificates stores cs ++ rest) ≡ requests rest
unfolding add_certificates
requests-add_certificates stores [] rest = refl
requests-add_certificates true (c ∷ cs) rest = requests-add_certificates true cs rest
requests-add_certificates false (c ∷ cs) rest = requests-add_certificates false cs rest

requests-add_missing_certificate :
    (stores : Bool) (chain : Option (List Bytes)) (rest : List Call)
    → requests (add_missing_certificate stores chain ++ rest) ≡ requests rest
unfolding add_missing_certificate
requests-add_missing_certificate stores none rest = refl
requests-add_missing_certificate stores (some []) rest = refl
requests-add_missing_certificate stores (some (server ∷ cs)) rest =
    requests-add_certificates stores cs rest

-- There is a certificate, which is verified neither at first nor when asked again.
abbrev pub unverified : Tls → Bool
unverified tls = tls.certificate && not tls.verified && not tls.verified_again

-- `validate_certificate` never returns -1, unless the value that is not fixed is that.
pub validated :
    (tls : Tls) (leftover : ℤ)
    → is_minus_one leftover ≡ false
    → (is_minus_one (validate_certificate tls leftover).1 ≡ false)
      × (releases (validate_certificate tls leftover).0 ≡ (if unverified tls then 1 else 0))
      × ((rest : List Call)
          → requests ((validate_certificate tls leftover).0 ++ rest) ≡ requests rest)
unfolding validate_certificate
validated tls leftover h =
    let nothing = releases-add_missing_certificate tls.stores tls.chain in
    let none_sent = requests-add_missing_certificate tls.stores tls.chain in
    let added = add_missing_certificate tls.stores tls.chain in
    elim (Bool-cases tls.certificate) [
      | inl c ↦ elim (Bool-cases tls.verified) [
        | inl v ↦ (simp (c, v, h), simp (c, v), λ rest. simp (c, v))
        | inr v ↦ elim (Bool-cases tls.verified_again) [
          | inl a ↦
              (simp (c, v, a, h), simp (c, v, a, nothing), λ rest. simp (c, v, a, none_sent rest))
          | inr a ↦ (
            simp (c, v, a),
            simp (c, v, a, releases-append added (free_context ∷ []), nothing),
            λ rest. simp (c, v, a, append_assoc, none_sent (free_context ∷ rest)),
          )
        ]
      ]
      | inr c ↦ (simp c, simp c, λ rest. simp c)
    ]

requested :
    (tls : Tls) (request : Bytes) (header_only : Bool) (value leftover : ℤ)
    → is_minus_one value ≡ false
    → tls.writes ≡ true
    → (header_only || tls.creates) ≡ true
    → request_https tls request header_only value leftover ≡ record {
      calls = write request ∷ shutdown ∷ free_ssl ∷ free_context ∷ [];
      output = read_response header_only tls.reads;
      value = leftover;
    }
unfolding request_https receive_https
requested tls request header_only value leftover m w c = simp (m, w, c)

fetched :
    (tls : Tls) (request : Bytes) (header_only : Bool) (first second : ℤ)
    → tls.connects ≡ true
    → tls.writes ≡ true
    → (header_only || tls.creates) ≡ true
    → is_minus_one first ≡ false
    → fetch_via_https tls request header_only first second ≡ record {
      calls =
          new_context
          ∷ new_ssl
          ∷ handshake
          ∷ ((validate_certificate tls first).0
              ++ (write request ∷ shutdown ∷ free_ssl ∷ free_context ∷ []));
      output = read_response header_only tls.reads;
      value = second;
    }
unfolding fetch_via_https validated_https
fetched tls request header_only first second k w c m =
    let v = validate_certificate tls first in
    ap
      (λ b.
        if b
        then behind (new_context ∷ new_ssl ∷ handshake ∷ [])
            (behind v.0 (request_https tls request header_only v.1 second))
        else no_handshake)
      k
    ∙ ap (λ r. behind (new_context ∷ new_ssl ∷ handshake ∷ []) (behind v.0 r))
        (requested tls request header_only v.1 second (validated tls first m).0 w c)

releases_one_more :
    (b : Bool) (xs : List Call) (request : Bytes)
    → releases xs ≡ (if b then 1 else 0)
    → releases (
        new_context
        ∷ new_ssl
        ∷ handshake
        ∷ (xs ++ (write request ∷ shutdown ∷ free_ssl ∷ free_context ∷ [])))
      ≡ (if b then 2 else 1)
releases_one_more true xs request h =
    omega (arith, h, releases-append xs (write request ∷ shutdown ∷ free_ssl ∷ free_context ∷ []))
releases_one_more false xs request h =
    omega (arith, h, releases-append xs (write request ∷ shutdown ∷ free_ssl ∷ free_context ∷ []))

-- Where the handshake succeeds, the request can be written, the output is shown or can be created, and
-- the value that `validate_certificate` leaves without `return` is not -1: the request is sent once and
-- the output is what `fetch_via_http` makes of the same response, with whatever certificate or none; the
-- context is released once, and twice where there is a certificate that is verified neither at first nor
-- when asked again.
pub fetch_via_https-fetch_via_http :
    (tls : Tls) (request : Bytes) (header_only : Bool) (first second : ℤ)
    → tls.connects ≡ true
    → tls.writes ≡ true
    → (header_only || tls.creates) ≡ true
    → is_minus_one first ≡ false
    → (requests (fetch_via_https tls request header_only first second).calls ≡ request ∷ [])
      × (some (fetch_via_https tls request header_only first second).output
          ≡ fetch_via_http true tls.creates header_only tls.reads)
      × (releases (fetch_via_https tls request header_only first second).calls
          ≡ (if unverified tls then 2 else 1))
fetch_via_https-fetch_via_http tls request header_only first second k w c m =
    let e = fetched tls request header_only first second k w c m in
    let (minus, freed, sent) = validated tls first m in
    let ending = write request ∷ shutdown ∷ free_ssl ∷ free_context ∷ [] in
    (
      ap (λ r. requests r.calls) e ∙ sent ending,
      ap (λ r. some r.output) e ∙ sym (unfold fetch_via_http in rw c),
      ap (λ r. releases r.calls) e
          ∙ releases_one_more (unverified tls) (validate_certificate tls first).0 request freed,
    )
