-- ===== src/Web/Secure/Stored.antt =====
-- What is stored of a response that is made of header lines and a body.
use network_protocol_cli_too.Common.{
  ℕ, zero, suc, ◌+◌, ◌<◌, ◌^◌, ◌≡◌, ◌≢◌, refl, ap, ◌∙◌, Bool, true, false, List, [], ◌∷◌, ◌++◌,
  arith, ltb, if◌then◌else◌, length, take, ℤ, pos, ok, ◌>>=◌,
}
use network_protocol_cli_too.CString.{Bytes, c_str, HasNoNul}
use network_protocol_cli_too.CString.Decimal.{print_zu, AllFrom0, print_zu-AllFrom0}
use network_protocol_cli_too.Web.Response.{Header, read_header, body, temp_size}
use network_protocol_cli_too.Web.Secure.{Target, request, content_length, stored_body, exchange}
use network_protocol_cli_too.Web.Response.Lines.{AllOther, AreLines, header_text, read_header_lines}
use network_protocol_cli_too.Web.Secure.Length.{LackName, length_line, content_length_lines}

c_str_byte : (c : ℕ) → c ≢ 0 → c_str (c ∷ []) ≡ c ∷ []
unfolding c_str
c_str_byte c n = ground arith

body_round :
    (k m c : ℕ) (rest : Bytes)
    → body k (pos m) (c ∷ rest)
      ≡ (if ltb k m then c_str (c ∷ []) ++ body (suc k) (pos m) rest else [])
unfolding body
body_round k m c rest = ground arith

-- As many bytes as the header says are stored, or all that come.
body-take : (k n : ℕ) (rest : Bytes) → HasNoNul rest → body k (pos (k + n)) rest ≡ take n rest
body-take k zero [] h = unfold body in refl
body-take k (suc n) [] h = unfold body in refl
body-take k zero (c ∷ rest) h = body_round k (k + 0) c rest ∙ rw stop
  where
    stop : ltb k (k + 0) ≡ false
    stop = ground arith
body-take k (suc n) (c ∷ rest) h =
    body_round k (k + suc n) c rest
    ∙ ap (λ b. if b then c_str (c ∷ []) ++ body (suc k) (pos (k + suc n)) rest else []) more
    ∙ ap (λ t. t ++ body (suc k) (pos (k + suc n)) rest) (c_str_byte c h.0)
    ∙ ap (λ m. c ∷ body (suc k) (pos m) rest) (omega arith)
    ∙ ap (λ t. c ∷ t) (body-take (suc k) n rest h.1)
  where
    more : ltb k (k + suc n) ≡ true
    more = ground arith

AllFrom0-AllOther : (s : Bytes) → AllFrom0 s → AllOther s
AllFrom0-AllOther [] h = tt
AllFrom0-AllOther (c ∷ s) h =
    (omega (arith, h.0), (omega (arith, h.0), omega (arith, h.0)), AllFrom0-AllOther s h.1)

length_line-AllOther : (n : ℕ) → AllOther (length_line n)
length_line-AllOther n = ground (arith, AllFrom0-AllOther (print_zu n) (print_zu-AllFrom0 n))

AreLines-length_line :
    (before behind : List Bytes) (n : ℕ)
    → AreLines before
    → AreLines behind
    → AreLines (before ++ (length_line n ∷ behind))
AreLines-length_line [] behind n h k = (λ e. cc, length_line-AllOther n, k)
AreLines-length_line (l ∷ before) behind n h k =
    (h.0, h.1, AreLines-length_line before behind n h.2 k)

exchange_header :
    (temp : Bytes) (unset : ℤ) (creates head : Bool) (t : Target) (reads sent : Bytes) (h : Header)
    → request head t ≡ ok sent
    → read_header temp reads ≡ ok h
    → exchange temp unset creates head t reads ≡ (
        if head
        then ok (record { sent = sent; printed = h.printed; stored = [] })
        else stored_body unset creates sent h)
unfolding exchange
exchange_header temp unset creates head t reads sent h e k = simp (e, k)

stored_body_lines :
    (unset : ℤ) (sent : Bytes) (h : Header) (n : ℕ)
    → content_length unset h.temp ≡ ok (pos n)
    → HasNoNul h.rest
    → stored_body unset true sent h
      ≡ ok (record { sent = sent; printed = []; stored = take n h.rest })
unfolding stored_body
stored_body_lines unset sent h n e k =
    ap (λ m. m >>= λ z. ok (record { sent = sent; printed = []; stored = body 0 z h.rest })) e
    ∙ ap (λ b. ok (record { sent = sent; printed = []; stored = b }))
        (ap (λ m. body 0 (pos m) h.rest) (omega arith) ∙ body-take 0 n h.rest k)

-- A request that fits its array is answered by header lines, of which the first with the name
-- `Content-Length: ` gives a number below 2^31, and by a body without NUL; the array `temp` is an empty
-- string at first and the header fits it. Then output.dat, if it can be created, holds as many bytes of
-- the body as the number says, or the whole body if it is shorter; with `-h` exactly the header is
-- printed.
pub exchange-lines :
    (unset : ℤ) (t : Target) (got asked : Bytes) (status : Bytes) (before behind : List Bytes)
    (n : ℕ) (rest : Bytes)
    → request false t ≡ ok got
    → request true t ≡ ok asked
    → AreLines (status ∷ before)
    → AreLines behind
    → LackName (status ∷ before)
    → n < 2 ^ 31
    → length (header_text (status ∷ (before ++ (length_line n ∷ behind)))) < temp_size
    → HasNoNul rest
    → (exchange [] unset true false t
          (header_text (status ∷ (before ++ (length_line n ∷ behind))) ++ rest)
        ≡ ok (record { sent = got; printed = []; stored = take n rest }))
      × (exchange [] unset true true t
            (header_text (status ∷ (before ++ (length_line n ∷ behind))) ++ rest)
          ≡ ok (record {
            sent = asked;
            printed = header_text (status ∷ (before ++ (length_line n ∷ behind)));
            stored = [];
          }))
exchange-lines unset t got asked status before behind n rest g a h k lacks small fits nul =
    let lines = before ++ (length_line n ∷ behind) in
    let e =
      read_header_lines status lines rest (h.0, h.1, AreLines-length_line before behind n h.2 k)
        fits in
    (
      exchange_header [] unset true false t (header_text (status ∷ lines) ++ rest) got _ g e
          ∙ stored_body_lines unset got _ n
              (content_length_lines (status ∷ before) n behind unset small lacks) nul,
      exchange_header [] unset true true t (header_text (status ∷ lines) ++ rest) asked _ a e,
    )
