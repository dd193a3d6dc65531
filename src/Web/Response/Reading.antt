-- ===== src/Web/Response/Reading.antt =====
-- The loop over the header takes the text up to the first end of a header.
use network_protocol_cli_too.Common.{
  ℕ, ◌+◌, ◌<◌, ◌≡◌, ◌≢◌, sym, ap, subst, ◌∙◌, Bool, true, false, [], ◌∷◌, ◌++◌, arith, leb, length,
  length-append, append_assoc, Outcome, ok, fault,
}
use network_protocol_cli_too.CString.{Bytes, c_str, HasNoNul}
use network_protocol_cli_too.CString.Search.{contains}
use network_protocol_cli_too.Web.Response.{
  Header, read_header, header_end, temp_size, printed_first,
}
use network_protocol_cli_too.Web.Response.HeaderEnd.{
  Seen, seen_0, next, after, is_end, after-append, contains-after,
}

-- The text brings the end with its last byte, and not before.
abbrev pub EndsFirst : Seen → Bytes → Type 0
EndsFirst q [] = ⊥
EndsFirst q (c ∷ []) = is_end (next q c) ≡ true
EndsFirst q (c ∷ d ∷ s) = (is_end (next q c) ≡ false) × EndsFirst (next q c) (d ∷ s)

c_str_byte : (c : ℕ) → c ≢ 0 → c_str (c ∷ []) ≡ c ∷ []
unfolding c_str
c_str_byte c n = ground arith

abbrev ended_or : Bool → Bytes → Bytes → Bytes → Outcome Header
ended_or ended temp text s = elim ended [
  | true ↦ ok (record { temp = temp ++ text; printed = text; rest = s })
  | false ↦ printed_first text (read_header (temp ++ text) s)
]

abbrev full_or : Bool → Bytes → Bytes → Bytes → Outcome Header
full_or full temp text s = elim full [
  | true ↦ fault
  | false ↦ ended_or (contains header_end (temp ++ text)) temp text s
]

-- One round of the loop, by what the text read so far ends with.
read_header_round :
    (temp : Bytes) (c : ℕ) (s : Bytes)
    → c ≢ 0
    → length temp + 1 < temp_size
    → read_header temp (c ∷ s) ≡ ended_or (is_end (next (after seen_0 temp) c)) temp (c ∷ []) s
unfolding read_header
read_header_round temp c s n l =
    ap (λ t. full_or (leb temp_size (length (temp ++ t))) temp t s) (c_str_byte c n)
    ∙ ap (λ b. full_or b temp (c ∷ []) s) fits
    ∙ ap (λ b. ended_or b temp (c ∷ []) s)
        (contains-after (temp ++ (c ∷ [])) ∙ ap is_end (after-append seen_0 temp (c ∷ [])))
  where
    fits : leb temp_size (length (temp ++ (c ∷ []))) ≡ false
    fits = ground (arith, length-append temp (c ∷ []))

-- The loop takes the text up to the first end, if this fits the array, and no byte more.
pub read_header_first :
    (temp h rest : Bytes)
    → HasNoNul h
    → EndsFirst (after seen_0 temp) h
    → length temp + length h < temp_size
    → read_header temp (h ++ rest) ≡ ok (record { temp = temp ++ h; printed = h; rest = rest })
read_header_first temp [] rest n e l = absurd e
read_header_first temp (c ∷ []) rest n e l =
    read_header_round temp c rest n.0 (omega arith) ∙ ap (λ b. ended_or b temp (c ∷ []) rest) e
read_header_first temp (c ∷ d ∷ h) rest n e l =
    read_header_round temp c ((d ∷ h) ++ rest) n.0 (omega arith)
    ∙ ap (λ b. ended_or b temp (c ∷ []) ((d ∷ h) ++ rest)) e.0
    ∙ ap (printed_first (c ∷ [])) (
        read_header_first (temp ++ (c ∷ [])) (d ∷ h) rest n.1
          (subst (λ q. EndsFirst q (d ∷ h)) (sym (after-append seen_0 temp (c ∷ []))) e.1)
          (omega (arith, length-append temp (c ∷ []))))
    ∙ ap (λ t. ok (record { temp = t; printed = c ∷ d ∷ h; rest = rest }))
        (append_assoc temp (c ∷ []) (d ∷ h))
