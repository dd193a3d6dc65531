-- ===== src/Web/Response/Lines.antt =====
-- A header that is made of lines is read whole.
use network_protocol_cli_too.Common.{
  ◌<◌, ◌≡◌, ◌≢◌, refl, false, List, [], ◌∷◌, ◌++◌, arith, length, ok,
}
use network_protocol_cli_too.CString.{Bytes, codes, HasNoNul, HasNoNul-append}
use network_protocol_cli_too.Web.Response.{read_header, temp_size}
use network_protocol_cli_too.Web.Response.HeaderEnd.{
  Seen, seen_0, seen_1, seen_2, is_end, IsOther, next_other,
}
use network_protocol_cli_too.Web.Response.Reading.{EndsFirst, read_header_first}

-- A header line: not empty, and without '\r', '\n' and NUL.
abbrev pub AllOther : Bytes → Type 0
AllOther [] = Unit {0}
AllOther (c ∷ s) = (c ≢ 0) × IsOther c × AllOther s

abbrev pub AreLines : List Bytes → Type 0
AreLines [] = Unit {0}
AreLines (l ∷ ls) = (l ≢ []) × AllOther l × AreLines ls

-- The lines, each with its end, and an empty one.
abbrev pub header_text : List Bytes → Bytes
header_text [] = codes "\r\n"
header_text (l ∷ ls) = l ++ (13 ∷ 10 ∷ header_text ls)

EndsFirst-lf : (rest : Bytes) → EndsFirst seen_2 rest → EndsFirst seen_1 (10 ∷ rest)
EndsFirst-lf [] k = absurd k
EndsFirst-lf (d ∷ rest) k = (refl, k)

-- In front of the empty line, an end is not yet seen.
EndsFirst-line :
    (q : Seen) (l : Bytes) (rest : Bytes)
    → is_end q ≡ false
    → l ≢ []
    → AllOther l
    → EndsFirst seen_2 rest
    → EndsFirst q (l ++ (13 ∷ 10 ∷ rest))
EndsFirst-line q [] rest e n h k = absurd (n refl)
EndsFirst-line q (c ∷ []) rest e n h k =
    rw (next_other q c e h.1) (refl, (refl, EndsFirst-lf rest k))
EndsFirst-line q (c ∷ d ∷ l) rest e n h k =
    rw (next_other q c e h.1) (refl, EndsFirst-line seen_0 (d ∷ l) rest refl (λ f. cc) h.2 k)

EndsFirst-header_text : (ls : List Bytes) → AreLines ls → EndsFirst seen_2 (header_text ls)
EndsFirst-header_text [] h = (refl, refl)
EndsFirst-header_text (l ∷ ls) h =
    EndsFirst-line seen_2 l (header_text ls) refl h.0 h.1 (EndsFirst-header_text ls h.2)

AllOther-HasNoNul : (s : Bytes) → AllOther s → HasNoNul s
AllOther-HasNoNul [] h = tt
AllOther-HasNoNul (c ∷ s) h = (h.0, AllOther-HasNoNul s h.2)

header_text-HasNoNul : (ls : List Bytes) → AreLines ls → HasNoNul (header_text ls)
header_text-HasNoNul [] h = ground arith
header_text-HasNoNul (l ∷ ls) h =
    HasNoNul-append l (13 ∷ 10 ∷ header_text ls) (AllOther-HasNoNul l h.1)
      (omega arith, (omega arith, header_text-HasNoNul ls h.2))

-- A header with at least one line is read as it is, and no byte of the body.
pub read_header_lines :
    (l : Bytes) (ls : List Bytes) (rest : Bytes)
    → AreLines (l ∷ ls)
    → length (header_text (l ∷ ls)) < temp_size
    → read_header [] (header_text (l ∷ ls) ++ rest)
      ≡ ok (record { temp = header_text (l ∷ ls); printed = header_text (l ∷ ls); rest = rest })
read_header_lines l ls rest h k =
    read_header_first [] (header_text (l ∷ ls)) rest (header_text-HasNoNul (l ∷ ls) h)
      (EndsFirst-line seen_0 l (header_text ls) refl h.0 h.1 (EndsFirst-header_text ls h.2))
      (omega (arith, k))
