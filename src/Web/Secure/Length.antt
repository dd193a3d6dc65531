-- ===== src/Web/Secure/Length.antt =====
-- The length of the body, from a header that is made of lines.
use network_protocol_cli_too.Common.{
  ℕ, ◌<◌, ◌^◌, ◌≡◌, ◌≢◌, refl, sym, ap, subst, ◌∙◌, Bool, true, false, List, [], ◌∷◌, ◌++◌, Option,
  none, some, arith, ◌==◌, if◌then◌else◌, append-nil, ℤ, pos, ok, exit_failure,
}
use network_protocol_cli_too.CString.{
  Bytes, codes, starts_with, strip_prefix, strip_prefix_append, skip_spaces, is_space,
}
use network_protocol_cli_too.CString.Decimal.{
  print_zu, AllFrom0, print_zu-AllFrom0, print_zu-StartsNumber, StartsNumber,
}
use network_protocol_cli_too.CString.Signed.{scan_d}
use network_protocol_cli_too.CString.Signed.RoundTrip.{
  skip_spaces-StartsNumber, scan_d-print_zu, scan_d_space,
}
use network_protocol_cli_too.CString.Search.{token_end, find_text, up_to}
use network_protocol_cli_too.Web.Response.{length_of, scanned_length}
use network_protocol_cli_too.Web.Secure.{scan_length, located_length, content_length}
use network_protocol_cli_too.Web.Response.Lines.{header_text}

abbrev pub length_name : Bytes
length_name = codes "Content-Length: "

-- `strstr` does not find the name across the end of a line.
abbrev Lacks : ℕ → Bytes → Type 0
Lacks d [] = Unit {0}
Lacks d (c ∷ s) = (c ≢ d) × Lacks d s

starts_with-append :
    (d : ℕ) (p u rest : Bytes) → Lacks d p → starts_with p (u ++ (d ∷ rest)) ≡ starts_with p u
unfolding starts_with
starts_with-append d [] u rest n = refl
starts_with-append d (e ∷ p) [] rest n = ground arith
starts_with-append d (e ∷ p) (c ∷ u) rest n = rw (starts_with-append d p u rest n.1)

if_none :
    (b : Bool) (s : Bytes) (later : Option Bytes)
    → (if b then some s else later) ≡ none
    → (b ≡ false) × (later ≡ none)
if_none true s later h = cc
if_none false s later h = (refl, h)

find_text-none :
    (p : Bytes) (c : ℕ) (u : Bytes)
    → find_text p (c ∷ u) ≡ none
    → (starts_with p (c ∷ u) ≡ false) × (find_text p u ≡ none)
unfolding find_text
find_text-none p c u h = if_none (starts_with p (c ∷ u)) (c ∷ u) (find_text p u) h

find_text_behind :
    (d e : ℕ) (p u rest : Bytes)
    → Lacks d (e ∷ p)
    → find_text (e ∷ p) u ≡ none
    → find_text (e ∷ p) (u ++ (d ∷ rest)) ≡ find_text (e ∷ p) rest
unfolding find_text
find_text_behind d e p [] rest n h = simp (starts_with-append d (e ∷ p) [] rest n)
find_text_behind d e p (c ∷ u) rest n h =
    let (first, later) = find_text-none (e ∷ p) c u h in
    simp (starts_with-append d (e ∷ p) (c ∷ u) rest n, first, find_text_behind d e p u rest n later)

find_text_line :
    (l rest : Bytes)
    → find_text length_name l ≡ none
    → find_text length_name (l ++ (13 ∷ 10 ∷ rest)) ≡ find_text length_name rest
find_text_line l rest h =
    find_text_behind 13 _ _ l (10 ∷ rest) (ground arith) h
    ∙ find_text_behind 10 _ _ [] rest (ground arith) (unfold find_text in refl)

-- Lines that do not have the name of the length.
abbrev pub LackName : List Bytes → Type 0
LackName [] = Unit {0}
LackName (l ∷ ls) = (find_text length_name l ≡ none) × LackName ls

abbrev pub length_line : ℕ → Bytes
length_line n = length_name ++ print_zu n

-- The first line with the name is found.
find_text_lines :
    (before : List Bytes) (n : ℕ) (behind : List Bytes)
    → LackName before
    → find_text length_name (header_text (before ++ (length_line n ∷ behind)))
      ≡ some (length_line n ++ (13 ∷ 10 ∷ header_text behind))
find_text_lines [] n behind h = unfold find_text starts_with in refl
find_text_lines (l ∷ before) n behind h =
    find_text_line l (header_text (before ++ (length_line n ∷ behind))) h.0
    ∙ find_text_lines before n behind h.1

token_end_first : (c : ℕ) (u rest : Bytes) → Lacks c u → token_end c (u ++ (c ∷ rest)) ≡ (u, rest)
unfolding token_end
token_end_first c [] rest h = ground arith
token_end_first c (d ∷ u) rest h = rw (other, token_end_first c u rest h.1)
  where
    other : (d == c) ≡ false
    other = ground arith

AllFrom0-Lacks : (s : Bytes) → AllFrom0 s → Lacks 13 s
AllFrom0-Lacks [] h = tt
AllFrom0-Lacks (c ∷ s) h = (omega (arith, h.0), AllFrom0-Lacks s h.1)

length_of_text :
    (unset : ℤ) (text : Bytes) (n : ℕ)
    → StartsNumber text
    → scan_d text ≡ some (pos n, [])
    → length_of unset (32 ∷ text) ≡ some (pos n)
unfolding length_of scanned_length
length_of_text unset [] n h e = absurd h
length_of_text unset (c ∷ s) n h e =
    ap (λ t. elim t [ [] ↦ none | d ∷ u ↦ some (scanned_length unset (scan_d (32 ∷ c ∷ s))) ])
      (unfold skip_spaces is_space in refl ∙ skip_spaces-StartsNumber (c ∷ s) h)
    ∙ ap (λ o. some (scanned_length unset o)) (scan_d_space (c ∷ s) ∙ e)

length_of_number :
    (n : ℕ) (unset : ℤ) → n < 2 ^ 31 → length_of unset (32 ∷ print_zu n) ≡ some (pos n)
length_of_number n unset h =
    length_of_text unset (print_zu n) n
      (subst StartsNumber (append-nil (print_zu n)) (print_zu-StartsNumber n []))
      (ap scan_d (sym (append-nil (print_zu n))) ∙ scan_d-print_zu n [] h tt)

pub content_length_lines :
    (before : List Bytes) (n : ℕ) (behind : List Bytes) (unset : ℤ)
    → n < 2 ^ 31
    → LackName before
    → content_length unset (header_text (before ++ (length_line n ∷ behind))) ≡ ok (pos n)
unfolding content_length located_length up_to
content_length_lines before n behind unset h k =
    ap (located_length unset) (find_text_lines before n behind k)
    ∙ ap (λ t. scan_length unset (strip_prefix (codes "Content-Length:") t.0))
        (token_end_first 13 (length_line n) (10 ∷ header_text behind)
          (ground (arith, AllFrom0-Lacks (print_zu n) (print_zu-AllFrom0 n))))
    ∙ ap (scan_length unset) (strip_prefix_append (codes "Content-Length:") (32 ∷ print_zu n))
    ∙ unfold scan_length in
      ap (λ o. elim o [ none ↦ exit_failure | some z ↦ ok z ]) (length_of_number n unset h)
