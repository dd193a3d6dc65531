-- ===== src/CString/Signed/RoundTrip.antt =====
-- A number that is printed is scanned back by `%d` and `atoi`.
use network_protocol_cli_too.Common.{
  ℕ, ◌<◌, ◌^◌, ◌≡◌, refl, ap, ◌∙◌, false, [], ◌∷◌, ◌++◌, some, arith, pos,
}
use network_protocol_cli_too.CString.Chars.{Bytes, skip_spaces, is_digit, is_space}
use network_protocol_cli_too.CString.Decimal.{
  print_zu, scan_unsigned, EndsNumber, StartsNumber, skip_digit, print_zu-StartsNumber,
  scan_unsigned-print_zu,
}
use network_protocol_cli_too.CString.Signed.{valued, signed, scan_d, or_zero, atoi}

pub skip_spaces-StartsNumber : (s : Bytes) → StartsNumber s → skip_spaces s ≡ s
skip_spaces-StartsNumber [] h = absurd h
skip_spaces-StartsNumber (c ∷ s) h = skip_digit c s h

signed-StartsNumber : (s : Bytes) → StartsNumber s → signed s ≡ valued false (scan_unsigned s)
signed-StartsNumber [] h = absurd h
signed-StartsNumber (c ∷ s) h = unfold signed is_digit in ground arith

valued_small :
    (n : ℕ) (rest : Bytes) → n < 2 ^ 31 → valued false (some (n, rest)) ≡ some (pos n, rest)
unfolding valued
valued_small n rest h = ground arith

pub scan_d-print_zu :
    (n : ℕ) (rest : Bytes)
    → n < 2 ^ 31
    → EndsNumber rest
    → scan_d (print_zu n ++ rest) ≡ some (pos n, rest)
unfolding scan_d
scan_d-print_zu n rest h e =
    ap signed (skip_spaces-StartsNumber (print_zu n ++ rest) (print_zu-StartsNumber n rest))
    ∙ signed-StartsNumber (print_zu n ++ rest) (print_zu-StartsNumber n rest)
    ∙ ap (valued false) (scan_unsigned-print_zu n rest (omega arith) e)
    ∙ valued_small n rest h

pub scan_d_space : (s : Bytes) → scan_d (32 ∷ s) ≡ scan_d s
unfolding scan_d skip_spaces is_space
scan_d_space s = refl

pub atoi-print_zu :
    (n : ℕ) (rest : Bytes) → n < 2 ^ 31 → EndsNumber rest → atoi (print_zu n ++ rest) ≡ pos n
unfolding atoi
atoi-print_zu n rest h e = ap or_zero (scan_d-print_zu n rest h e)
