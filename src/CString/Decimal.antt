-- ===== src/CString/Decimal.antt =====
-- `%zu`: printing and scanning a `size_t` in decimal.
use network_protocol_cli_too.Common.{
  ℕ, zero, suc, ◌+◌, ◌-◌, ◌*◌, ◌/◌, ◌%◌, ◌^◌, ◌≤◌, ◌<◌, ◌≡◌, refl, ◌∙◌, Bool, true, false, [], ◌∷◌,
  ◌++◌, Option, none, some, arith, leb, ◌==◌, if◌then◌else◌, Bool-cases, inl, inr, length, size_max,
  sub_size, ap,
}
use native.Mathlib.Nat.{pow-suc}
use network_protocol_cli_too.CString.Chars.{
  Bytes, is_space, is_digit, skip_spaces, is_digit-not-space, HasNoNul,
}

-- The digits of `n` in front of `out`, the last one first. A round divides by ten.
emit : ℕ → ℕ → Bytes → Bytes
emit zero n out = out
emit (suc f) n out =
    let more = emit f (n / 10) ((48 + n % 10) ∷ out) in if n == 0 then out else more

decimal : ℕ → ℕ → Bytes
unfolding emit
decimal f n = if n == 0 then 48 ∷ [] else emit f n []

-- `%zu`. Twenty rounds are enough for 64 bits.
unfoldable pub print_zu : ℕ → Bytes
unfolding decimal
print_zu n = decimal 20 n

-- The digits in front of `s`, and what follows them.
unfoldable pub scan_digits : ℕ → Bytes → ℕ × Bytes
unfolding is_digit
scan_digits v [] = (v, [])
scan_digits v (c ∷ s) = if is_digit c then scan_digits (v * 10 + (c - 48)) s else (v, c ∷ s)

-- At least one digit, or no conversion.
unfoldable pub scan_unsigned : Bytes → Option (ℕ × Bytes)
unfolding is_digit scan_digits
scan_unsigned [] = none
scan_unsigned (c ∷ s) = if is_digit c then some (scan_digits 0 (c ∷ s)) else none

-- The value of `strtoul`: the largest one where the number is too large, else the number, or its
-- negative modulo 2^64.
abbrev pub saturated : Bool → ℕ → ℕ
saturated minus v = if leb v size_max then (if minus then sub_size 0 v else v) else size_max

valued : Bool → Option (ℕ × Bytes) → Option (ℕ × Bytes)
valued minus none = none
valued minus (some (v, rest)) = some (saturated minus v, rest)

scan_signed : Bytes → Option (ℕ × Bytes)
unfolding scan_unsigned valued
scan_signed [] = none
scan_signed (c ∷ s) =
    if c == b'-'
    then valued true (scan_unsigned s)
    else valued false (scan_unsigned (if c == b'+' then s else c ∷ s))

-- `%zu`
unfoldable pub scan_zu : Bytes → Option (ℕ × Bytes)
unfolding scan_signed skip_spaces
scan_zu s = scan_signed (skip_spaces s)

scan_digits-emit :
    (f n : ℕ) (out : Bytes) → n < 10 ^ f → scan_digits 0 (emit f n out) ≡ scan_digits n out
unfolding emit scan_digits
scan_digits-emit zero n out h = ap (λ k. scan_digits k out) (omega arith)
scan_digits-emit (suc f) n out h = elim (Bool-cases (n == 0)) [
  | inl e ↦ rw e (ap (λ k. scan_digits k out) (ground arith))
  | inr e ↦ rw e (
      scan_digits-emit f (n / 10) ((48 + n % 10) ∷ out) (omega (arith, pow-suc 10 f))
      ∙ ground arith)
]

scan_digits_zero : (rest : Bytes) → scan_digits 0 (48 ∷ rest) ≡ scan_digits 0 rest
unfolding scan_digits
scan_digits_zero rest = refl

-- A text that a number may stand in front of: it does not begin with a digit.
abbrev pub EndsNumber : Bytes → Type 0
EndsNumber [] = Unit {0}
EndsNumber (c ∷ s) = is_digit c ≡ false

abbrev pub StartsNumber : Bytes → Type 0
StartsNumber [] = ⊥
StartsNumber (c ∷ s) = is_digit c ≡ true

emit-StartsNumber : (f n : ℕ) (out : Bytes) → StartsNumber out → StartsNumber (emit f n out)
unfolding emit is_digit
emit-StartsNumber zero n out h = h
emit-StartsNumber (suc f) n out h = elim (Bool-cases (n == 0)) [
  | inl e ↦ rw e h
  | inr e ↦ rw e (emit-StartsNumber f (n / 10) ((48 + n % 10) ∷ out) (ground arith))
]

length-emit : (f n : ℕ) (out : Bytes) → length (emit f n out) ≤ f + length out
unfolding emit
length-emit zero n out = omega arith
length-emit (suc f) n out = elim (Bool-cases (n == 0)) [
  | inl e ↦ rw e (omega arith)
  | inr e ↦ rw e (omega (arith, length-emit f (n / 10) ((48 + n % 10) ∷ out)))
]

emit-append : (f n : ℕ) (out rest : Bytes) → emit f n (out ++ rest) ≡ emit f n out ++ rest
unfolding emit
emit-append zero n out rest = refl
emit-append (suc f) n out rest = elim (Bool-cases (n == 0)) [
  | inl e ↦ rw e
  | inr e ↦ rw e (emit-append f (n / 10) ((48 + n % 10) ∷ out) rest)
]

length-decimal : (f n : ℕ) → length (decimal (suc f) n) ≤ suc f
unfolding decimal
length-decimal f n = ground (arith, length-emit (suc f) n [])

decimal-StartsNumber : (f n : ℕ) → StartsNumber (decimal (suc f) n)
unfolding decimal is_digit
decimal-StartsNumber f n = elim (Bool-cases (n == 0)) [
  | inl e ↦ rw e refl
  | inr e ↦ rw e (emit-StartsNumber f (n / 10) ((48 + n % 10) ∷ []) (ground arith))
]

scan_digits-EndsNumber : (n : ℕ) (s : Bytes) → EndsNumber s → scan_digits n s ≡ (n, s)
unfolding scan_digits
scan_digits-EndsNumber n [] h = refl
scan_digits-EndsNumber n (c ∷ s) h = rw h

scan_digits-decimal :
    (f n : ℕ) (rest : Bytes)
    → n < 10 ^ f
    → EndsNumber rest
    → scan_digits 0 (decimal f n ++ rest) ≡ (n, rest)
unfolding decimal
scan_digits-decimal f n rest h e = elim (Bool-cases (n == 0)) [
  | inl z ↦
      rw z (
        scan_digits_zero rest
        ∙ scan_digits-EndsNumber 0 rest e
        ∙ ap (λ k. (k, rest)) (ground arith))
  | inr z ↦
      rw (z, ← emit-append f n [] rest)
        (scan_digits-emit f n rest h ∙ scan_digits-EndsNumber n rest e)
]

pub skip_digit : (c : ℕ) (s : Bytes) → is_digit c ≡ true → skip_spaces (c ∷ s) ≡ c ∷ s
unfolding skip_spaces
skip_digit c s h = rw (is_digit-not-space c h)

plain_sign :
    (c : ℕ) (s : Bytes)
    → is_digit c ≡ true
    → scan_signed (c ∷ s) ≡ valued false (scan_unsigned (c ∷ s))
unfolding scan_signed is_digit
plain_sign c s h = ground arith

scan_unsigned_digit :
    (c : ℕ) (s : Bytes) → is_digit c ≡ true → scan_unsigned (c ∷ s) ≡ some (scan_digits 0 (c ∷ s))
unfolding scan_unsigned
scan_unsigned_digit c s h = rw h

valued_small :
    (n : ℕ) (rest : Bytes) → n ≤ size_max → valued false (some (n, rest)) ≡ some (n, rest)
unfolding valued
valued_small n rest b = ground arith

-- Behind white space a text that starts with a digit is read by `scan_digits`.
scan_zu-StartsNumber :
    (s : Bytes) (n : ℕ) (rest : Bytes)
    → StartsNumber s
    → scan_digits 0 s ≡ (n, rest)
    → n ≤ size_max
    → scan_zu s ≡ some (n, rest)
unfolding scan_zu
scan_zu-StartsNumber [] n rest h e b = absurd h
scan_zu-StartsNumber (c ∷ s) n rest h e b =
    ap scan_signed (skip_digit c s h)
    ∙ plain_sign c s h
    ∙ ap (valued false) (scan_unsigned_digit c s h ∙ ap some e)
    ∙ valued_small n rest b

append-StartsNumber : (s t : Bytes) → StartsNumber s → StartsNumber (s ++ t)
append-StartsNumber [] t h = absurd h
append-StartsNumber (c ∷ s) t h = h

pub length-print_zu : (n : ℕ) → length (print_zu n) ≤ 20
unfolding print_zu
length-print_zu n = length-decimal 19 n

-- What `%zu` prints of a `size_t`, `%zu` reads back, if no digit follows.
pub scan_zu-print_zu :
    (n : ℕ) (rest : Bytes)
    → n ≤ size_max
    → EndsNumber rest
    → scan_zu (print_zu n ++ rest) ≡ some (n, rest)
unfolding print_zu
scan_zu-print_zu n rest h e =
    scan_zu-StartsNumber (decimal 20 n ++ rest) n rest
      (append-StartsNumber (decimal 20 n) rest (decimal-StartsNumber 19 n))
      (scan_digits-decimal 20 n rest (omega arith) e) h

pub scan_zu_space : (s : Bytes) → scan_zu (32 ∷ s) ≡ scan_zu s
unfolding scan_zu skip_spaces is_space
scan_zu_space s = refl

-- Bytes from '0' on, which no delimiter of the texts is.
abbrev pub AllFrom0 : Bytes → Type 0
AllFrom0 [] = Unit {0}
AllFrom0 (c ∷ s) = (48 ≤ c) × AllFrom0 s

emit-AllFrom0 : (f n : ℕ) (out : Bytes) → AllFrom0 out → AllFrom0 (emit f n out)
unfolding emit
emit-AllFrom0 zero n out h = h
emit-AllFrom0 (suc f) n out h = elim (Bool-cases (n == 0)) [
  | inl e ↦ rw e h
  | inr e ↦ rw e (emit-AllFrom0 f (n / 10) ((48 + n % 10) ∷ out) (omega arith, h))
]

decimal-AllFrom0 : (f n : ℕ) → AllFrom0 (decimal f n)
unfolding decimal
decimal-AllFrom0 f n = elim (Bool-cases (n == 0)) [
  | inl e ↦ rw e (omega arith)
  | inr e ↦ rw e (emit-AllFrom0 f n [] tt)
]

pub print_zu-AllFrom0 : (n : ℕ) → AllFrom0 (print_zu n)
unfolding print_zu
print_zu-AllFrom0 n = decimal-AllFrom0 20 n

AllFrom0-HasNoNul : (s : Bytes) → AllFrom0 s → HasNoNul s
AllFrom0-HasNoNul [] h = tt
AllFrom0-HasNoNul (c ∷ s) h = (omega (arith, h.0), AllFrom0-HasNoNul s h.1)

pub print_zu-HasNoNul : (n : ℕ) → HasNoNul (print_zu n)
print_zu-HasNoNul n = AllFrom0-HasNoNul (print_zu n) (print_zu-AllFrom0 n)

pub print_zu-StartsNumber : (n : ℕ) (rest : Bytes) → StartsNumber (print_zu n ++ rest)
unfolding print_zu
print_zu-StartsNumber n rest = append-StartsNumber (decimal 20 n) rest (decimal-StartsNumber 19 n)

scan_unsigned-StartsNumber : (s : Bytes) → StartsNumber s → scan_unsigned s ≡ some (scan_digits 0 s)
scan_unsigned-StartsNumber [] h = absurd h
scan_unsigned-StartsNumber (c ∷ s) h = scan_unsigned_digit c s h

pub scan_unsigned-print_zu :
    (n : ℕ) (rest : Bytes)
    → n ≤ size_max
    → EndsNumber rest
    → scan_unsigned (print_zu n ++ rest) ≡ some (n, rest)
unfolding print_zu
scan_unsigned-print_zu n rest h e =
    scan_unsigned-StartsNumber (decimal 20 n ++ rest) (print_zu-StartsNumber n rest)
    ∙ ap some (scan_digits-decimal 20 n rest (omega arith) e)
