-- ===== src/CString/Signed.antt =====
-- `%d` and `atoi`: an `int` in decimal, as glibc computes it: `strtol`, which saturates at 64 bits,
-- and then the low 32 bits.
pub mod RoundTrip
use network_protocol_cli_too.Common.{
  ℕ, ◌-◌, ◌^◌, ◌≡◌, refl, Bool, true, false, [], ◌∷◌, Option, none, some, leb, ◌==◌, if◌then◌else◌,
  ℤ, pos, negsuc, to_int, sub_size,
}
use network_protocol_cli_too.CString.Chars.{Bytes, codes, skip_spaces}
use network_protocol_cli_too.CString.Decimal.{scan_unsigned}

abbrev int_value : Bool → ℕ → ℤ
int_value minus v = to_int (
    if minus
    then sub_size 0 (if leb v (2 ^ 63) then v else 2 ^ 63)
    else if leb v (2 ^ 63 - 1)
    then v
    else 2 ^ 63 - 1)

valued : Bool → Option (ℕ × Bytes) → Option (ℤ × Bytes)
valued minus none = none
valued minus (some (v, rest)) = some (int_value minus v, rest)

signed : Bytes → Option (ℤ × Bytes)
unfolding valued scan_unsigned
signed [] = none
signed (c ∷ s) =
    if c == b'-'
    then valued true (scan_unsigned s)
    else valued false (scan_unsigned (if c == b'+' then s else c ∷ s))

-- `%d`
unfoldable pub scan_d : Bytes → Option (ℤ × Bytes)
unfolding signed skip_spaces
scan_d s = signed (skip_spaces s)

or_zero : Option (ℤ × Bytes) → ℤ
or_zero none = pos 0
or_zero (some (z, rest)) = z

-- `atoi`: 0 where there is no number.
unfoldable pub atoi : Bytes → ℤ
unfolding or_zero scan_d
atoi s = or_zero (scan_d s)

atoi_port : atoi (codes " 8080/") ≡ pos 8080
unfolding atoi
atoi_port = refl

atoi_negative : atoi (codes "-12") ≡ negsuc 11
unfolding atoi
atoi_negative = refl

atoi_none : atoi (codes "x1") ≡ pos 0
unfolding atoi
atoi_none = refl
