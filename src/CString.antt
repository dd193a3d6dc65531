-- ===== src/CString.antt =====
-- What the programs use of <string.h> and <stdio.h>, over bytes: strings end at the first NUL,
-- `%zu` and `%d` are printed and scanned, `%ns` scans a word. A text is a list of bytes.
pub mod Decimal
pub mod Scan
pub mod Signed
pub mod Search
pub mod Words
mod Chars
pub use Chars.{Bytes, codes, bytes_eq_iff, strip_prefix_append}
unfoldable pub use Chars.{
  c_str, bytes_eq, starts_with, is_space, is_digit, skip_spaces, strip_prefix,
}
pub use Chars.{
  IsWordChar, IsWordChar-space, is_digit-not-space, HasNoNul, HasNoNul-append, c_str-HasNoNul,
}
