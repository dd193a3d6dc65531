-- ===== src/Https/Client/Response.antt =====
-- What is printed and stored of a response.
use network_protocol_cli_too.Common.{
  ℕ, suc, ◌+◌, ◌≤◌, ◌<◌, ◌≡◌, refl, ap, true, false, List, [], ◌∷◌, ◌++◌, arith, ltb, length,
}
use network_protocol_cli_too.CString.{Bytes}
use network_protocol_cli_too.Https.Client.{print_header, read_response}

abbrev pub joined : List Bytes → Bytes
joined [] = []
joined (b ∷ bs) = b ++ joined bs

-- Buffers that are not empty and hold at most `n` bytes
abbrev pub AllShort : ℕ → List Bytes → Type 0
AllShort n [] = Unit {0}
AllShort n (b ∷ bs) = (0 < length b) × (length b ≤ n) × AllShort n bs

-- Without `-h`, what is stored is what the connection brought, in whatever buffers that are not
-- empty, and nothing is printed.
pub read_response_stored :
    (n : ℕ) (reads : List Bytes)
    → AllShort n reads
    → read_response false reads ≡ record { printed = []; stored = joined reads }
unfolding read_response
read_response_stored n [] a = refl
read_response_stored n ([] ∷ reads) a = absurd (omega (arith, a.0))
read_response_stored n ((c ∷ s) ∷ reads) a =
    ap (λ o. record { printed = o.printed; stored = (c ∷ s) ++ o.stored })
      (read_response_stored n reads a.2)

print_header_short :
    (i x y z : ℕ) (s : Bytes) → i + length s ≤ 4 → print_header i x y z s ≡ (s, false)
unfolding print_header
print_header_short i x y z [] h = refl
print_header_short i x y z (c ∷ s) h = rw (first, print_header_short (suc i) y z c s (omega arith))
  where
    first : ltb 3 i ≡ false
    first = ground arith

-- With `-h`, the end of the header is not seen in buffers of one to four bytes: everything that
-- the connection brings is printed, the body too.
pub read_response_short :
    (reads : List Bytes)
    → AllShort 4 reads
    → read_response true reads ≡ record { printed = joined reads; stored = [] }
unfolding read_response
read_response_short [] a = refl
read_response_short ([] ∷ reads) a = absurd (omega (arith, a.0))
read_response_short ((c ∷ s) ∷ reads) a =
    rw (print_header_short 1 0 0 c s (omega (arith, a.1)), read_response_short reads a.2)
