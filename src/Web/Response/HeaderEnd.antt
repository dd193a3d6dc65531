-- ===== src/Web/Response/HeaderEnd.antt =====
-- The end of the header, which is looked for in all of `temp` after each byte, found in one pass.
use network_protocol_cli_too.Common.{
  ℕ, ◌≡◌, ◌≢◌, refl, sym, ap, subst, ◌∙◌, Bool, true, false, ◌||◌, [], ◌∷◌, ◌++◌, arith, ◌==◌,
  if◌then◌else◌, Bool-cases, inl, inr, ◌⊎◌, append-nil,
}
use network_protocol_cli_too.CString.{Bytes, codes, starts_with}
use network_protocol_cli_too.CString.Search.{find_text, contains}
use network_protocol_cli_too.Web.Response.{header_end}

-- How much of "\r\n\r\n" the text ends with.
pub data Seen : Type 0 where
  seen_0 seen_1 seen_2 seen_3 seen_4 : Seen

abbrev pub next : Seen → ℕ → Seen
next seen_0 c = if c == 13 then seen_1 else seen_0
next seen_1 c = if c == 10 then seen_2 else if c == 13 then seen_1 else seen_0
next seen_2 c = if c == 13 then seen_3 else seen_0
next seen_3 c = if c == 10 then seen_4 else if c == 13 then seen_1 else seen_0
next seen_4 c = seen_4

abbrev pub after : Seen → Bytes → Seen
after q [] = q
after q (c ∷ s) = after (next q c) s

abbrev pub is_end : Seen → Bool
is_end seen_4 = true
is_end seen_3 = false
is_end seen_2 = false
is_end seen_1 = false
is_end seen_0 = false

abbrev seen_text : Seen → Bytes
seen_text seen_0 = []
seen_text seen_1 = codes "\r"
seen_text seen_2 = codes "\r\n"
seen_text seen_3 = codes "\r\n\r"
seen_text seen_4 = codes "\r\n\r\n"

pub after-append : (q : Seen) (s t : Bytes) → after q (s ++ t) ≡ after (after q s) t
after-append q [] t = refl
after-append q (c ∷ s) t = after-append (next q c) s t

after_end : (s : Bytes) → after seen_4 s ≡ seen_4
after_end [] = refl
after_end (c ∷ s) = after_end s

contains_cons :
    (c : ℕ) (s : Bytes)
    → contains header_end (c ∷ s) ≡ starts_with header_end (c ∷ s) || contains header_end s
unfolding contains find_text
contains_cons c s = elim (Bool-cases (starts_with header_end (c ∷ s))) [
  | inl e ↦ simp e
  | inr e ↦ simp e
]

contains_end : (s : Bytes) → contains header_end (codes "\r\n\r\n" ++ s) ≡ true
unfolding contains find_text starts_with
contains_end s = refl

contains_short : (q : Seen) → contains header_end (seen_text q) ≡ is_end q
unfolding contains find_text starts_with
contains_short seen_0 = refl
contains_short seen_1 = refl
contains_short seen_2 = refl
contains_short seen_3 = refl
contains_short seen_4 = refl

contains_other : (c : ℕ) (s : Bytes) → c ≢ 13 → contains header_end (c ∷ s) ≡ contains header_end s
contains_other c s n = contains_cons c s ∙ unfold starts_with in ground arith

contains_cr :
    (c : ℕ) (s : Bytes) → c ≢ 10 → contains header_end (13 ∷ c ∷ s) ≡ contains header_end (c ∷ s)
contains_cr c s n = contains_cons 13 (c ∷ s) ∙ unfold starts_with in ground arith

contains_crlf :
    (c : ℕ) (s : Bytes)
    → c ≢ 13
    → contains header_end (13 ∷ 10 ∷ c ∷ s) ≡ contains header_end (c ∷ s)
contains_crlf c s n =
    contains_cons 13 (10 ∷ c ∷ s) ∙ first ∙ contains_other 10 (c ∷ s) (omega arith)
  where
    first :
        starts_with header_end (13 ∷ 10 ∷ c ∷ s) || contains header_end (10 ∷ c ∷ s)
        ≡ contains header_end (10 ∷ c ∷ s)
    first = unfold starts_with in ground arith

contains_crlfcr :
    (c : ℕ) (s : Bytes)
    → c ≢ 10
    → contains header_end (13 ∷ 10 ∷ 13 ∷ c ∷ s) ≡ contains header_end (c ∷ s)
contains_crlfcr c s n =
    contains_cons 13 (10 ∷ 13 ∷ c ∷ s)
    ∙ first
    ∙ contains_other 10 (13 ∷ c ∷ s) (omega arith)
    ∙ contains_cr c s n
  where
    first :
        starts_with header_end (13 ∷ 10 ∷ 13 ∷ c ∷ s) || contains header_end (10 ∷ 13 ∷ c ∷ s)
        ≡ contains header_end (10 ∷ 13 ∷ c ∷ s)
    first = unfold starts_with in ground arith

-- A byte that the end does not have.
abbrev pub IsOther : ℕ → Type 0
IsOther c = (c ≢ 13) × (c ≢ 10)

byte_cases : (c : ℕ) → (c ≡ 13) ⊎ (c ≡ 10) ⊎ IsOther c
byte_cases c = ground arith

pub next_other : (q : Seen) (c : ℕ) → is_end q ≡ false → IsOther c → next q c ≡ seen_0
next_other seen_0 c e o = ground arith
next_other seen_1 c e o = ground arith
next_other seen_2 c e o = ground arith
next_other seen_3 c e o = ground arith
next_other seen_4 c e o = cc

contains_skip :
    (q : Seen) (c : ℕ) (s : Bytes)
    → is_end q ≡ false
    → IsOther c
    → contains header_end (seen_text q ++ (c ∷ s)) ≡ contains header_end s
contains_skip seen_0 c s e o = contains_other c s o.0
contains_skip seen_1 c s e o = contains_cr c s o.1 ∙ contains_other c s o.0
contains_skip seen_2 c s e o = contains_crlf c s o.0 ∙ contains_other c s o.0
contains_skip seen_3 c s e o = contains_crlfcr c s o.1 ∙ contains_other c s o.0
contains_skip seen_4 c s e o = cc

contains-next-cr :
    (q : Seen) (s : Bytes)
    → contains header_end (seen_text q ++ (13 ∷ s))
      ≡ contains header_end (seen_text (next q 13) ++ s)
contains-next-cr seen_0 s = refl
contains-next-cr seen_1 s = contains_cr 13 s (omega arith)
contains-next-cr seen_2 s = refl
contains-next-cr seen_3 s = contains_crlfcr 13 s (omega arith)
contains-next-cr seen_4 s = contains_end (13 ∷ s) ∙ sym (contains_end s)

contains-next-lf :
    (q : Seen) (s : Bytes)
    → contains header_end (seen_text q ++ (10 ∷ s))
      ≡ contains header_end (seen_text (next q 10) ++ s)
contains-next-lf seen_0 s = contains_other 10 s (omega arith)
contains-next-lf seen_1 s = refl
contains-next-lf seen_2 s = contains_crlf 10 s (omega arith) ∙ contains_other 10 s (omega arith)
contains-next-lf seen_3 s = refl
contains-next-lf seen_4 s = contains_end (10 ∷ s) ∙ sym (contains_end s)

-- One byte behind a part of the end.
contains-next-other :
    (q : Seen) (c : ℕ) (s : Bytes)
    → IsOther c
    → contains header_end (seen_text q ++ (c ∷ s)) ≡ contains header_end (seen_text (next q c) ++ s)
contains-next-other q c s o = elim (Bool-cases (is_end q)) [
  | inl e ↦ ended q e
  | inr e ↦
      contains_skip q c s e o
      ∙ sym (ap (λ r. contains header_end (seen_text r ++ s)) (next_other q c e o))
]
  where
    ended :
        (q : Seen)
        → is_end q ≡ true
        → contains header_end (seen_text q ++ (c ∷ s))
          ≡ contains header_end (seen_text (next q c) ++ s)
    ended seen_4 e = contains_end (c ∷ s) ∙ sym (contains_end s)
    ended seen_3 e = cc
    ended seen_2 e = cc
    ended seen_1 e = cc
    ended seen_0 e = cc

contains-next :
    (q : Seen) (c : ℕ) (s : Bytes)
    → contains header_end (seen_text q ++ (c ∷ s)) ≡ contains header_end (seen_text (next q c) ++ s)
contains-next q c s = elim (byte_cases c) [
  | inl e ↦
      subst
        (λ d.
          contains header_end (seen_text q ++ (d ∷ s))
          ≡ contains header_end (seen_text (next q d) ++ s))
        (sym e) (contains-next-cr q s)
  | inr (inl e) ↦
      subst
        (λ d.
          contains header_end (seen_text q ++ (d ∷ s))
          ≡ contains header_end (seen_text (next q d) ++ s))
        (sym e) (contains-next-lf q s)
  | inr (inr o) ↦ contains-next-other q c s o
]

contains-after_seen :
    (q : Seen) (s : Bytes) → contains header_end (seen_text q ++ s) ≡ is_end (after q s)
contains-after_seen q [] = ap (contains header_end) (append-nil (seen_text q)) ∙ contains_short q
contains-after_seen q (c ∷ s) = contains-next q c s ∙ contains-after_seen (next q c) s

-- The end stands in a text just where this one pass over it says so.
pub contains-after : (s : Bytes) → contains header_end s ≡ is_end (after seen_0 s)
contains-after s = contains-after_seen seen_0 s
