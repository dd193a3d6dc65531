-- ===== src/CString/Scan.antt =====
-- `%9s` and `%255s`: words of bounded length.
use network_protocol_cli_too.Common.{
  ℕ, zero, suc, ◌≤◌, ◌≡◌, refl, ap, ◌∙◌, true, [], ◌∷◌, ◌++◌, Option, none, some, arith,
  if◌then◌else◌, length,
}
use network_protocol_cli_too.CString.Chars.{Bytes, is_space, skip_spaces, IsWordChar, HasNoNul}

-- At most `n` bytes up to white space, and what follows them.
take_word : ℕ → Bytes → Bytes × Bytes
unfolding is_space
take_word zero s = ([], s)
take_word (suc n) [] = ([], [])
take_word (suc n) (c ∷ s) =
    let (w, rest) = take_word n s in if is_space c then ([], c ∷ s) else (c ∷ w, rest)

scanned : Bytes × Bytes → Option (Bytes × Bytes)
scanned ([], rest) = none
scanned (c ∷ w, rest) = some (c ∷ w, rest)

-- `%ns`: no conversion where only white space is left.
unfoldable pub scan_word : ℕ → Bytes → Option (Bytes × Bytes)
unfolding take_word scanned skip_spaces
scan_word n s = scanned (take_word n (skip_spaces s))

-- The bytes that `%s` reads as one word.
abbrev pub IsWord : Bytes → Type 0
IsWord [] = Unit {0}
IsWord (c ∷ w) = IsWordChar c × IsWord w

-- What may follow a word: nothing, or white space.
abbrev pub EndsWord : Bytes → Type 0
EndsWord [] = Unit {0}
EndsWord (c ∷ s) = is_space c ≡ true

take_word_append :
    (n : ℕ) (w rest : Bytes)
    → IsWord w
    → EndsWord rest
    → length w ≤ n
    → take_word n (w ++ rest) ≡ (w, rest)
unfolding take_word
take_word_append zero [] rest v e h = refl
take_word_append zero (c ∷ w) rest v e h = absurd (omega arith)
take_word_append (suc n) [] [] v e h = refl
take_word_append (suc n) [] (c ∷ rest) v e h = rw e
take_word_append (suc n) (c ∷ w) rest v e h =
    rw (v.0.0, take_word_append n w rest v.1 e (omega arith))

skip_spaces_word : (c : ℕ) (s : Bytes) → IsWordChar c → skip_spaces (c ∷ s) ≡ c ∷ s
unfolding skip_spaces
skip_spaces_word c s v = rw v.0

-- A word of at most `n` bytes is read whole, and nothing behind it.
pub scan_word_append :
    (n c : ℕ) (w rest : Bytes)
    → IsWord (c ∷ w)
    → EndsWord rest
    → length (c ∷ w) ≤ n
    → scan_word n ((c ∷ w) ++ rest) ≡ some (c ∷ w, rest)
unfolding scan_word
scan_word_append n c w rest v e h =
    ap (λ s. scanned (take_word n s)) (skip_spaces_word c (w ++ rest) v.0)
    ∙ ap scanned (take_word_append n (c ∷ w) rest v e h)

-- White space in front of a word is skipped.
pub scan_word_space :
    (n c : ℕ) (s : Bytes) → is_space c ≡ true → scan_word n (c ∷ s) ≡ scan_word n s
unfolding scan_word
scan_word_space n c s e = ap (λ t. scanned (take_word n t)) (skipped e)
  where
    skipped : is_space c ≡ true → skip_spaces (c ∷ s) ≡ skip_spaces s
    skipped h = unfold skip_spaces in rw h

pub IsWord-HasNoNul : (w : Bytes) → IsWord w → HasNoNul w
IsWord-HasNoNul [] v = tt
IsWord-HasNoNul (c ∷ w) v = (v.0.1, IsWord-HasNoNul w v.1)
