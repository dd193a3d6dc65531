-- ===== src/CString/Search.antt =====
-- `strtok`, `strchr` and `strstr`.
use network_protocol_cli_too.Common.{
  ℕ, Bool, true, false, ◌||◌, [], ◌∷◌, Option, none, some, ◌==◌, if◌then◌else◌,
}
use network_protocol_cli_too.CString.Chars.{Bytes, starts_with}

-- The text up to the first `c`, and what is behind it.
unfoldable pub token_end : ℕ → Bytes → Bytes × Bytes
token_end c [] = ([], [])
token_end c (d ∷ s) =
    let (token, rest) = token_end c s in if d == c then ([], s) else (d ∷ token, rest)

unfoldable pub is_one_of : Bytes → ℕ → Bool
is_one_of [] c = false
is_one_of (d ∷ ds) c = c == d || is_one_of ds c

-- The text up to the first delimiter, and what is behind it.
unfoldable pub token_until : Bytes → Bytes → Bytes × Bytes
unfolding is_one_of
token_until ds [] = ([], [])
token_until ds (c ∷ s) =
    let (token, rest) = token_until ds s in if is_one_of ds c then ([], s) else (c ∷ token, rest)

-- `strtok`: the next token that is not empty, and the text that the next call goes on with.
unfoldable pub strtok : Bytes → Bytes → Option (Bytes × Bytes)
unfolding is_one_of token_until
strtok ds [] = none
strtok ds (c ∷ s) =
    let later = strtok ds s in if is_one_of ds c then later else some (token_until ds (c ∷ s))

-- `strstr`: the text from the first occurrence of `p` on, for a `p` that is not empty.
unfoldable pub find_text : Bytes → Bytes → Option Bytes
unfolding starts_with
find_text p [] = none
find_text p (c ∷ s) =
    let later = find_text p s in if starts_with p (c ∷ s) then some (c ∷ s) else later

abbrev pub is_found : Option Bytes → Bool
is_found none = false
is_found (some s) = true

unfoldable pub contains : Bytes → Bytes → Bool
unfolding find_text
contains p s = is_found (find_text p s)

-- `content_header = strchr(text, '\r'); if (content_header != NULL) *content_header = '\0';`
unfoldable pub up_to : ℕ → Bytes → Bytes
unfolding token_end
up_to c s = (token_end c s).0
