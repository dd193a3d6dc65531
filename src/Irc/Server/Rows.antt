-- ===== src/Irc/Server/Rows.antt =====
-- irc/server.c: its arrays, and how it reads and writes texts and rows of them.
use network_protocol_cli_too.Common.{
  ℕ, zero, suc, Bool, false, not, ◌||◌, List, [], ◌∷◌, ◌++◌, Option, none, some, ltb, ◌==◌,
  if◌then◌else◌, length, take, ℤ, pos, negsuc, Outcome, ok, ◌>>◌, undefined_if,
}
use network_protocol_cli_too.CString.{Bytes, bytes_eq}
use network_protocol_cli_too.CString.Decimal.{print_zu}

abbrev pub max_clients : ℕ
max_clients = 100

abbrev pub max_waiting : ℕ
max_waiting = 100

abbrev pub buffer_size : ℕ
buffer_size = 1024

abbrev pub id_size : ℕ
id_size = 32

-- `Client`, with `in_chat` 'y' as true
pub record Client : Type 0 where
  pub id : Bytes
  pub socket : ℕ
  pub port : ℤ
  pub in_chat : Bool

-- `send` of the first `n` bytes of a literal, which may include its NUL
abbrev pub literal : Bytes → ℕ → Bytes
literal s n = take n (s ++ (0 ∷ []))

-- `buffer[strcspn(buffer, "\n")] = '\0'`: the text up to a newline or NUL
unfoldable pub first_line : Bytes → Bytes
first_line [] = []
first_line (c ∷ s) = if c == 0 || c == 10 then [] else c ∷ first_line s

-- What `recv` brings into a zeroed buffer of `room` bytes, as a line. A line that fills the buffer
-- has no end in it.
unfoldable pub received_line : ℕ → Bytes → Outcome Bytes
unfolding first_line
received_line room message =
    let line = first_line (take room message) in
    do undefined_if (not (ltb (length line) room)); ok line

-- `%d`
unfoldable pub print_d : ℤ → Bytes
print_d (pos n) = print_zu n
print_d (negsuc n) = b'-' ∷ print_zu (suc n)

-- The first row that `strcmp` finds equal.
unfoldable pub index_of : Bytes → List Bytes → Option ℕ
index_of id [] = none
index_of id (x ∷ xs) =
    let later = index_of id xs in
    if bytes_eq x id then some 0 else elim later [ none ↦ none | some i ↦ some (suc i) ]

-- The loop that moves the rows behind `target_index` down, and `waiting_count--`.
unfoldable pub remove_row {ℓ} : {A : Type ℓ} → ℕ → List A → List A
remove_row i [] = []
remove_row zero (x ∷ xs) = xs
remove_row (suc i) (x ∷ xs) = x ∷ remove_row i xs

-- The row of a socket among the first `n`.
unfoldable pub socket_row : ℕ → ℕ → List Client → Option ℕ
socket_row socket zero cs = none
socket_row socket (suc n) [] = none
socket_row socket (suc n) (c ∷ cs) =
    let later = socket_row socket n cs in
    if c.socket == socket then some 0 else elim later [ none ↦ none | some i ↦ some (suc i) ]

-- The names, one to a line.
unfoldable pub lines : List Bytes → Bytes
lines [] = []
lines (x ∷ xs) = x ++ (10 ∷ lines xs)

abbrev pub is_positive : ℤ → Bool
is_positive (pos n) = ltb 0 n
is_positive (negsuc n) = false
