-- ===== src/Shell/Client.antt =====
-- archive/shell/src/myclient.c: the rounds of the loop.
pub mod Cut
use network_protocol_cli_too.Common.{
  ℕ, zero, suc, ◌+◌, ◌-◌, ◌*◌, ◌^◌, ◌≤◌, ◌<◌, ◌≡◌, refl, sym, ap, ◌∙◌, Bool, true, false, List, [],
  ◌∷◌, ◌++◌, Option, none, some, arith, ltb, if◌then◌else◌, length, take, drop, replicate, into,
  length-append, length-replicate, take_all, length-take, length-drop, drop_all, append_assoc,
  append-nil,
}
use network_protocol_cli_too.CString.{Bytes, codes, c_str, bytes_eq, HasNoNul}
use network_protocol_cli_too.CString.Words.{le_value}
use network_protocol_cli_too.Shell.Server.{response_size, is_terminated}

-- What a round does: it ends the process, or it has sent a command and printed a text, or its
-- behaviour is undefined.
pub data Step : Type 0 where
  ended : Step
  printed : Bytes → Bytes → Step
  undefined : Step

-- The `int` that four bytes stand for, as the count of `recv`: a negative one becomes a large
-- `size_t`.
abbrev pub count_of : ℕ → ℕ
count_of n = if ltb n (2 ^ 31) then n else 2 ^ 64 - (2 ^ 32 - n)

-- What a `recv` brings; nothing at an error.
abbrev pub brought : Option Bytes → Bytes
brought none = []
brought (some bytes) = bytes

-- Behind the second `recv`: more bytes than the array has would be written behind it.
print_response : Bytes → Bytes → Bytes → Step
print_response sent old_response bytes =
    let response = into old_response bytes in
    if ltb response_size (length bytes)
    then undefined
    else if is_terminated response
    then printed sent (c_str response)
    else undefined

-- One round: the line that `readline` gives (NULL at the end of the input), what `len` and
-- `response` happen to hold, and what the two `recv` calls bring for the count that is asked.
unfoldable pub round : Bytes → Bytes → (ℕ → Option Bytes) → (ℕ → Option Bytes) → Option Bytes → Step
unfolding print_response
round old_len old_response first second none = undefined
round old_len old_response first second (some cmd) =
    if bytes_eq cmd (codes "exit")
    then ended
    else let len = le_value (into old_len (brought (first 4))) in
      print_response (cmd ++ (0 ∷ [])) old_response (brought (second (count_of len)))
