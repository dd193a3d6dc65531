-- ===== src/Shell/Server.antt =====
-- archive/shell/src/myserver.c: the process that `main` forks for a connection. What a command prints
-- is asked of `popen`, a parameter; it is `none` where no process can be made.
pub mod Again
use network_protocol_cli_too.Common.{
  ℕ, ◌+◌, ◌-◌, ◌≤◌, ◌<◌, ◌≡◌, refl, sym, ap, ◌∙◌, Bool, true, false, List, [], ◌∷◌, ◌++◌, Option,
  none, some, arith, ltb, if◌then◌else◌, length, take, drop, replicate, into, length-append,
  take_all, Bool-cases, inl, inr, append_assoc,
}
use network_protocol_cli_too.CString.{Bytes, codes, c_str, bytes_eq, HasNoNul, bytes_eq_iff}

abbrev pub buffer_size : ℕ
buffer_size = 100

abbrev pub response_size : ℕ
response_size = 8192

-- Whether a string ends inside of its array.
abbrev pub is_terminated : Bytes → Bool
is_terminated s = ltb (length (c_str s)) (length s)

-- What a round does: it ends the process (at the end of the connection or by `exit`), it has run a
-- command and sent its answer, or its behaviour is undefined (`commands` that were run before it
-- count too).
pub data Step : Type 0 where
  ended : Step
  answered : Bytes → Bytes → Step
  undefined : List Bytes → Step

-- The answer to a command. A character that the command prints is handed to `strcat` by its address,
-- without a NUL behind it; and `response` is never set: without output it holds what it happens to.
answer_to : Bytes → Bytes → Option Bytes → Step
answer_to command old_response none = undefined (command ∷ [])
answer_to command old_response (some (c ∷ output)) = undefined (command ∷ [])
answer_to command old_response (some []) =
    if is_terminated old_response then answered command old_response else undefined (command ∷ [])

-- Behind `recv`: the buffer holds a command with its NUL, or it does not end.
run_command : (Bytes → Option Bytes) → Bytes → Bytes → Step
unfolding answer_to
run_command popen old_response buf =
    if bytes_eq (c_str buf) (codes "exit")
    then ended
    else if is_terminated buf
    then answer_to (c_str buf) old_response (popen (c_str buf))
    else undefined []

-- The buffer behind a `recv`; an error, `none`, leaves it as it was.
abbrev pub received : Bytes → Option Bytes → Bytes
received buf none = buf
received buf (some bytes) = into buf (take buffer_size bytes)

-- One round of `while (1)`: the end of the connection is a `recv` of nothing, and an error is not
-- looked at.
unfoldable pub round : (Bytes → Option Bytes) → Bytes → Bytes → Option Bytes → Step
unfolding run_command
round popen old_response buf (some []) = ended
round popen old_response buf none = run_command popen old_response buf
round popen old_response buf (some (c ∷ bytes)) =
    run_command popen old_response (received buf (some (c ∷ bytes)))

-- Behind a round: `later` is what the rounds behind it run.
after : Step → List Bytes → List Bytes
after ended later = []
after (answered command answer) later = command ∷ later
after (undefined commands) later = commands

-- `while (1)`: the commands that are run, for what each round finds in `response` and receives.
unfoldable pub serve : (Bytes → Option Bytes) → Bytes → List (Bytes × Option Bytes) → List Bytes
unfolding after round
serve popen buf [] = []
serve popen buf ((old_response, message) ∷ rounds) =
    let later = serve popen (received buf message) rounds in
    after (round popen old_response buf message) later
