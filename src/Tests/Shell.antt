-- ===== src/Tests/Shell.antt =====
-- A command and its answer in the remote shell.
use network_protocol_cli_too.Common.{
  ◌≡◌, refl, false, [], ◌∷◌, ◌++◌, Option, some, arith, take, drop, replicate,
}
use network_protocol_cli_too.CString.{Bytes, codes, bytes_eq}
use network_protocol_cli_too.Shell.Client.{printed, round}
use network_protocol_cli_too.Shell.Client.Cut.{answer, round-cut}

abbrev popen : Bytes → Option Bytes
popen command = some []

not_exit : bytes_eq (codes "cd") (codes "exit") ≡ false
unfolding bytes_eq
not_exit = refl

abbrev garbage : Bytes
garbage = codes "x" ++ (0 ∷ [])

abbrev output : Bytes
output = codes "hello\n"

round-cut_example :
    round
      (replicate 4 0)
      []
      (λ n. some (take n (answer output)))
      (λ n. some (take n (drop 4 (answer output))))
      (some (codes "cd"))
    ≡ printed (codes "cd" ++ (0 ∷ [])) (codes "o\n")
round-cut_example =
    round-cut (replicate 4 0) [] (codes "cd") output (λ n. some (take n (answer output)))
      (λ n. some (take n (drop 4 (answer output)))) not_exit refl (omega arith) (omega arith)
      (omega arith) (λ n. refl) (λ n. refl)
