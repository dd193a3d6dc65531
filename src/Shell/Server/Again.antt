-- ===== src/Shell/Server/Again.antt =====
-- What the server does with a `recv` that fails.
use network_protocol_cli_too.Common.{
  ◌≡◌, refl, ap, ◌∙◌, true, List, [], ◌∷◌, ◌++◌, map, Option, none, arith, ltb, length,
  length-append,
}
use network_protocol_cli_too.CString.{Bytes, c_str, HasNoNul}
use network_protocol_cli_too.Shell.Server.{is_terminated}

pub c_str-terminated : (s rest : Bytes) → HasNoNul s → c_str (s ++ (0 ∷ rest)) ≡ s
unfolding c_str
c_str-terminated [] rest h = refl
c_str-terminated (c ∷ s) rest h = ground (arith, c_str-terminated s rest h.1)

pub is_terminated-append : (s rest : Bytes) → HasNoNul s → is_terminated (s ++ (0 ∷ rest)) ≡ true
is_terminated-append s rest h =
    ap (λ t. ltb (length t) (length (s ++ (0 ∷ rest)))) (c_str-terminated s rest h)
    ∙ ground (arith, length-append s (0 ∷ rest))

-- What each round finds in `response` has an end.
abbrev pub AllTerminated : List Bytes → Type 0
AllTerminated [] = Unit {0}
AllTerminated (r ∷ responses) = (is_terminated r ≡ true) × AllTerminated responses

-- Rounds whose `recv` fails
abbrev pub failures : List Bytes → List (Bytes × Option Bytes)
failures responses = map (λ r. (r, none)) responses
