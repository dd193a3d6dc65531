-- ===== src/Shell/Client/Cut.antt =====
-- What the client makes of an answer.
use network_protocol_cli_too.Common.{
  ℕ, zero, suc, ◌+◌, ◌-◌, ◌≤◌, ◌<◌, ◌≡◌, refl, ap, ◌∙◌, false, [], ◌∷◌, ◌++◌, Option, some, arith,
  ltb, length, take, drop, replicate, into, length-append, length-replicate, take_all, drop_all,
  append_assoc,
}
use network_protocol_cli_too.CString.{Bytes, codes, bytes_eq, HasNoNul}
use network_protocol_cli_too.CString.Words.{le_value}
use network_protocol_cli_too.Shell.Server.{response_size}
use network_protocol_cli_too.Shell.Server.Again.{c_str-terminated, is_terminated-append}
use network_protocol_cli_too.Shell.Client.{brought, printed, count_of, print_response, round}

-- Text of one byte to a character, without a NUL
abbrev pub IsText : Bytes → Type 0
IsText [] = Unit {0}
IsText (c ∷ s) = (0 < c) × (c < 256) × IsText s

IsText-HasNoNul : (s : Bytes) → IsText s → HasNoNul s
IsText-HasNoNul [] t = tt
IsText-HasNoNul (c ∷ s) t = (omega (arith, t.0), IsText-HasNoNul s t.2)

-- The array that the server sends, with an output in it
abbrev pub answer : Bytes → Bytes
answer output = output ++ replicate (response_size - length output) 0

-- Four characters read as a length are more than any answer.
count_large :
    (a b c d : ℕ)
    → 0 < d
    → a < 256
    → b < 256
    → c < 256
    → d < 256
    → response_size < count_of (le_value (a ∷ b ∷ c ∷ d ∷ []))
unfolding le_value
count_large a b c d p ha hb hc hd = ground arith

print_response_text :
    (sent old_response text rest : Bytes)
    → IsText text
    → length text + suc (length rest) ≤ response_size
    → print_response sent old_response (text ++ (0 ∷ rest)) ≡ printed sent text
unfolding print_response
print_response_text sent old_response text rest t h =
    rw (fits, joined, is_terminated-append text behind (IsText-HasNoNul text t))
      (ap (printed sent) (c_str-terminated text behind (IsText-HasNoNul text t)))
  where
    fits : ltb response_size (length (text ++ (0 ∷ rest))) ≡ false
    fits = ground (arith, length-append text (0 ∷ rest))

    behind : Bytes
    behind = rest ++ drop (length (text ++ (0 ∷ rest))) old_response

    joined : into old_response (text ++ (0 ∷ rest)) ≡ text ++ (0 ∷ behind)
    joined = append_assoc text (0 ∷ rest) (drop (length (text ++ (0 ∷ rest))) old_response)

-- Both calls bring all that has come and is asked for: the whole answer is there.
abbrev pub Brings : Bytes → (ℕ → Option Bytes) → Type 0
Brings stream recv = (n : ℕ) → recv n ≡ some (take n stream)

round_line :
    (old_len old_response cmd : Bytes) (first second : ℕ → Option Bytes)
    → bytes_eq cmd (codes "exit") ≡ false
    → round old_len old_response first second (some cmd)
      ≡ print_response
          (cmd ++ (0 ∷ []))
          old_response
          (brought (second (count_of (le_value (into old_len (brought (first 4)))))))
unfolding round
round_line old_len old_response cmd first second x = rw x refl

-- What is behind the length, and ends with a NUL at least.
zeros_behind :
    (n m : ℕ) (output : Bytes) → n ≡ suc m → output ++ replicate n 0 ≡ output ++ (0 ∷ replicate m 0)
zeros_behind n m output e = ap (λ k. output ++ replicate k 0) e

-- The client takes the first four bytes of an answer for its length, which they are not. An output
-- of four characters or more, which the server's array holds with its NUL, is printed without its
-- first four characters, if the whole answer is there when it is read.
pub round-cut :
    (old_len old_response cmd output : Bytes) (first second : ℕ → Option Bytes)
    → bytes_eq cmd (codes "exit") ≡ false
    → length old_len ≡ 4
    → IsText output
    → 4 ≤ length output
    → length output < response_size
    → Brings (answer output) first
    → Brings (drop 4 (answer output)) second
    → round old_len old_response first second (some cmd) ≡ printed (cmd ++ (0 ∷ [])) (drop 4 output)
round-cut old_len old_response cmd [] first second x o t l h f s = absurd (omega arith)
round-cut old_len old_response cmd (a ∷ []) first second x o t l h f s = absurd (omega arith)
round-cut old_len old_response cmd (a ∷ b ∷ []) first second x o t l h f s = absurd (omega arith)
round-cut old_len old_response cmd (a ∷ b ∷ c ∷ []) first second x o t l h f s =
    absurd (omega arith)
round-cut old_len old_response cmd (a ∷ b ∷ c ∷ d ∷ output) first second x o t l h f s =
    round_line old_len old_response cmd first second x
    ∙ ap
        (λ r.
          print_response sent old_response
            (brought (second (count_of (le_value (into old_len (brought r)))))))
        (f 4)
    ∙ ap
        (λ r.
          print_response sent old_response
            (brought (second (count_of (le_value (a ∷ b ∷ c ∷ d ∷ r))))))
        (drop_all 4 old_len (omega arith))
    ∙ ap (λ r. print_response sent old_response (brought r)) (s len)
    ∙ ap (print_response sent old_response) (
        take_all len stream (
          omega
            (arith, large, length-append output (replicate zeros 0), length-replicate zeros zero))
        ∙ zeros_behind zeros (zeros - 1) output (omega arith))
    ∙ print_response_text sent old_response output (replicate (zeros - 1) 0) rest_text
        (omega (arith, length-replicate (zeros - 1) zero))
  where
    sent : Bytes
    sent = cmd ++ (0 ∷ [])

    zeros : ℕ
    zeros = response_size - length (a ∷ b ∷ c ∷ d ∷ output)

    stream : Bytes
    stream = output ++ replicate zeros 0

    len : ℕ
    len = count_of (le_value (a ∷ b ∷ c ∷ d ∷ []))

    large : response_size < len
    large =
        count_large a b c d (omega (arith, t)) (omega (arith, t)) (omega (arith, t))
          (omega (arith, t)) (omega (arith, t))

    rest_text : IsText output
    rest_text = let (p, q, (p1, q1, (p2, q2, (p3, q3, r)))) = t in r
