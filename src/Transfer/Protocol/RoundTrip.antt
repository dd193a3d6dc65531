-- ===== src/Transfer/Protocol/RoundTrip.antt =====
-- Texts that one side prints and the other side scans.
use network_protocol_cli_too.Common.{
  ℕ, ◌+◌, ◌-◌, ◌≤◌, ◌<◌, ◌≡◌, refl, sym, ap, ◌∙◌, [], ◌∷◌, ◌++◌, some, arith, length, length-append,
  take, take_all, length-take, true, false, append-nil, size_max,
}
use network_protocol_cli_too.CString.{
  Bytes, codes, c_str, starts_with, HasNoNul-append, c_str-HasNoNul, is_space, is_digit,
  IsWordChar-space,
}
use network_protocol_cli_too.CString.Decimal.{
  print_zu, scan_zu, scan_zu-print_zu, length-print_zu, scan_zu_space, print_zu-HasNoNul,
}
use network_protocol_cli_too.CString.Scan.{
  scan_word, scan_word_append, scan_word_space, IsWord, EndsWord, IsWord-HasNoNul,
}
use network_protocol_cli_too.Transfer.Protocol.{
  Params, check_request, get_request, ok_response, ack_packet, scan_request, scan_ok, scan_ack,
  set_command, set_filename, set_offset, set_chunk_size, or_keep,
}

-- A name that the servers' `%255s` reads whole.
abbrev pub IsFilename : Bytes → Type 0
IsFilename name = (0 < length name) × (length name ≤ 255) × IsWord name

scan_word_next :
    (n : ℕ) (w rest : Bytes)
    → 0 < length w
    → length w ≤ n
    → IsWord w
    → EndsWord rest
    → scan_word n (32 ∷ (w ++ rest)) ≡ some (w, rest)
unfolding is_space
scan_word_next n [] rest p l v e = absurd (omega arith)
scan_word_next n (c ∷ w) rest p l v e =
    scan_word_space n 32 ((c ∷ w) ++ rest) refl ∙ scan_word_append n c w rest v e l

scan_zu_next :
    (n : ℕ) (rest : Bytes)
    → n ≤ size_max
    → EndsWord rest
    → scan_zu (32 ∷ (print_zu n ++ rest)) ≡ some (n, rest)
unfolding is_space is_digit
scan_zu_next n [] h e = scan_zu_space (print_zu n ++ []) ∙ scan_zu-print_zu n [] h tt
scan_zu_next n (c ∷ rest) h e =
    scan_zu_space (print_zu n ++ (c ∷ rest)) ∙ scan_zu-print_zu n (c ∷ rest) h (ground arith)

scan_word_name :
    (name rest : Bytes)
    → IsFilename name
    → EndsWord rest
    → scan_word 255 (32 ∷ (name ++ rest)) ≡ some (name, rest)
scan_word_name name rest v e = scan_word_next 255 name rest v.0 v.1 v.2 e

scan_zu_last : (n : ℕ) → n ≤ size_max → scan_zu (32 ∷ print_zu n) ≡ some (n, [])
scan_zu_last n h =
    ap (λ t. scan_zu (32 ∷ t)) (sym (append-nil (print_zu n))) ∙ scan_zu_next n [] h tt

pub get_text : Bytes → ℕ → ℕ → Bytes
get_text name offset size =
    codes "GET" ++ (32 ∷ (name ++ (32 ∷ (print_zu offset ++ (32 ∷ print_zu size)))))

pub get_text_nonempty : (name : Bytes) (offset size : ℕ) → 0 < length (get_text name offset size)
unfolding get_text
get_text_nonempty name offset size = omega arith

pub length-get_text :
    (name : Bytes) (offset size : ℕ) → length (get_text name offset size) ≤ 46 + length name
unfolding get_text
length-get_text name offset size = omega (
  arith,
  length-append name (32 ∷ (print_zu offset ++ (32 ∷ print_zu size))),
  length-append (print_zu offset) (32 ∷ print_zu size),
  length-print_zu offset,
  length-print_zu size,
)

pub get_request-fits :
    (n : ℕ) (name : Bytes) (offset size : ℕ)
    → 301 < n
    → length name ≤ 255
    → get_request n name offset size ≡ get_text name offset size
unfolding get_request get_text
get_request-fits n name offset size h l =
    take_all (n - 1) (get_text name offset size) (omega (arith, length-get_text name offset size))

get_IsWord : IsWord (codes "GET")
get_IsWord = (
  IsWordChar-space 71 (omega arith),
  (IsWordChar-space 69 (omega arith), (IsWordChar-space 84 (omega arith), tt)),
)

check_IsWord : IsWord (codes "CHECK")
check_IsWord = (
  IsWordChar-space 67 (omega arith),
  (
    IsWordChar-space 72 (omega arith),
    (
      IsWordChar-space 69 (omega arith),
      (IsWordChar-space 67 (omega arith), (IsWordChar-space 75 (omega arith), tt)),
    ),
  ),
)

get_command :
    (rest : Bytes) → EndsWord rest → scan_word 9 (codes "GET" ++ rest) ≡ some (codes "GET", rest)
unfolding is_space
get_command rest e = scan_word_append 9 71 (codes "ET") rest get_IsWord e (omega arith)

-- The server scans all four fields of the GET request that a client prints, whatever its fields
-- held before, if the name is one word of at most 255 bytes, the numbers fit `size_t` and the
-- buffer holds 302 bytes.
pub scan_request-get_request :
    (p : Params) (n : ℕ) (name : Bytes) (offset size : ℕ)
    → 301 < n
    → IsFilename name
    → offset ≤ size_max
    → size ≤ size_max
    → scan_request p (get_request n name offset size)
      ≡ (4, record { command = codes "GET"; filename = name; offset = offset; chunk_size = size })
unfolding scan_request get_text is_space
scan_request-get_request p n name offset size h v o s =
    ap (scan_request p) (get_request-fits n name offset size h v.1)
    ∙ ap (set_command p) (get_command (32 ∷ (name ++ behind_name)) refl)
    ∙ ap (set_filename p1) (scan_word_name name behind_name v refl)
    ∙ ap (set_offset p2) (scan_zu_next offset (32 ∷ print_zu size) o refl)
    ∙ ap (set_chunk_size p3) (scan_zu_last size s)
  where
    behind_name : Bytes
    behind_name = 32 ∷ (print_zu offset ++ (32 ∷ print_zu size))

    p1 : Params
    p1 = record p { command = codes "GET" }

    p2 : Params
    p2 = record p1 { filename = name }

    p3 : Params
    p3 = record p2 { offset = offset }

pub check_text : Bytes → Bytes
check_text name = codes "CHECK" ++ (32 ∷ name)

-- A CHECK request for a name of one word of at most 255 bytes, in a buffer of 263 bytes or more,
-- is scanned with two conversions, so `offset` and `chunk_size` keep what they held.
pub scan_request-check_request :
    (p : Params) (n : ℕ) (name : Bytes)
    → 262 < n
    → IsFilename name
    → scan_request p (check_request n name)
      ≡ (2, record p { command = codes "CHECK"; filename = name })
unfolding scan_request check_request check_text is_space
scan_request-check_request p n name h v =
    ap (scan_request p) (take_all (n - 1) (check_text name) (omega (arith, v.1)))
    ∙ ap (set_command p)
        (scan_word_append 9 67 (codes "HECK") (32 ∷ name) check_IsWord refl (omega arith))
    ∙ ap (set_filename p1)
        (ap (λ t. scan_word 255 (32 ∷ t)) (sym (append-nil name)) ∙ scan_word_name name [] v tt)
  where
    p1 : Params
    p1 = record p { command = codes "CHECK" }

-- The client reads the size that an OK response prints, if it fits `size_t` and the buffer holds
-- 24 bytes.
pub scan_ok-ok_response :
    (old n file_size : ℕ)
    → 23 < n
    → file_size ≤ size_max
    → scan_ok old (ok_response n file_size) ≡ file_size
unfolding scan_ok ok_response
scan_ok-ok_response old n file_size h s =
    ap (scan_ok old) (
      take_all (n - 1) (codes "OK " ++ print_zu file_size)
        (omega (arith, length-print_zu file_size)))
    ∙ ap (or_keep old) (scan_zu_last file_size s)

-- The server reads the sequence number that an ACK prints, if it fits `size_t` and the buffer
-- holds 25 bytes.
pub scan_ack-ack_packet :
    (old n seq_num : ℕ)
    → 24 < n
    → seq_num ≤ size_max
    → scan_ack old (ack_packet n seq_num) ≡ seq_num
unfolding scan_ack ack_packet
scan_ack-ack_packet old n seq_num h s =
    ap (scan_ack old)
      (take_all (n - 1) (codes "ACK " ++ print_zu seq_num) (omega (arith, length-print_zu seq_num)))
    ∙ ap (λ t. or_keep old (scan_zu t))
        (c_str-HasNoNul (print_zu seq_num) (print_zu-HasNoNul seq_num))
    ∙ ap (or_keep old)
        (ap scan_zu (sym (append-nil (print_zu seq_num))) ∙ scan_zu-print_zu seq_num [] s tt)

-- Requests hold no NUL, so that the string in the server's buffer is the whole request.
pub c_str-get_request :
    (n : ℕ) (name : Bytes) (offset size : ℕ)
    → 301 < n
    → IsFilename name
    → c_str (get_request n name offset size) ≡ get_request n name offset size
unfolding get_text
c_str-get_request n name offset size h v = rw (get_request-fits n name offset size h v.1) (
    c_str-HasNoNul (get_text name offset size) (
      HasNoNul-append (codes "GET ") _ (omega arith) (
        HasNoNul-append name _ (IsWord-HasNoNul name v.2) (
          omega arith,
          HasNoNul-append (print_zu offset) _ (print_zu-HasNoNul offset)
              (omega arith, print_zu-HasNoNul size),
        ))))

pub length-ack_packet : (n seq_num : ℕ) → length (ack_packet n seq_num) ≤ 24
unfolding ack_packet
length-ack_packet n seq_num =
    omega (arith, length-take (n - 1) (codes "ACK " ++ print_zu seq_num), length-print_zu seq_num)

-- An ACK is told by its first bytes.
pub ack_packet-starts :
    (n seq_num : ℕ) → 24 < n → starts_with (codes "ACK") (c_str (ack_packet n seq_num)) ≡ true
unfolding ack_packet c_str starts_with
ack_packet-starts n seq_num h =
    ap (λ t. starts_with (codes "ACK") (c_str t))
      (take_all (n - 1) (codes "ACK " ++ print_zu seq_num) (omega (arith, length-print_zu seq_num)))

pub get_request-starts :
    (n : ℕ) (name : Bytes) (offset size : ℕ)
    → 301 < n
    → length name ≤ 255
    → starts_with (codes "ACK") (get_request n name offset size) ≡ false
unfolding get_text starts_with
get_request-starts n name offset size h l =
    ap (starts_with (codes "ACK")) (get_request-fits n name offset size h l)

pub c_str-ok_response :
    (n file_size : ℕ) → 23 < n → c_str (ok_response n file_size) ≡ ok_response n file_size
unfolding ok_response
c_str-ok_response n file_size h =
    let text : Bytes = codes "OK " ++ print_zu file_size in
    let fits : take (n - 1) text ≡ text =
      take_all (n - 1) text (omega (arith, length-print_zu file_size)) in
    ap c_str fits
    ∙ c_str-HasNoNul text
        (HasNoNul-append (codes "OK ") _ (omega arith) (print_zu-HasNoNul file_size))
    ∙ sym fits
