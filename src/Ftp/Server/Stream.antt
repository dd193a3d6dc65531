-- ===== src/Ftp/Server/Stream.antt =====
-- What goes over the connection for a GET, whatever part each `write` takes.
use native.Mathlib.Decide.{dec_lt}
use network_protocol_cli_too.Common.{
  ℕ, zero, suc, ◌+◌, ◌-◌, ◌^◌, ◌≤◌, ◌<◌, ◌≡◌, refl, sym, ap, subst, ◌∙◌, false, List, [], ◌∷◌, ◌++◌,
  Option, some, arith, ltb, ◌==◌, length, take, drop, slice, append_assoc, take-add, length-take,
  length-drop, take_all, slice-add, length-append, length-slice,
}
use network_protocol_cli_too.CString.{Bytes}
use network_protocol_cli_too.Ftp.Server.{
  buffer_size, closed, Served, stop, sent_first, Block, Next, read_block, finish, block, read_block,
  block_size, load, advance, send_blocks,
}

-- A `write` that works takes part of what it is given.
abbrev pub Writes : List (ℕ → Option ℕ) → Type 0
Writes [] = Unit {0}
Writes (w ∷ writes) =
    ((c : ℕ) → 0 < c → (n : ℕ) × (w c ≡ some n) × (0 < n) × (n ≤ c)) × Writes writes

-- The bytes that are still to go out.
abbrev pub to_go : Next → Bytes
to_go (finish e) = []
to_go (block b) = slice b.buffer b.total b.to_send ++ take (b.remaining - length b.buffer) b.rest

-- The counters of a block fit its buffer, and the file holds what remains behind it.
abbrev pub IsValid : Next → Type 0
IsValid (finish e) = e ≡ closed
IsValid (block b) =
    (0 < b.to_send)
    × (b.total + b.to_send ≡ length b.buffer)
    × (length b.buffer ≤ buffer_size)
    × (length b.buffer ≤ b.remaining)
    × (b.remaining < 2 ^ 64)
    × (b.remaining - length b.buffer ≤ length b.rest)

-- A fresh block
abbrev fresh : ℕ → Bytes → Bytes → Block
fresh remaining behind payload = record {
  buffer = payload;
  to_send = length payload;
  total = 0;
  remaining = remaining;
  rest = behind;
}

read_block_lem :
    (remaining : ℕ) (behind payload : Bytes)
    → 0 < length payload
    → read_block remaining behind payload ≡ block (fresh remaining behind payload)
unfolding read_block
read_block_lem remaining behind [] h = absurd (omega arith)
read_block_lem remaining behind (b ∷ payload) h = refl

load_some :
    (remaining : ℕ) (rest : Bytes)
    → 0 < remaining
    → remaining ≤ length rest
    → load remaining rest
      ≡ block
          (fresh remaining (drop (block_size remaining) rest) (take (block_size remaining) rest))
unfolding load
load_some remaining rest p h = rw positive (
    read_block_lem remaining (drop (block_size remaining) rest) (take (block_size remaining) rest)
      (ground (arith, length-take (block_size remaining) rest)))
  where
    positive : (remaining == 0) ≡ false
    positive = ground arith

-- What the head of the loop makes of a chunk that the file holds.
abbrev pub Loads : ℕ → Bytes → Next → Type 0
Loads remaining rest next = IsValid next × (to_go next ≡ take remaining rest)

fresh-Loads :
    (n remaining : ℕ) (rest : Bytes)
    → 0 < n
    → n ≤ remaining
    → n ≤ buffer_size
    → remaining ≤ length rest
    → remaining < 2 ^ 64
    → Loads remaining rest (block (fresh remaining (drop n rest) (take n rest)))
fresh-Loads n remaining rest p l c h b =
    let size : length (take n rest) ≡ n = omega (arith, length-take n rest) in
    (
      (omega arith, omega arith, omega arith, omega arith, b, omega (arith, length-drop n rest)),
      ap (λ s. s ++ take (remaining - length (take n rest)) (drop n rest))
            (take_all (length (take n rest)) (take n rest) (omega arith))
          ∙ ap (λ k. take n rest ++ take (remaining - k) (drop n rest)) size
          ∙ sym (take-add n (remaining - n) rest)
          ∙ ap (λ k. take k rest) (omega arith),
    )

pub load-Loads :
    (remaining : ℕ) (rest : Bytes)
    → remaining ≤ length rest
    → remaining < 2 ^ 64
    → Loads remaining rest (load remaining rest)
load-Loads zero rest h b = unfold load in (refl, refl)
load-Loads (suc remaining) rest h b =
    subst (Loads (suc remaining) rest) (sym (load_some (suc remaining) rest (omega arith) h)) (
      fresh-Loads (block_size (suc remaining)) (suc remaining) rest (ground arith) (ground arith)
        (ground arith) h b)

-- A write of `n` bytes takes the first `n` of those that are to go.
abbrev Takes : Block → ℕ → Next → Type 0
Takes b n next = IsValid next × (slice b.buffer b.total n ++ to_go next ≡ to_go (block b))

advance_last :
    (b : Block) (n : ℕ)
    → IsValid (block b)
    → n ≡ b.to_send
    → advance b n ≡ load (b.remaining - length b.buffer) b.rest
unfolding advance
advance_last b n v e = ground arith

advance_more :
    (b : Block) (n : ℕ)
    → IsValid (block b)
    → n < b.to_send
    → advance b n ≡ block (record b { to_send = b.to_send - n; total = b.total + n })
unfolding advance
advance_more b n v h = ground arith

advance-Takes :
    (b : Block) (n : ℕ) → IsValid (block b) → 0 < n → n ≤ b.to_send → Takes b n (advance b n)
advance-Takes b n v p h = elim (dec_lt n b.to_send) [
  | yes less ↦ subst (Takes b n) (sym (advance_more b n v less)) (
    (omega arith, omega (arith, v.1), v.2, v.3, v.4, v.5),
    sym (append_assoc (slice b.buffer b.total n) _ _)
        ∙ ap (λ s. s ++ take (b.remaining - length b.buffer) b.rest)
            (sym (slice-add b.buffer b.total n (b.to_send - n))
              ∙ ap (slice b.buffer b.total) (omega arith)),
  )
  | no all ↦
      let whole : n ≡ b.to_send = omega arith in
      let (valid, rest) =
        load-Loads (b.remaining - length b.buffer) b.rest v.5 (omega (arith, v.4)) in
      subst (Takes b n) (sym (advance_last b n v whole)) (
        valid,
        ap (◌++◌ (slice b.buffer b.total n)) rest
            ∙ ap (λ k. slice b.buffer b.total k ++ take (b.remaining - length b.buffer) b.rest)
                whole,
      )
]

-- What has been sent is the first part of `want`, and all of it when the connection is closed.
abbrev pub IsPrefix : Bytes → Served → Type 0
IsPrefix want s = (tail : Bytes) × (s.sent ++ tail ≡ want) × (s.ended ≡ closed → tail ≡ [])

send_blocks_write :
    (w : ℕ → Option ℕ) (writes : List (ℕ → Option ℕ)) (b : Block) (n : ℕ)
    → IsValid (block b)
    → w b.to_send ≡ some n
    → 0 < n
    → send_blocks (w ∷ writes) (block b)
      ≡ sent_first (slice b.buffer b.total n) (send_blocks writes (advance b n))
unfolding send_blocks
send_blocks_write w writes b n v e p = rw (in_buffer, e, some_bytes)
  where
    in_buffer : ltb buffer_size b.total ≡ false
    in_buffer = ground (arith, v)

    some_bytes : (n == 0) ≡ false
    some_bytes = ground arith

-- From a block with its counters in order, if every `write` takes at least one byte: what goes
-- over the connection is the first part of what is to go, in order, and all of it once the
-- connection is closed.
pub send_blocks-IsPrefix :
    (writes : List (ℕ → Option ℕ)) (next : Next)
    → Writes writes
    → IsValid next
    → IsPrefix (to_go next) (send_blocks writes next)
unfolding sent_first
send_blocks-IsPrefix writes (finish e) w v = unfold send_blocks in ([], refl, λ c. refl)
send_blocks-IsPrefix [] (block b) w v = unfold send_blocks in (to_go (block b), refl, λ c. cc)
send_blocks-IsPrefix (f ∷ writes) (block b) (w, ws) v =
    let (n, e, p, l) = w b.to_send v.0 in
    let (valid, rest) = advance-Takes b n v p l in
    let (tail, joined, all) = send_blocks-IsPrefix writes (advance b n) ws valid in
    subst (IsPrefix (to_go (block b))) (sym (send_blocks_write f writes b n v e p)) (
      (
        tail,
        append_assoc (slice b.buffer b.total n) _ tail
            ∙ ap (◌++◌ (slice b.buffer b.total n)) joined
            ∙ rest,
        all,
      ))

-- A `write` for each byte is enough to close the connection.
pub send_blocks-closed :
    (writes : List (ℕ → Option ℕ)) (next : Next)
    → Writes writes
    → IsValid next
    → length (to_go next) ≤ length writes
    → (send_blocks writes next).ended ≡ closed
unfolding sent_first
send_blocks-closed writes (finish e) w v h = unfold send_blocks stop in v
send_blocks-closed [] (block b) w v h = absurd (
    omega (
      arith,
      length-append (slice b.buffer b.total b.to_send)
          (take (b.remaining - length b.buffer) b.rest),
      length-slice b.buffer b.total b.to_send (omega (arith, v.1)),
      v.0,
    ))
send_blocks-closed (f ∷ writes) (block b) (w, ws) v h =
    let (n, e, p, l) = w b.to_send v.0 in
    let (valid, rest) = advance-Takes b n v p l in
    ap (λ s. s.ended) (send_blocks_write f writes b n v e p)
    ∙ send_blocks-closed writes (advance b n) ws valid (
        omega (
          arith,
          ap length rest,
          length-append (slice b.buffer b.total n) (to_go (advance b n)),
          length-slice b.buffer b.total n (omega (arith, v.1)),
        ))
