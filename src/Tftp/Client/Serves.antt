-- ===== src/Tftp/Client/Serves.antt =====
-- Events that bring a thread all of its part of the file.
use network_protocol_cli_too.Common.{
  ℕ, zero, suc, ◌+◌, ◌-◌, ◌≤◌, ◌<◌, ◌≡◌, refl, sym, ap, subst, ◌∙◌, true, false, List, [], ◌∷◌,
  ◌++◌, arith, length, replicate, slice, take, drop, get_or, take_append, drop_append, slice-add,
  length-slice, add_size, size_max,
}
use network_protocol_cli_too.CString.{Bytes}
use network_protocol_cli_too.Tftp.Packet.{
  buffer_size, max_retries, data_packet, packet_payload, length-data_packet,
  packet_payload-data_packet,
}
use network_protocol_cli_too.Tftp.Server.Chunks.{payloads, Numbered}
use network_protocol_cli_too.Tftp.Client.{
  Event, timeout, datagram, exited, Loop, Thread, running, ended, loop_head, store, round,
}
use network_protocol_cli_too.Tftp.Client.Receive.{moved, retry_again}
use network_protocol_cli_too.Tftp.Client.Threads.Part.{IsNext}
use network_protocol_cli_too.Tftp.Client.Paced.{
  delayed, Patient, Patient-head, waited, loop_head_more, loop_head_done, add_size_small,
  length-payloads,
}
use network_protocol_cli_too.Tftp.Client.Paced.Packets.{round-data_packet}

-- What becomes of a running thread does not hang on what the buffer holds.
store-thread : (l : Loop) (old new packet : Bytes) → (store l old packet).0 ≡ (store l new packet).0
unfolding store
store-thread l old new packet = ground arith

pub round-thread :
    (l : Loop) (old new : Bytes) (event : Event)
    → (round l old event).thread ≡ (round l new event).thread
unfolding round
round-thread l old new timeout = refl
round-thread l old new (datagram bytes false) = refl
round-thread l old new (datagram bytes true) = store-thread l old new (take buffer_size bytes)

module _ (file : Bytes) where
  -- Each event brings a thread what the file holds at its position, and behind the last one it has
  -- exited with 0.
  unfoldable pub Serves : Thread → List Event → Type 0
  Serves t [] = t ≡ ended (exited 0)
  Serves (running l) (event ∷ events) =
      IsNext file (running l) event × Serves (round l [] event).thread events
  Serves (ended e) (event ∷ events) = Serves (ended e) events

  Serves-timeout :
      (l : Loop) (events : List Event)
      → l.retry_count < max_retries
      → Serves (running (waited l 1)) events
      → Serves (running l) (timeout ∷ events)
  unfolding Serves round
  Serves-timeout l events h s = (tt, subst (λ t. Serves t events) (sym (retry_again l h)) s)

  Serves-pause :
      (n : ℕ) (l : Loop) (events : List Event)
      → l.retry_count + n ≤ max_retries
      → Serves (running (waited l n)) events
      → Serves (running l) (replicate n timeout ++ events)
  Serves-pause zero l events h s =
      subst (λ k. Serves (running (record l { retry_count = k })) events) (omega arith) s
  Serves-pause (suc n) l events h s =
      Serves-timeout l (replicate n timeout ++ events) (omega arith) (
        Serves-pause n (waited l 1) events (omega arith)
          (subst (λ k. Serves (running (record l { retry_count = k })) events) (omega arith) s))

  Serves-data_packet :
      (l : Loop) (seq_num : ℕ) (payload : Bytes) (events : List Event)
      → seq_num ≤ size_max
      → length payload ≤ 1016
      → length payload ≤ l.remaining
      → l.position + l.remaining ≡ l.limit
      → payload ≡ slice file l.position (length payload)
      → Serves (loop_head (moved l (length payload))) events
      → Serves (running l) (datagram (data_packet seq_num payload) true ∷ events)
  unfolding Serves
  Serves-data_packet l seq_num payload events s short fits aligned right later = (
    (
      omega (arith, len),
      omega (arith, len),
      omega (arith, len),
      packet_payload-data_packet seq_num payload
          ∙ right
          ∙ ap (slice file l.position) (omega (arith, len)),
    ),
    subst (λ r. Serves r.thread events)
        (sym (round-data_packet l [] seq_num payload s short fits aligned)) later,
  )
    where
      len : length (data_packet seq_num payload) ≡ 8 + length payload
      len = length-data_packet seq_num payload

  Serves-done : (l : Loop) → l.remaining ≡ 0 → Serves (loop_head l) []
  unfolding Serves
  Serves-done l h = loop_head_done l h

  Serves-round :
      (l : Loop) (n seq_num : ℕ) (payload : Bytes) (events : List Event)
      → l.retry_count + n ≤ max_retries
      → seq_num ≤ size_max
      → 0 < length payload
      → length payload ≤ 1016
      → length payload ≤ l.remaining
      → l.position + l.remaining ≡ l.limit
      → payload ≡ slice file l.position (length payload)
      → Serves (loop_head (moved l (length payload))) events
      → Serves
          (loop_head l)
          (replicate n timeout ++ (datagram (data_packet seq_num payload) true ∷ events))
  Serves-round l n seq_num payload events h s p short fits aligned right later =
      subst
        (λ t.
          Serves t (replicate n timeout ++ (datagram (data_packet seq_num payload) true ∷ events)))
        (sym (loop_head_more l (omega arith)))
        (Serves-pause n l _ h
          (Serves-data_packet (waited l n) seq_num payload events s short fits aligned right later))

-- A slice that is two pieces.
slice-pieces :
    (file xs ys : Bytes) (i n : ℕ)
    → xs ++ ys ≡ slice file i n
    → n ≡ length xs + length ys
    → i + n ≤ length file
    → (xs ≡ slice file i (length xs)) × (ys ≡ slice file (i + length xs) (n - length xs))
slice-pieces file xs ys i n e size inside = (
  sym (take_append xs ys) ∙ ap (take (length xs)) cut ∙ take_head,
  sym (drop_append xs ys)
      ∙ ap (drop (length xs)) cut
      ∙ drop_head
      ∙ ap (slice file (i + length xs)) (omega arith),
)
  where
    len : length (slice file i (length xs)) ≡ length xs
    len = length-slice file i (length xs) (omega arith)

    cut : xs ++ ys ≡ slice file i (length xs) ++ slice file (i + length xs) (length ys)
    cut = e ∙ ap (slice file i) size ∙ slice-add file i (length xs) (length ys)

    take_head :
        take (length xs) (slice file i (length xs) ++ slice file (i + length xs) (length ys))
        ≡ slice file i (length xs)
    take_head =
        ap (λ k. take k (slice file i (length xs) ++ slice file (i + length xs) (length ys)))
          (sym len)
        ∙ take_append (slice file i (length xs)) (slice file (i + length xs) (length ys))

    drop_head :
        drop (length xs) (slice file i (length xs) ++ slice file (i + length xs) (length ys))
        ≡ slice file (i + length xs) (length ys)
    drop_head =
        ap (λ k. drop k (slice file i (length xs) ++ slice file (i + length xs) (length ys)))
          (sym len)
        ∙ drop_append (slice file i (length xs)) (slice file (i + length xs) (length ys))

-- Numbered packets whose payloads are the thread's part of the file serve it, if it never waits for
-- more than five calls.
pub Serves-Numbered :
    (file : Bytes) (packets : List Bytes) (pauses : List ℕ) (seq_num : ℕ) (l : Loop)
    → Numbered seq_num packets
    → Patient pauses
    → seq_num ≤ size_max
    → l.retry_count ≡ 0
    → l.remaining ≡ length (payloads packets)
    → l.position + l.remaining ≡ l.limit
    → l.limit ≤ length file
    → payloads packets ≡ slice file l.position l.remaining
    → Serves file (loop_head l) (delayed packets pauses)
Serves-Numbered file [] pauses seq_num l n t s r left aligned inside right = Serves-done file l left
Serves-Numbered file (p ∷ ps) pauses seq_num l ((payload, e, pos, short), n) t s r left aligned
      inside right =
    let (now, then_on) = Patient-head pauses t in
    subst (λ q. Serves file (loop_head l) (delayed (q ∷ ps) pauses)) (sym e)
      (Serves-round file l (get_or pauses 0 0) seq_num payload (delayed ps (drop 1 pauses))
        (omega arith) s pos short (omega (arith, size)) aligned pieces.0
        (Serves-Numbered file ps (drop 1 pauses) (add_size seq_num 1) (moved l (length payload)) n
          then_on (add_size_small seq_num) refl (omega (arith, size)) (omega (arith, size)) inside
          pieces.1))
  where
    size : l.remaining ≡ length payload + length (payloads ps)
    size = left ∙ ap (λ q. length (payloads (q ∷ ps))) e ∙ length-payloads seq_num payload ps

    joined : payload ++ payloads ps ≡ slice file l.position l.remaining
    joined =
        ap (◌++◌ payload) refl
        ∙ sym (
            ap (λ b. b ++ payloads ps)
              (ap packet_payload e ∙ packet_payload-data_packet seq_num payload))
        ∙ right

    pieces :
        (payload ≡ slice file l.position (length payload))
        × (payloads ps ≡ slice file (l.position + length payload) (l.remaining - length payload))
    pieces =
        slice-pieces file payload (payloads ps) l.position l.remaining joined size (omega arith)
