-- ===== src/Tftp/Server/Chunks.antt =====
-- What a thread sends of its chunk.
pub mod OneRound
use network_protocol_cli_too.Common.{
  ℕ, zero, suc, ◌+◌, ◌-◌, ◌≤◌, ◌<◌, ◌≡◌, refl, sym, ap, ◌∙◌, ◌≢◌, ◌⊎◌, inl, inr, false, List, [],
  ◌∷◌, ◌++◌, Option, none, some, arith, ltb, ◌==◌, if◌then◌else◌, length, take, drop, add_size,
  sub_size, append_assoc, take-add, length-take, length-drop, Option-cases, subst,
}
use network_protocol_cli_too.CString.{Bytes}
use network_protocol_cli_too.Tftp.Packet.{
  data_packet, length-data_packet, packet_payload, packet_payload-data_packet,
}
use network_protocol_cli_too.Tftp.AckQueue.{AckQueue}
use network_protocol_cli_too.Tftp.Server.{
  Served, Round, Ended, done, send_failed, sent_too_much, waiting, stop, sent_first, took_first,
  after_ack, after_send, send_payload, send_chunk, payload_size_of, wait_ack,
}
use network_protocol_cli_too.Tftp.Server.Chunks.OneRound.{
  payload_size_of_bounds, after_ack_whole, send_chunk_round, send_chunk_empty, send_chunk_stuck,
  take-payload,
}

-- The payloads of the packets, in order
abbrev pub payloads : List Bytes → Bytes
payloads [] = []
payloads (p ∷ ps) = packet_payload p ++ payloads ps

-- Packets that are numbered from `seq_num` on, each with 1 to 1016 bytes of payload
abbrev pub Numbered : ℕ → List Bytes → Type 0
Numbered seq_num [] = Unit {0}
Numbered seq_num (p ∷ ps) =
    ((payload : Bytes) × (p ≡ data_packet seq_num payload)
      × (0 < length payload)
      × (length payload ≤ 1016))
    × Numbered (add_size seq_num 1) ps

-- `sendto` on a UDP socket sends a datagram whole, or fails.
abbrev pub SendsWhole : List Round → Type 0
SendsWhole [] = Unit {0}
SendsWhole (r ∷ rounds) =
    ((n : ℕ) → (r.sendto n ≡ none) ⊎ (r.sendto n ≡ some n)) × SendsWhole rounds

-- Every packet is sent, and its ACK comes in one of the looks.
abbrev pub Delivers : ℕ → ℕ → List Round → Type 0
Delivers client_addr seq_num [] = Unit {0}
Delivers client_addr seq_num (r ∷ rounds) =
    ((n : ℕ) → r.sendto n ≡ some n)
    × ((q : AckQueue) × (wait_ack seq_num client_addr r.looks ≡ some q))
    × Delivers client_addr (add_size seq_num 1) rounds

-- The packets are the first ones for the bytes `want`, and all of them if the thread is done.
abbrev pub IsPrefix : ℕ → Bytes → Served → Type 0
IsPrefix seq_num want s =
    (tail : Bytes) × (payloads s.sent ++ tail ≡ want)
    × (s.ended ≡ done → tail ≡ [])
    × Numbered seq_num s.sent

stop-IsPrefix : (seq_num : ℕ) (want : Bytes) (e : Ended) → e ≢ done → IsPrefix seq_num want (stop e)
unfolding stop
stop-IsPrefix seq_num want e h = (want, refl, λ d. absurd (h d), tt)

took_first-IsPrefix :
    (seq_num : ℕ) (want : Bytes) (q : AckQueue) (s : Served)
    → IsPrefix seq_num want s
    → IsPrefix seq_num want (took_first q s)
unfolding took_first
took_first-IsPrefix seq_num want q s p = p

sent_first-IsPrefix :
    (seq_num : ℕ) (payload want : Bytes) (s : Served)
    → 0 < length payload
    → length payload ≤ 1016
    → IsPrefix (add_size seq_num 1) want s
    → IsPrefix seq_num (payload ++ want) (sent_first (data_packet seq_num payload) s)
unfolding sent_first
sent_first-IsPrefix seq_num payload want s h l (tail, e, d, n) = (
  tail,
  ap (λ b. (b ++ payloads s.sent) ++ tail) (packet_payload-data_packet seq_num payload)
      ∙ append_assoc payload (payloads s.sent) tail
      ∙ ap (◌++◌ payload) e,
  d,
  ((payload, refl, h, l), n),
)

after_send-IsPrefix :
    (seq_num client_addr remaining n : ℕ) (looks : List AckQueue) (later : ℕ → Served)
    (want : Bytes) (result : Option ℕ)
    → n ≤ 1016
    → n ≤ remaining
    → (result ≡ none) ⊎ (result ≡ some (8 + n))
    → IsPrefix (add_size seq_num 1) want (later (remaining - n))
    → IsPrefix
        (add_size seq_num 1)
        want
        (after_send seq_num client_addr remaining looks later result)
unfolding after_send
after_send-IsPrefix seq_num client_addr remaining n looks later want result h l (inl e) p =
    subst
      (λ o.
        IsPrefix (add_size seq_num 1) want (after_send seq_num client_addr remaining looks later o))
      (sym e) (stop-IsPrefix (add_size seq_num 1) want send_failed (λ d. cc))
after_send-IsPrefix seq_num client_addr remaining n looks later want result h l (inr e) p =
    subst
      (λ o.
        IsPrefix (add_size seq_num 1) want (after_send seq_num client_addr remaining looks later o))
      (sym e)
      (elim (Option-cases (wait_ack seq_num client_addr looks)) [
        | inl w ↦
            subst (λ o. IsPrefix (add_size seq_num 1) want (after_ack remaining (8 + n) later o))
              (sym w)
              (unfold after_ack in stop-IsPrefix (add_size seq_num 1) want waiting (λ d. cc))
        | inr (q, w) ↦
            subst (IsPrefix (add_size seq_num 1) want)
              (sym (
                ap (after_ack remaining (8 + n) later) w ∙ after_ack_whole remaining n later q h l))
              (took_first-IsPrefix (add_size seq_num 1) want q (later (remaining - n)) p)
      ])

stop_done-IsPrefix :
    (seq_num remaining : ℕ) (rest : Bytes)
    → remaining ≡ 0
    → IsPrefix seq_num (take remaining rest) (stop done)
unfolding stop
stop_done-IsPrefix seq_num remaining rest e =
    (take remaining rest, refl, λ d. ap (λ k. take k rest) e, tt)

-- Whatever the network does, if `sendto` sends whole datagrams or fails: the packets that a thread
-- sends are numbered from the first on, carry 1 to 1016 bytes each, and their payloads are the first
-- bytes of its chunk; they are the whole chunk if the thread comes to its end.
pub send_chunk-IsPrefix :
    (client_addr : ℕ) (rounds : List Round) (seq_num remaining : ℕ) (rest : Bytes)
    → SendsWhole rounds
    → remaining ≤ length rest
    → IsPrefix seq_num (take remaining rest) (send_chunk client_addr rounds seq_num remaining rest)
send_chunk-IsPrefix client_addr rounds seq_num zero rest w h =
    subst (IsPrefix seq_num (take 0 rest))
      (sym (send_chunk_empty client_addr rounds seq_num 0 rest refl))
      (stop_done-IsPrefix seq_num 0 rest refl)
send_chunk-IsPrefix client_addr [] seq_num (suc remaining) rest w h =
    subst (IsPrefix seq_num (take (suc remaining) rest))
      (sym (send_chunk_stuck client_addr seq_num (suc remaining) rest (omega arith)))
      (stop-IsPrefix seq_num (take (suc remaining) rest) waiting (λ d. cc))
send_chunk-IsPrefix client_addr (r ∷ rounds) seq_num (suc remaining) rest w h =
    subst
      (λ b. IsPrefix seq_num b (send_chunk client_addr (r ∷ rounds) seq_num (suc remaining) rest))
      (sym (take-payload n (suc remaining) rest bounds.2))
      (subst (IsPrefix seq_num (take n rest ++ take (suc remaining - n) (drop n rest)))
        (sym (send_chunk_round client_addr r rounds seq_num (suc remaining) rest positive h))
        (sent_first-IsPrefix seq_num (take n rest) _ _ (omega (arith, size, bounds))
          (omega (arith, size, bounds))
          (after_send-IsPrefix seq_num client_addr (suc remaining) n r.looks _ _ (r.sendto (8 + n))
            bounds.1 bounds.2 (w.0 (8 + n))
            (send_chunk-IsPrefix client_addr rounds (add_size seq_num 1) (suc remaining - n)
              (drop n rest) w.1 (omega (arith, length-drop n rest))))))
  where
    n : ℕ
    n = payload_size_of (suc remaining)

    positive : 0 < suc remaining
    positive = omega arith

    bounds : (0 < n) × (n ≤ 1016) × (n ≤ suc remaining)
    bounds = payload_size_of_bounds (suc remaining) positive

    size : length (take n rest) ≡ n
    size = omega (arith, length-take n rest, bounds)
