-- ===== src/Tftp/Server/Get.antt =====
-- `handle_request` from the request to the last packet.
use network_protocol_cli_too.Common.{
  ℕ, zero, suc, ◌+◌, ◌-◌, ◌*◌, ◌^◌, ◌≤◌, ◌<◌, ◌≡◌, refl, sym, ap, subst, ◌∙◌, ◌⊎◌, inr, true, false,
  List, [], ◌∷◌, ◌++◌, Option, some, arith, length, drop, slice, add_size, append-nil, length-drop,
}
use network_protocol_cli_too.CString.{Bytes, codes, bytes_eq}
use network_protocol_cli_too.Tftp.AckQueue.{AckQueue}
use network_protocol_cli_too.Tftp.Server.{
  ClientRequest, Served, Round, done, process_exit, stop, sent_first, took_first, after_ack,
  after_send, send_chunk, payload_size_of, wait_ack, serve_get, handle_request, out_of_range,
}
use network_protocol_cli_too.Tftp.Server.Chunks.{
  payloads, Numbered, SendsWhole, Delivers, send_chunk-IsPrefix,
}
use network_protocol_cli_too.Tftp.Server.Chunks.OneRound.{
  send_chunk_round, send_chunk_empty, payload_size_of_bounds, after_ack_whole,
}

Delivers-SendsWhole :
    (client_addr seq_num : ℕ) (rounds : List Round)
    → Delivers client_addr seq_num rounds
    → SendsWhole rounds
Delivers-SendsWhole client_addr seq_num [] d = tt
Delivers-SendsWhole client_addr seq_num (r ∷ rounds) d =
    (λ n. inr (d.0 n), Delivers-SendsWhole client_addr (add_size seq_num 1) rounds d.2)

after_send_delivered :
    (seq_num client_addr remaining n : ℕ) (looks : List AckQueue) (later : ℕ → Served)
    (q : AckQueue)
    → n ≤ 1016
    → n ≤ remaining
    → wait_ack seq_num client_addr looks ≡ some q
    → after_send seq_num client_addr remaining looks later (some (8 + n))
      ≡ took_first q (later (remaining - n))
unfolding after_send
after_send_delivered seq_num client_addr remaining n looks later q h l w =
    ap (after_ack remaining (8 + n) later) w ∙ after_ack_whole remaining n later q h l

sent_first-ended : (p : Bytes) (s : Served) → (sent_first p s).ended ≡ s.ended
unfolding sent_first
sent_first-ended p s = refl

took_first-ended : (q : AckQueue) (s : Served) → (took_first q s).ended ≡ s.ended
unfolding took_first
took_first-ended q s = refl

-- A round for each 1016 bytes is enough to come to the end.
pub send_chunk-done :
    (client_addr : ℕ) (rounds : List Round) (seq_num remaining : ℕ) (rest : Bytes)
    → Delivers client_addr seq_num rounds
    → remaining ≤ length rest
    → remaining ≤ 1016 * length rounds
    → (send_chunk client_addr rounds seq_num remaining rest).ended ≡ done
unfolding stop
send_chunk-done client_addr rounds seq_num zero rest d h e =
    ap (λ s. s.ended) (send_chunk_empty client_addr rounds seq_num 0 rest refl)
send_chunk-done client_addr [] seq_num (suc remaining) rest d h e = absurd (omega arith)
send_chunk-done client_addr (r ∷ rounds) seq_num (suc remaining) rest (whole, (q, w), d) h e =
    ap (λ s. s.ended)
      (send_chunk_round client_addr r rounds seq_num (suc remaining) rest (omega arith) h)
    ∙ sent_first-ended _ _
    ∙ ap (λ o. (after_send seq_num client_addr (suc remaining) r.looks later o).ended)
        (whole (8 + n))
    ∙ ap (λ s. s.ended)
        (after_send_delivered seq_num client_addr (suc remaining) n r.looks later q bounds.1
          bounds.2 w)
    ∙ took_first-ended q _
    ∙ send_chunk-done client_addr rounds (add_size seq_num 1) (suc remaining - n) (drop n rest) d
        (omega (arith, length-drop n rest)) fewer
  where
    n : ℕ
    n = payload_size_of (suc remaining)

    later : ℕ → Served
    later = λ left. send_chunk client_addr rounds (add_size seq_num 1) left (drop n rest)

    bounds : (0 < n) × (n ≤ 1016) × (n ≤ suc remaining)
    bounds = payload_size_of_bounds (suc remaining) (omega arith)

    fewer : suc remaining - n ≤ 1016 * length rounds
    fewer = ground arith

is_get :
    (request : ClientRequest)
    → request.command ≡ codes "GET"
    → (bytes_eq request.command (codes "CHECK") ≡ false)
      × (bytes_eq request.command (codes "GET") ≡ true)
unfolding bytes_eq
is_get request e = rw e (refl, refl)

handle_get :
    (fopen : Bytes → Option Bytes) (rounds : List Round) (request : ClientRequest)
    → request.command ≡ codes "GET"
    → handle_request fopen rounds request ≡ serve_get request rounds (fopen request.filename)
unfolding handle_request
handle_get fopen rounds request e = rw ((is_get request e).0, (is_get request e).1)

serve_get_in_range :
    (request : ClientRequest) (rounds : List Round) (file : Bytes)
    → out_of_range (length file) request.offset request.chunk_size ≡ false
    → serve_get request rounds (some file)
      ≡ send_chunk request.client_addr rounds 0 request.chunk_size (drop request.offset file)
unfolding serve_get
serve_get_in_range request rounds file h = rw h

module _ (fopen : Bytes → Option Bytes) (rounds : List Round) (request : ClientRequest)
    (file : Bytes) (is_get : request.command ≡ codes "GET")
    (found : fopen request.filename ≡ some file) where
  -- A GET within the file is served whole, if every packet is sent and acknowledged and there is a
  -- round for each 1016 bytes: the thread comes to its end, and the packets, numbered from 0,
  -- carry exactly the chunk.
  pub get_lem :
      0 < request.chunk_size
      → request.offset + request.chunk_size ≤ length file
      → length file < 2 ^ 64
      → Delivers request.client_addr 0 rounds
      → request.chunk_size ≤ 1016 * length rounds
      → let s = handle_request fopen rounds request in
        (s.ended ≡ done)
        × (payloads s.sent ≡ slice file request.offset request.chunk_size)
        × Numbered 0 s.sent
  get_lem p h b d e =
      let (tail, joined, empty, numbered) =
        send_chunk-IsPrefix request.client_addr rounds 0 request.chunk_size
          (drop request.offset file) (Delivers-SendsWhole request.client_addr 0 rounds d) room in
      let ended =
        send_chunk-done request.client_addr rounds 0 request.chunk_size (drop request.offset file) d
          room e in
      (
        ap (λ s. s.ended) served ∙ ended,
        ap (λ s. payloads s.sent) served
            ∙ sym (append-nil (payloads sending.sent))
            ∙ ap (◌++◌ (payloads sending.sent)) (sym (empty ended))
            ∙ joined,
        subst (λ s. Numbered 0 s.sent) (sym served) numbered,
      )
    where
      sending : Served
      sending =
          send_chunk request.client_addr rounds 0 request.chunk_size (drop request.offset file)

      room : request.chunk_size ≤ length (drop request.offset file)
      room = omega (arith, length-drop request.offset file)

      in_range : out_of_range (length file) request.offset request.chunk_size ≡ false
      in_range = ground arith

      served : handle_request fopen rounds request ≡ sending
      served =
          handle_get fopen rounds request is_get
          ∙ ap (serve_get request rounds) found
          ∙ serve_get_in_range request rounds file in_range

  -- A GET that reaches behind the end of a file that is there sends nothing and ends the whole
  -- server, if the sum of its fields does not wrap.
  pub get_out_of_range :
      (length file ≤ request.offset) ⊎ (length file < request.offset + request.chunk_size)
      → request.offset + request.chunk_size < 2 ^ 64
      → handle_request fopen rounds request
        ≡ record { sent = []; queues = []; ended = process_exit }
  unfolding serve_get stop
  get_out_of_range h b =
      handle_get fopen rounds request is_get ∙ ap (serve_get request rounds) found ∙ ground arith
