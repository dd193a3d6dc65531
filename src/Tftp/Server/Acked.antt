-- ===== src/Tftp/Server/Acked.antt =====
-- The way of an acknowledgement: from the client's datagram through the loop of `main` and the queue
-- to the thread that waits for it.
use network_protocol_cli_too.Common.{
  ℕ, ◌≤◌, ◌≡◌, ◌⊎◌, refl, sym, ap, subst, ◌∙◌, Bool, true, false, List, [], ◌∷◌, ◌++◌, Option, some,
  arith, if◌then◌else◌, Bool-cases, inl, inr, size_max, add_size,
}
use network_protocol_cli_too.Transfer.Protocol.{Params, ack_packet}
use network_protocol_cli_too.Tftp.Packet.{buffer_size}
use network_protocol_cli_too.Tftp.AckQueue.{AckPacket, AckQueue, enqueue, matches, take_ack}
use network_protocol_cli_too.Tftp.AckQueue.Refine.{
  IsValid, pending, take_first, take_ack-refines, enqueue-refines,
}
use network_protocol_cli_too.Tftp.Server.{Round, acknowledged, route, looked, wait_ack}
use network_protocol_cli_too.Tftp.Server.Route.{route-ack_packet}
use network_protocol_cli_too.Tftp.Server.Chunks.{Delivers}

-- What `main` has done before a thread's look: it received the ACK of `seq_num` when the queue was in
-- order, and woke the threads.
pub record IsRouted (client_addr seq_num : ℕ) (look : AckQueue) : Type 0 where
  pub old : Params
  pub old_seq_num : ℕ
  pub before : AckQueue
  pub addr_len : ℕ
  pub valid : IsValid before
  pub routed :
      route old old_seq_num before client_addr addr_len (some (ack_packet buffer_size seq_num))
      ≡ acknowledged look true

-- Every packet is sent, and its ACK is routed before one of the looks.
abbrev pub Acknowledges : ℕ → ℕ → List Round → Type 0
Acknowledges client_addr seq_num [] = Unit {0}
Acknowledges client_addr seq_num (r ∷ rounds) =
    ((n : ℕ) → r.sendto n ≡ some n)
    × ((earlier : List AckQueue) × (look : AckQueue) × (later : List AckQueue) × (r.looks
          ≡ earlier ++ (look ∷ later))
        × IsRouted client_addr seq_num look)
    × Acknowledges client_addr (add_size seq_num 1) rounds

module _ (seq_num client_addr : ℕ) where
  take_first-cons :
      (a : AckPacket) (rest : List AckPacket)
      → (take_first seq_num client_addr rest).0 ≡ true
      → (take_first seq_num client_addr (a ∷ rest)).0 ≡ true
  unfolding take_first
  take_first-cons a rest h = elim (Bool-cases (matches seq_num client_addr a)) [
    | inl e ↦ rw e refl
    | inr e ↦ rw e h
  ]

  take_first_last :
      (waiting : List AckPacket) (a : AckPacket)
      → matches seq_num client_addr a ≡ true
      → (take_first seq_num client_addr (waiting ++ (a ∷ []))).0 ≡ true
  take_first_last [] a m = unfold take_first in rw m refl
  take_first_last (w ∷ waiting) a m =
      take_first-cons w (waiting ++ (a ∷ [])) (take_first_last waiting a m)

  -- A thread that looks into a queue finds an ACK that has just been put there.
  take_ack-enqueue :
      (q q' : AckQueue) (a : AckPacket)
      → IsValid q
      → matches seq_num client_addr a ≡ true
      → enqueue q a ≡ (q', true)
      → (take_ack seq_num client_addr q').0 ≡ true
  take_ack-enqueue q q' a v m e =
      let (woken, kept, valid) = enqueue-refines q a v in
      let last : pending q' ≡ pending q ++ (a ∷ []) =
        ap (λ r. pending r.0) (sym e)
        ∙ kept
        ∙ ap (λ r. if r.1 then pending q ++ (a ∷ []) else pending q) e in
      let (found, valid') =
        take_ack-refines seq_num client_addr q' (subst (λ r. IsValid r.0) e valid) in
      ap (λ r. r.0) found
      ∙ ap (λ w. (take_first seq_num client_addr w).0) last
      ∙ take_first_last (pending q) a m

  looked-some :
      (later : Option AckQueue) (r : Bool × AckQueue)
      → (r.0 ≡ true) ⊎ ((q : AckQueue) × (later ≡ some q))
      → (q : AckQueue) × (looked later r ≡ some q)
  unfolding looked
  looked-some later (true, q) h = (q, refl)
  looked-some later (false, q) (inl e) = cc
  looked-some later (false, q) (inr h) = h

  -- The wait ends at the latest with a look that finds the ACK.
  wait_ack-some :
      (earlier later : List AckQueue) (look : AckQueue)
      → (take_ack seq_num client_addr look).0 ≡ true
      → (q : AckQueue) × (wait_ack seq_num client_addr (earlier ++ (look ∷ later)) ≡ some q)
  unfolding wait_ack
  wait_ack-some [] later look h =
      looked-some (wait_ack seq_num client_addr later) (take_ack seq_num client_addr look) (inl h)
  wait_ack-some (w ∷ earlier) later look h =
      looked-some (wait_ack seq_num client_addr (earlier ++ (look ∷ later)))
        (take_ack seq_num client_addr w) (inr (wait_ack-some earlier later look h))

matches_own :
    (seq_num client_addr addr_len : ℕ)
    → matches seq_num client_addr
        (record { seq_num = seq_num; client_addr = client_addr; addr_len = addr_len })
      ≡ true
unfolding matches
matches_own seq_num client_addr addr_len = ground arith

acknowledged-injective :
    (r : AckQueue × Bool) (look : AckQueue)
    → (let (q, woken) = r in acknowledged q woken) ≡ acknowledged look true
    → r ≡ (look, true)
acknowledged-injective (q, woken) look e = ground arith

-- A routed ACK is found by the thread that looks for it.
IsRouted-found :
    (client_addr seq_num : ℕ) (look : AckQueue)
    → seq_num ≤ size_max
    → IsRouted client_addr seq_num look
    → (take_ack seq_num client_addr look).0 ≡ true
IsRouted-found client_addr seq_num look s i =
    take_ack-enqueue seq_num client_addr i.before look ack i.valid
      (matches_own seq_num client_addr i.addr_len)
      (acknowledged-injective (enqueue i.before ack) look (
        sym (route-ack_packet i.old i.old_seq_num i.before client_addr i.addr_len seq_num s)
        ∙ i.routed))
  where
    ack : AckPacket
    ack = record { seq_num = seq_num; client_addr = client_addr; addr_len = i.addr_len }

-- Where the client's ACKs are routed while the queue has room, every packet is delivered.
pub Acknowledges-Delivers :
    (client_addr seq_num : ℕ) (rounds : List Round)
    → seq_num ≤ size_max
    → Acknowledges client_addr seq_num rounds
    → Delivers client_addr seq_num rounds
Acknowledges-Delivers client_addr seq_num [] s a = tt
Acknowledges-Delivers client_addr seq_num (r ∷ rounds) s
      (whole, (earlier, look, later, looks, routed), a) =
    let (q, found) =
      wait_ack-some seq_num client_addr earlier later look
        (IsRouted-found client_addr seq_num look s routed) in
    (
      whole,
      (q, ap (wait_ack seq_num client_addr) looks ∙ found),
      Acknowledges-Delivers client_addr (add_size seq_num 1) rounds (omega arith) a,
    )
