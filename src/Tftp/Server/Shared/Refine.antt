-- ===== src/Tftp/Server/Shared/Refine.antt =====
-- The shared queue beside its specification: a list of at most five ACKs, oldest first.
use network_protocol_cli_too.Common.{
  ℕ, ◌≡◌, refl, sym, ap, subst, ◌∙◌, Bool, true, false, List, [], ◌∷◌, ◌++◌, Option, none, some,
  ltb, if◌then◌else◌, length, get_elem?, set,
}
use network_protocol_cli_too.Tftp.AckQueue.{AckPacket, AckQueue, max_queue_size, enqueue, take_ack}
use network_protocol_cli_too.Tftp.AckQueue.Refine.{
  IsValid, pending, take_first, take_ack-refines, enqueue-refines,
}
use network_protocol_cli_too.Tftp.Server.Shared.{
  Waiter, Shared, Turn, arrived, looks, next_wait, looked_by, look, turn, run,
}

-- The state of the specification
pub record Waiting : Type 0 where
  pub acks : List AckPacket
  pub threads : List (Option Waiter)

abbrev pub waiting : Shared → Waiting
waiting s = record { acks = pending s.queue; threads = s.threads }

-- An ACK goes behind the others while fewer than five wait, and else is lost.
unfoldable pub joined : List AckPacket → AckPacket → List AckPacket
joined acks ack = if ltb (length acks) max_queue_size then acks ++ (ack ∷ []) else acks

unfoldable pub took : Waiting → ℕ → Waiter → Bool × List AckPacket → Waiting
took s i w (true, acks) = record { acks = acks; threads = set s.threads i (next_wait w) }
took s i w (false, acks) = record s { acks = acks }

unfoldable pub spec_look : Waiting → ℕ → Option (Option Waiter) → Waiting
unfolding took
spec_look s i none = s
spec_look s i (some none) = s
spec_look s i (some (some w)) = took s i w (take_first w.seq_num w.client_addr s.acks)

unfoldable pub spec_turn : Waiting → Turn → Waiting
unfolding joined spec_look
spec_turn s (arrived ack) = record s { acks = joined s.acks ack }
spec_turn s (looks i) = spec_look s i (get_elem? s.threads i)

unfoldable pub spec_run : List Turn → Waiting → Waiting
unfolding spec_turn
spec_run [] s = s
spec_run (t ∷ turns) s = spec_run turns (spec_turn s t)

looked_by-took :
    (s : Shared) (i : ℕ) (w : Waiter) (r : Bool × AckQueue)
    → waiting (looked_by s i w r) ≡ took (waiting s) i w (r.0, pending r.1)
unfolding looked_by took
looked_by-took s i w (true, q) = refl
looked_by-took s i w (false, q) = refl

looked_by-queue :
    (s : Shared) (i : ℕ) (w : Waiter) (r : Bool × AckQueue) → (looked_by s i w r).queue ≡ r.1
unfolding looked_by
looked_by-queue s i w (true, q) = refl
looked_by-queue s i w (false, q) = refl

abbrev Refines : Shared → Waiting → Type 0
Refines s t = (waiting s ≡ t) × IsValid s.queue

look-Refines :
    (s : Shared) (i : ℕ) (found : Option (Option Waiter))
    → IsValid s.queue
    → Refines (look s i found) (spec_look (waiting s) i found)
unfolding look spec_look
look-Refines s i none v = (refl, v)
look-Refines s i (some none) v = (refl, v)
look-Refines s i (some (some w)) v =
    let taken = take_ack w.seq_num w.client_addr s.queue in
    let (same, valid) = take_ack-refines w.seq_num w.client_addr s.queue v in
    (
      looked_by-took s i w taken ∙ ap (took (waiting s) i w) same,
      subst IsValid (sym (looked_by-queue s i w taken)) valid,
    )

joined-enqueue :
    (q : AckQueue) (ack : AckPacket)
    → IsValid q
    → (pending (enqueue q ack).0 ≡ joined (pending q) ack) × IsValid (enqueue q ack).0
unfolding joined
joined-enqueue q ack v =
    let (woken, kept, valid) = enqueue-refines q ack v in
    (kept ∙ ap (λ b. if b then pending q ++ (ack ∷ []) else pending q) woken, valid)

turn-Refines :
    (s : Shared) (t : Turn) → IsValid s.queue → Refines (turn s t) (spec_turn (waiting s) t)
unfolding turn spec_turn
turn-Refines s (arrived ack) v =
    let (kept, valid) = joined-enqueue s.queue ack v in
    (ap (λ acks. record { acks = acks; threads = s.threads }) kept, valid)
turn-Refines s (looks i) v = look-Refines s i (get_elem? s.threads i) v

-- In whatever order `main` and the threads get the lock: the array of five slots behaves like a list
-- of at most five ACKs, from which each thread takes the first that is its own, and its invariant
-- holds throughout.
pub run-refines :
    (turns : List Turn) (s : Shared)
    → IsValid s.queue
    → (waiting (run turns s) ≡ spec_run turns (waiting s)) × IsValid (run turns s).queue
unfolding run spec_run
run-refines [] s v = (refl, v)
run-refines (t ∷ turns) s v =
    let (same, valid) = turn-Refines s t v in
    let (rest, valid') = run-refines turns (turn s t) valid in
    (rest ∙ ap (spec_run turns) same, valid')
