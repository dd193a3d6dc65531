-- ===== src/Tftp/Server/Shared/Lost.antt =====
-- What becomes of a thread whose acknowledgement is lost.
use mathlib.Core.Option.{some-injective}
use network_protocol_cli_too.Common.{
  ℕ, ◌≤◌, ◌≡◌, ◌≢◌, refl, sym, ap, subst, ◌∙◌, Bool, true, false, List, [], ◌∷◌, ◌++◌, Option, none,
  some, arith, ltb, length, get_elem?, get_elem?-set_ne, Bool-cases, inl, inr,
}
use network_protocol_cli_too.Tftp.AckQueue.{AckPacket, max_queue_size, matches}
use network_protocol_cli_too.Tftp.AckQueue.Refine.{IsValid, pending, take_first}
use network_protocol_cli_too.Tftp.Server.Shared.{
  Waiter, Shared, Turn, arrived, looks, next_wait, run,
}
use network_protocol_cli_too.Tftp.Server.Shared.Refine.{
  Waiting, waiting, joined, took, spec_look, spec_turn, spec_run, run-refines,
}

-- No ACK of the list is the one that the thread waits for.
abbrev pub Unmatched : Waiter → List AckPacket → Type 0
Unmatched w [] = Unit {0}
Unmatched w (a ∷ acks) = (matches w.seq_num w.client_addr a ≡ false) × Unmatched w acks

-- No ACK that comes is the one that the thread waits for.
abbrev pub NoneFor : Waiter → List Turn → Type 0
NoneFor w [] = Unit {0}
NoneFor w (arrived a ∷ turns) = (matches w.seq_num w.client_addr a ≡ false) × NoneFor w turns
NoneFor w (looks i ∷ turns) = NoneFor w turns

-- Thread `i` waits, and its ACK is not there.
abbrev Lacks : Waiter → ℕ → Waiting → Type 0
Lacks w i s = (get_elem? s.threads i ≡ some (some w)) × Unmatched w s.acks

take_first-Unmatched :
    (w : Waiter) (seq_num client_addr : ℕ) (acks : List AckPacket)
    → Unmatched w acks
    → Unmatched w (take_first seq_num client_addr acks).1
unfolding take_first
take_first-Unmatched w seq_num client_addr [] u = tt
take_first-Unmatched w seq_num client_addr (a ∷ acks) u =
    elim (Bool-cases (matches seq_num client_addr a)) [
      | inl e ↦ rw e (u.1)
      | inr e ↦ rw e (u.0, take_first-Unmatched w seq_num client_addr acks u.1)
    ]

take_first_own :
    (w : Waiter) (acks : List AckPacket)
    → Unmatched w acks
    → (take_first w.seq_num w.client_addr acks).0 ≡ false
unfolding take_first
take_first_own w [] u = refl
take_first_own w (a ∷ acks) u = rw (u.0) (take_first_own w acks u.1)

joined-Unmatched :
    (w : Waiter) (acks : List AckPacket) (a : AckPacket)
    → matches w.seq_num w.client_addr a ≡ false
    → Unmatched w acks
    → Unmatched w (joined acks a)
unfolding joined
joined-Unmatched w acks a m u = elim (Bool-cases (ltb (length acks) max_queue_size)) [
  | inl e ↦ rw e (behind acks u)
  | inr e ↦ rw e u
]
  where
    behind : (xs : List AckPacket) → Unmatched w xs → Unmatched w (xs ++ (a ∷ []))
    behind [] u' = (m, tt)
    behind (x ∷ xs) u' = (u'.0, behind xs u'.1)

took-Lacks :
    (w v : Waiter) (i j : ℕ) (s : Waiting) (r : Bool × List AckPacket)
    → (r.0 ≡ true → j ≢ i)
    → Unmatched w r.1
    → Lacks w i s
    → Lacks w i (took s j v r)
unfolding took
took-Lacks w v i j s (true, acks) other u l =
    (get_elem?-set_ne s.threads (next_wait v) (other refl) ∙ l.0, u)
took-Lacks w v i j s (false, acks) other u l = (l.0, u)

spec_look-Lacks :
    (w : Waiter) (i j : ℕ) (s : Waiting) (found : Option (Option Waiter))
    → get_elem? s.threads j ≡ found
    → Lacks w i s
    → Lacks w i (spec_look s j found)
unfolding spec_look
spec_look-Lacks w i j s none e l = l
spec_look-Lacks w i j s (some none) e l = l
spec_look-Lacks w i j s (some (some v)) e l =
    took-Lacks w v i j s (take_first v.seq_num v.client_addr s.acks)
      (λ found same.
        let own : v ≡ w =
          some-injective v w
            (some-injective (some v) (some w) (sym e ∙ ap (get_elem? s.threads) same ∙ l.0)) in
        let missed : (take_first v.seq_num v.client_addr s.acks).0 ≡ false =
          ap (λ (x : Waiter). (take_first x.seq_num x.client_addr s.acks).0) own
          ∙ take_first_own w s.acks l.1 in
        cc)
      (take_first-Unmatched w v.seq_num v.client_addr s.acks l.1) l

spec_run-Lacks :
    (turns : List Turn) (w : Waiter) (i : ℕ) (s : Waiting)
    → NoneFor w turns
    → Lacks w i s
    → Lacks w i (spec_run turns s)
unfolding spec_run spec_turn
spec_run-Lacks [] w i s n l = l
spec_run-Lacks (arrived a ∷ turns) w i s n l =
    spec_run-Lacks turns w i _ n.1 (l.0, joined-Unmatched w s.acks a n.0 l.1)
spec_run-Lacks (looks j ∷ turns) w i s n l =
    spec_run-Lacks turns w i _ n (spec_look-Lacks w i j s (get_elem? s.threads j) refl l)

-- A thread moves on by its own ACK only: while this is neither in the queue nor comes, the thread
-- waits for it, whatever else comes and whoever looks.
pub run-waiting :
    (turns : List Turn) (s : Shared) (i : ℕ) (w : Waiter)
    → IsValid s.queue
    → get_elem? s.threads i ≡ some (some w)
    → Unmatched w (pending s.queue)
    → NoneFor w turns
    → get_elem? (run turns s).threads i ≡ some (some w)
run-waiting turns s i w v at u n =
    ap (λ t. get_elem? t.threads i) (run-refines turns s v).0
    ∙ (spec_run-Lacks turns w i (waiting s) n (at, u)).0

joined_full :
    (acks : List AckPacket) (a : AckPacket) → max_queue_size ≤ length acks → joined acks a ≡ acks
unfolding joined
joined_full acks a h = ground arith

-- An ACK that comes while five others wait is lost, and so is its thread: if the ACK does not come
-- a second time, the thread waits for ever, whatever else comes and whoever looks, also when there
-- is room again.
pub run-lost :
    (ack : AckPacket) (turns : List Turn) (s : Shared) (i : ℕ) (w : Waiter)
    → IsValid s.queue
    → get_elem? s.threads i ≡ some (some w)
    → max_queue_size ≤ length (pending s.queue)
    → Unmatched w (pending s.queue)
    → NoneFor w turns
    → get_elem? (run (arrived ack ∷ turns) s).threads i ≡ some (some w)
unfolding spec_run spec_turn
run-lost ack turns s i w v at full u n =
    ap (λ t. get_elem? t.threads i) (run-refines (arrived ack ∷ turns) s v).0
    ∙ (spec_run-Lacks turns w i
        (record { acks = joined (pending s.queue) ack; threads = s.threads }) n
        (at, subst (Unmatched w) (sym (joined_full (pending s.queue) ack full)) u)).0
