-- ===== src/Tftp/Server/Shared.antt =====
-- The queue of acknowledgements as all threads of tftp/server.c share it: `main` puts ACKs in, and
-- each thread looks for its own under the lock, when it begins to wait and at each wake-up.
pub mod Refine
pub mod Lost
use network_protocol_cli_too.Common.{
  ℕ, ◌+◌, ◌-◌, Bool, true, false, List, [], ◌∷◌, Option, none, some, ◌==◌, if◌then◌else◌, get_elem?,
  set, add_size,
}
use network_protocol_cli_too.Tftp.AckQueue.{AckPacket, AckQueue, enqueue, take_ack}

-- A thread that waits: the packet that it has sent, to whom, and how many packets it has left, this
-- one included.
pub record Waiter : Type 0 where
  pub seq_num : ℕ
  pub client_addr : ℕ
  pub packets : ℕ

-- The queue, and the threads; `none` is one that has ended.
pub record Shared : Type 0 where
  pub queue : AckQueue
  pub threads : List (Option Waiter)

-- Who gets the lock next: the loop of `main` with an ACK, or a thread.
pub data Turn : Type 0 where
  arrived : AckPacket → Turn
  looks : ℕ → Turn

-- Behind the ACK: the thread sends its next packet and waits again, or is done.
unfoldable pub next_wait : Waiter → Option Waiter
next_wait w =
    if w.packets == 1
    then none
    else some (record w { seq_num = add_size w.seq_num 1; packets = w.packets - 1 })

unfoldable pub looked_by : Shared → ℕ → Waiter → Bool × AckQueue → Shared
unfolding next_wait
looked_by s i w (true, q) = record { queue = q; threads = set s.threads i (next_wait w) }
looked_by s i w (false, q) = record s { queue = q }

unfoldable pub look : Shared → ℕ → Option (Option Waiter) → Shared
unfolding looked_by
look s i none = s
look s i (some none) = s
look s i (some (some w)) = looked_by s i w (take_ack w.seq_num w.client_addr s.queue)

unfoldable pub turn : Shared → Turn → Shared
unfolding look
turn s (arrived ack) = record s { queue = (enqueue s.queue ack).0 }
turn s (looks i) = look s i (get_elem? s.threads i)

-- The turns in the order in which the lock is got.
unfoldable pub run : List Turn → Shared → Shared
unfolding turn
run [] s = s
run (t ∷ turns) s = run turns (turn s t)
