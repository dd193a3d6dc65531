-- ===== src/Tftp/AckQueue.antt =====
-- The queue of acknowledgements in tftp/server.c, between the loop in `main` that receives them and
-- the threads that wait for them. An address is the bytes of its `sockaddr_in`, read as a number.
pub mod Refine
use network_protocol_cli_too.Common.{
  ℕ, zero, suc, ◌+◌, ◌-◌, Bool, true, false, ◌&&◌, List, [], ◌∷◌, ◌++◌, Option, none, some, ltb,
  ◌==◌, if◌then◌else◌, get_elem?, set, take, drop, slice, length,
}

abbrev pub max_queue_size : ℕ
max_queue_size = 5

pub record AckPacket : Type 0 where
  pub seq_num : ℕ
  pub client_addr : ℕ
  pub addr_len : ℕ

-- `ack_queue` and `ack_queue_size`
pub record AckQueue : Type 0 where
  pub slots : List AckPacket
  pub size : ℕ

-- What the loop of `main` does with an ACK under the lock, and whether it wakes the waiting threads.
unfoldable pub enqueue : AckQueue → AckPacket → AckQueue × Bool
enqueue q ack =
    if ltb q.size max_queue_size
    then (record { slots = set q.slots q.size ack; size = q.size + 1 }, true)
    else (q, false)

-- The ACK of packet `seq_num` from the client at `client_addr`
unfoldable pub matches : ℕ → ℕ → AckPacket → Bool
matches seq_num client_addr ack = ack.seq_num == seq_num && ack.client_addr == client_addr

-- The body of the search at index `i`: `later` is what the rounds behind it find.
found_at : ℕ → ℕ → ℕ → Option ℕ → Option AckPacket → Option ℕ
unfolding matches
found_at seq_num client_addr i later none = none
found_at seq_num client_addr i later (some ack) =
    if matches seq_num client_addr ack then some i else later

-- `for (int i = …; i < ack_queue_size; i++)` with `rounds` rounds left: the first index that matches
find_ack : ℕ → ℕ → List AckPacket → ℕ → ℕ → Option ℕ
unfolding found_at
find_ack seq_num client_addr slots zero i = none
find_ack seq_num client_addr slots (suc rounds) i =
    let later = find_ack seq_num client_addr slots rounds (i + 1) in
    found_at seq_num client_addr i later (get_elem? slots i)

-- `memmove(&ack_queue[i], &ack_queue[i + 1], n * sizeof(AckPacket))`
move_down : List AckPacket → ℕ → ℕ → List AckPacket
move_down slots i n = take i slots ++ (slice slots (i + 1) n ++ drop (i + n) slots)

remove_ack : AckQueue → ℕ → AckQueue
unfolding move_down
remove_ack q i =
    let size' = q.size - 1 in record { slots = move_down q.slots i (size' - i); size = size' }

removed : AckQueue → Option ℕ → Bool × AckQueue
unfolding remove_ack
removed q none = (false, q)
removed q (some i) = (true, remove_ack q i)

-- One look through the queue: `ack_received`, and the queue without the ACK.
unfoldable pub take_ack : ℕ → ℕ → AckQueue → Bool × AckQueue
unfolding find_ack removed
take_ack seq_num client_addr q = removed q (find_ack seq_num client_addr q.slots q.size 0)
