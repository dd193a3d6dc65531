-- ===== src/Tftp/Client/Threads/Part.antt =====
-- One thread of tftp/client.c: what it has in place of its part of the file.
use network_protocol_cli_too.Common.{
  ℕ, zero, suc, ◌+◌, ◌-◌, ◌≤◌, ◌<◌, ◌≡◌, refl, sym, subst, ◌∙◌, inl, inr, true, false, arith, ◌==◌,
  length, slice, get_elem?, write_at, take_all, Agrees, Agrees-write_at_in, Bool-cases, ltb,
}
use network_protocol_cli_too.CString.{Bytes}
use network_protocol_cli_too.Transfer.Plan.{DownloadTask}
use network_protocol_cli_too.Tftp.Packet.{buffer_size, max_retries, packet_payload}
use network_protocol_cli_too.Tftp.Client.{
  Event, timeout, datagram, exited, undefined, Loop, Thread, running, ended, loop_head, retry,
  store, round, start,
}
use network_protocol_cli_too.Tftp.Client.Receive.{moved, store_cases, first}

module _ (file : Bytes) where
  -- The next event of a thread: nothing, or a datagram of at most 1024 bytes whose payload is what
  -- the file holds at the thread's position.
  abbrev pub IsNext : Thread → Event → Type 0
  IsNext (running l) (datagram bytes ack_sent) =
      (8 ≤ length bytes)
      × (length bytes ≤ buffer_size)
      × (l.position + (length bytes - 8) ≤ l.limit)
      × (packet_payload bytes ≡ slice file l.position (length bytes - 8))
  IsNext (running l) timeout = Unit {0}
  IsNext (ended e) event = Unit {0}

  -- What a thread has in place: its part of the file up to its position, or all of it when it exits
  -- with 0.
  abbrev pub HasPart : DownloadTask → Bytes → Thread → Type 0
  HasPart task file_data (running l) =
      (l.limit ≡ task.output + task.size)
      × (task.output ≤ l.position)
      × (l.position + l.remaining ≡ l.limit)
      × Agrees task.output l.position file_data file
  HasPart task file_data (ended (exited zero)) =
      Agrees task.output (task.output + task.size) file_data file
  HasPart task file_data (ended (exited (suc n))) = Unit {0}
  HasPart task file_data (ended undefined) = Unit {0}

  loop_head-HasPart :
      (task : DownloadTask) (file_data : Bytes) (l : Loop)
      → HasPart task file_data (running l)
      → HasPart task file_data (loop_head l)
  unfolding loop_head
  loop_head-HasPart task file_data l (e, o, a, g) = elim (Bool-cases (l.remaining == 0)) [
    | inl z ↦ rw z (λ k low high. g k low (ground arith))
    | inr z ↦ rw z (e, o, a, g)
  ]

  pub start-HasPart :
      (task : DownloadTask) (file_data : Bytes) → HasPart task file_data (start task)
  unfolding start
  start-HasPart task file_data =
      loop_head-HasPart task file_data (first task)
        (refl, omega arith, refl, λ k low high. absurd (omega arith))

  retry-HasPart :
      (task : DownloadTask) (file_data : Bytes) (l : Loop)
      → HasPart task file_data (running l)
      → HasPart task file_data (retry l)
  unfolding retry
  retry-HasPart task file_data l (e, o, a, g) =
      elim (Bool-cases (ltb max_retries (l.retry_count + 1))) [
        | inl z ↦ rw z tt
        | inr z ↦ rw z (e, o, a, g)
      ]

  store-HasPart :
      (task : DownloadTask) (file_data packet : Bytes) (l : Loop)
      → length file_data ≡ length file
      → task.output + task.size ≤ length file
      → HasPart task file_data (running l)
      → IsNext (running l) (datagram packet true)
      → HasPart task (store l file_data packet).1 (store l file_data packet).0
  store-HasPart task file_data packet l e h (lim, o, a, g) (long, short, inside, right) =
      store_cases (λ r. HasPart task r.1 r.0) l file_data packet tt tt
        λ _ fits _. loop_head-HasPart task _ (moved l (length packet - 8)) (
          lim,
          omega arith,
          omega arith,
          subst
              (λ b.
                Agrees task.output (l.position + (length packet - 8))
                  (write_at file_data l.position b) file)
              (sym right)
              (Agrees-write_at_in task.output l.position (length packet - 8) file_data file
                (omega arith) e g),
        )

  pub round-HasPart :
      (task : DownloadTask) (file_data : Bytes) (l : Loop) (event : Event)
      → length file_data ≡ length file
      → task.output + task.size ≤ length file
      → HasPart task file_data (running l)
      → IsNext (running l) event
      → HasPart task (round l file_data event).file_data (round l file_data event).thread
  unfolding round
  round-HasPart task file_data l timeout e h p n = retry-HasPart task file_data l p
  round-HasPart task file_data l (datagram bytes false) e h p n = tt
  round-HasPart task file_data l (datagram bytes true) e h p n =
      subst (λ b. HasPart task (store l file_data b).1 (store l file_data b).0)
        (sym (take_all buffer_size bytes n.1)) (store-HasPart task file_data bytes l e h p n)

  pub HasPart-keep :
      (task : DownloadTask) (old new : Bytes) (t : Thread)
      → ((k : ℕ)
          → task.output ≤ k
          → k < task.output + task.size
          → get_elem? new k ≡ get_elem? old k)
      → HasPart task old t
      → HasPart task new t
  HasPart-keep task old new (running l) same (e, o, a, g) =
      (e, o, a, λ k low high. same k low (omega arith) ∙ g k low high)
  HasPart-keep task old new (ended (exited zero)) same g =
      λ k low high. same k low high ∙ g k low high
  HasPart-keep task old new (ended (exited (suc n))) same g = tt
  HasPart-keep task old new (ended undefined) same g = tt
