-- ===== src/Tftp/Client/Threads.antt =====
-- All threads together over the shared buffer, in any order.
pub mod Part
use mathlib.Core.Option.{some-injective}
use native.Mathlib.Decide.{dec_lt}
use network_protocol_cli_too.Common.{
  ℕ, zero, suc, ◌+◌, ◌-◌, ◌≤◌, ◌<◌, ◌≡◌, refl, sym, subst, ◌∙◌, inl, inr, true, false, List, [],
  ◌∷◌, Option, none, some, arith, ◌==◌, length, slice, set, get_elem?, write_at, take_all, Agrees,
  Agrees-write_at_in, get_elem?-ext, Bool-cases, ltb,
}
use network_protocol_cli_too.CString.{Bytes}
use network_protocol_cli_too.Transfer.Plan.{DownloadTask}
use network_protocol_cli_too.Transfer.Plan.Cover.{Covers}
use network_protocol_cli_too.Tftp.Packet.{buffer_size, max_retries, packet_payload}
use network_protocol_cli_too.Tftp.Client.{
  Event, timeout, datagram, exited, undefined, Loop, Thread, running, ended, loop_head, retry,
  store, round, start, System, dispatch, run, starts,
}
use network_protocol_cli_too.Tftp.Client.Receive.{
  moved, store_cases, round-elsewhere, length-round, first,
}
use network_protocol_cli_too.Tftp.Client.Threads.Part.{
  IsNext, HasPart, start-HasPart, round-HasPart, HasPart-keep,
}

none≢some {ℓ} : {A : Type ℓ} {a : A} → none ≡ some a → ⊥
none≢some e = cc

module _ (file : Bytes) where
  -- The threads of tasks that go from `a` to `b`, each with its part in place.
  abbrev Parts : ℕ → ℕ → Bytes → List DownloadTask → List Thread → Type 0
  Parts a b file_data [] [] = a ≡ b
  Parts a b file_data [] (h ∷ hs) = ⊥
  Parts a b file_data (t ∷ ts) [] = ⊥
  Parts a b file_data (t ∷ ts) (h ∷ hs) =
      (t.output ≡ a) × HasPart file t file_data h × Parts (a + t.size) b file_data ts hs

  Parts-le :
      (a b : ℕ) (file_data : Bytes) (ts : List DownloadTask) (hs : List Thread)
      → Parts a b file_data ts hs
      → a ≤ b
  Parts-le a b file_data [] [] p = omega arith
  Parts-le a b file_data [] (h ∷ hs) p = absurd p
  Parts-le a b file_data (t ∷ ts) [] p = absurd p
  Parts-le a b file_data (t ∷ ts) (h ∷ hs) p =
      omega (arith, Parts-le (a + t.size) b file_data ts hs p.2)

  Parts-keep :
      (a b : ℕ) (old new : Bytes) (ts : List DownloadTask) (hs : List Thread)
      → ((k : ℕ) → a ≤ k → get_elem? new k ≡ get_elem? old k)
      → Parts a b old ts hs
      → Parts a b new ts hs
  Parts-keep a b old new [] [] same p = p
  Parts-keep a b old new [] (h ∷ hs) same p = p
  Parts-keep a b old new (t ∷ ts) [] same p = p
  Parts-keep a b old new (t ∷ ts) (h ∷ hs) same (at, p, ps) = (
    at,
    HasPart-keep file t old new h (λ k low high. same k (omega arith)) p,
    Parts-keep (a + t.size) b old new ts hs (λ k low. same k (omega arith)) ps,
  )

  -- A running thread stands in its part, behind `a`.
  Parts-position :
      (a b : ℕ) (file_data : Bytes) (ts : List DownloadTask) (hs : List Thread) (i : ℕ) (l : Loop)
      → Parts a b file_data ts hs
      → get_elem? hs i ≡ some (running l)
      → a ≤ l.position
  Parts-position a b file_data ts [] i l p e = absurd (none≢some e)
  Parts-position a b file_data [] (h ∷ hs) i l p e = absurd p
  Parts-position a b file_data (t ∷ ts) (h ∷ hs) zero l (at, p, ps) e =
      let q : HasPart file t file_data (running l) =
        subst (HasPart file t file_data) (some-injective h (running l) e) p in
      omega (arith, q.1)
  Parts-position a b file_data (t ∷ ts) (h ∷ hs) (suc i) l (at, p, ps) e =
      omega (arith, Parts-position (a + t.size) b file_data ts hs i l ps e)

  Parts-round :
      (a b : ℕ) (file_data : Bytes) (ts : List DownloadTask) (hs : List Thread) (i : ℕ) (l : Loop)
      (event : Event)
      → length file_data ≡ length file
      → b ≤ length file
      → get_elem? hs i ≡ some (running l)
      → IsNext file (running l) event
      → Parts a b file_data ts hs
      → Parts a b (round l file_data event).file_data ts (set hs i (round l file_data event).thread)
  Parts-round a b file_data ts [] i l event e h f n p = absurd (none≢some f)
  Parts-round a b file_data [] (x ∷ hs) i l event e h f n p = absurd p
  Parts-round a b file_data (t ∷ ts) (x ∷ hs) zero l event e h f n (at, p, ps) =
      let q : HasPart file t file_data (running l) =
        subst (HasPart file t file_data) (some-injective x (running l) f) p in
      (
        at,
        round-HasPart file t file_data l event e
            (omega (arith, Parts-le (a + t.size) b file_data ts hs ps)) q n,
        Parts-keep (a + t.size) b file_data _ ts hs
            (λ k low. round-elsewhere l file_data event k (inr (omega (arith, q.0)))) ps,
      )
  Parts-round a b file_data (t ∷ ts) (x ∷ hs) (suc i) l event e h f n (at, p, ps) =
      let behind : a + t.size ≤ l.position =
        Parts-position (a + t.size) b file_data ts hs i l ps f in
      (
        at,
        HasPart-keep file t file_data _ x
            (λ k low high. round-elsewhere l file_data event k (inl (omega arith))) p,
        Parts-round (a + t.size) b file_data ts hs i l event e h f n ps,
      )

  -- Every event of the schedule is the next one of its thread, when its turn comes.
  abbrev pub IsNextOf : Option Thread → Event → Type 0
  IsNextOf none event = Unit {0}
  IsNextOf (some t) event = IsNext file t event

  abbrev pub Follows : List (ℕ × Event) → System → Type 0
  Follows [] s = Unit {0}
  Follows ((i, event) ∷ schedule) s =
      IsNextOf (get_elem? s.threads i) event
      × Follows schedule (dispatch s i event (get_elem? s.threads i))

  dispatch-Parts :
      (b : ℕ) (ts : List DownloadTask) (s : System) (i : ℕ) (event : Event) (o : Option Thread)
      → get_elem? s.threads i ≡ o
      → IsNextOf o event
      → b ≤ length file
      → length s.file_data ≡ length file
      → Parts 0 b s.file_data ts s.threads
      → let s' = dispatch s i event o in
        (length s'.file_data ≡ length file) × Parts 0 b s'.file_data ts s'.threads
  unfolding dispatch
  dispatch-Parts b ts s i event none f n h e p = (e, p)
  dispatch-Parts b ts s i event (some (ended x)) f n h e p = (e, p)
  dispatch-Parts b ts s i event (some (running l)) f n h e p = (
    length-round l s.file_data event ∙ e,
    Parts-round 0 b s.file_data ts s.threads i l event e h f n p,
  )

  run-Parts :
      (b : ℕ) (ts : List DownloadTask) (schedule : List (ℕ × Event)) (s : System)
      → Follows schedule s
      → b ≤ length file
      → length s.file_data ≡ length file
      → Parts 0 b s.file_data ts s.threads
      → let s' = run schedule s in
        (length s'.file_data ≡ length file) × Parts 0 b s'.file_data ts s'.threads
  unfolding run
  run-Parts b ts [] s f h e p = (e, p)
  run-Parts b ts ((i, event) ∷ schedule) s (n, f) h e p =
      let (e', p') = dispatch-Parts b ts s i event (get_elem? s.threads i) refl n h e p in
      run-Parts b ts schedule (dispatch s i event (get_elem? s.threads i)) f h e' p'

  starts-Parts :
      (a b : ℕ) (file_data : Bytes) (ts : List DownloadTask)
      → Covers a b ts
      → Parts a b file_data ts (starts ts)
  starts-Parts a b file_data [] c = c
  starts-Parts a b file_data (t ∷ ts) c =
      (c.1, start-HasPart file t file_data, starts-Parts (a + t.size) b file_data ts c.3)

-- Every thread has exited with 0.
abbrev pub Succeeded : List Thread → Type 0
Succeeded [] = Unit {0}
Succeeded (ended (exited zero) ∷ hs) = Succeeded hs
Succeeded (ended (exited (suc n)) ∷ hs) = ⊥
Succeeded (ended undefined ∷ hs) = ⊥
Succeeded (running l ∷ hs) = ⊥

Parts-Agrees :
    (file : Bytes) (a b : ℕ) (file_data : Bytes) (ts : List DownloadTask) (hs : List Thread)
    → Parts file a b file_data ts hs
    → Succeeded hs
    → Agrees a b file_data file
Parts-Agrees file a b file_data [] [] p s = λ k low high. absurd (omega arith)
Parts-Agrees file a b file_data [] (h ∷ hs) p s = absurd p
Parts-Agrees file a b file_data (t ∷ ts) [] p s = absurd p
Parts-Agrees file a b file_data (t ∷ ts) (running l ∷ hs) p s = absurd s
Parts-Agrees file a b file_data (t ∷ ts) (ended undefined ∷ hs) p s = absurd s
Parts-Agrees file a b file_data (t ∷ ts) (ended (exited (suc n)) ∷ hs) p s = absurd s
Parts-Agrees file a b file_data (t ∷ ts) (ended (exited zero) ∷ hs) (at, p, ps) s = λ k low high.
    elim (dec_lt k (a + t.size)) [
      | yes here ↦ p k (omega arith) (omega arith)
      | no later ↦ Parts-Agrees file (a + t.size) b file_data ts hs ps s k (omega arith) high
    ]

-- The threads of tasks that cover the file, run in any order: if every datagram brings a thread what
-- the file holds at its position, and all threads exit with 0, then the shared buffer is the file.
pub run-file :
    (file file_data : Bytes) (ts : List DownloadTask) (schedule : List (ℕ × Event))
    → Covers 0 (length file) ts
    → length file_data ≡ length file
    → Follows file schedule (record { threads = starts ts; file_data = file_data })
    → Succeeded (run schedule (record { threads = starts ts; file_data = file_data })).threads
    → (run schedule (record { threads = starts ts; file_data = file_data })).file_data ≡ file
run-file file file_data ts schedule c e f s =
    let (e', p) =
      run-Parts file (length file) ts schedule
        (record { threads = starts ts; file_data = file_data }) f (omega arith) e
        (starts-Parts file 0 (length file) file_data ts c) in
    get_elem?-ext _ file e' (λ k h. Parts-Agrees file 0 (length file) _ ts _ p s k (omega arith) h)
