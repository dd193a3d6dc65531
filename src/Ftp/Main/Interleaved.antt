-- ===== src/Ftp/Main/Interleaved.antt =====
-- The threads of ftp/client.c in any order, one `recv` after the other.
use native.Mathlib.Decide.{dec_lt}
use network_protocol_cli_too.Common.{
  ℕ, ◌+◌, ◌-◌, ◌≤◌, ◌<◌, ◌≡◌, inl, inr, refl, sym, ap, subst, ◌∙◌, List, [], ◌∷◌, arith, length,
  write_at, length-write_at, get_elem?, get_elem?-write_at_out, get_elem?-write_at_in,
  get_elem?-ext,
}
use network_protocol_cli_too.CString.{Bytes}
use network_protocol_cli_too.Transfer.Plan.{DownloadTask}
use network_protocol_cli_too.Transfer.Plan.Cover.{Covers}
use network_protocol_cli_too.Transfer.Plan.Assemble.{Covers-le}
use network_protocol_cli_too.Ftp.Client.{Peer, download_chunk}
use network_protocol_cli_too.Ftp.Client.Writes.{
  Write, apply_all, AllWithin, thread_writes, download_chunk-apply_all, thread_writes-AllWithin,
}
use network_protocol_cli_too.Ftp.Main.{run_threads}

-- An order of the writes of two threads, each of which keeps its own order.
pub data Shuffle : List Write → List Write → List Write → Type 0 where
  done : Shuffle [] [] []
  first : {xs ys zs : List Write} (x : Write) → Shuffle xs ys zs → Shuffle (x ∷ xs) ys (x ∷ zs)
  second : {xs ys zs : List Write} (y : Write) → Shuffle xs ys zs → Shuffle xs (y ∷ ys) (y ∷ zs)

-- An order of the writes of all threads
abbrev pub Interleaves : List Peer → List DownloadTask → List Write → Type 0
Interleaves [] tasks zs = zs ≡ []
Interleaves (peer ∷ peers) [] zs = zs ≡ []
Interleaves (peer ∷ peers) (task ∷ tasks) zs =
    (ys : List Write) × Interleaves peers tasks ys × Shuffle (thread_writes peer task) ys zs

-- Two writes that lie apart, at a place of the first one
commute_at :
    (xs us vs : Bytes) (i j k : ℕ)
    → i + length us ≤ j
    → k < length xs
    → get_elem? (write_at (write_at xs i us) j vs) k
      ≡ get_elem? (write_at (write_at xs j vs) i us) k
commute_at xs us vs i j k h b = elim (dec_lt k j) [
  | no behind ↦ elim (dec_lt k (j + length vs)) [
    | no later ↦
        get_elem?-write_at_out (write_at xs i us) j vs k (inr (omega arith))
        ∙ get_elem?-write_at_out xs i us k (inr (omega arith))
        ∙ sym (get_elem?-write_at_out xs j vs k (inr (omega arith)))
        ∙ sym (get_elem?-write_at_out (write_at xs j vs) i us k (inr (omega arith)))
    | yes inside ↦
        let at : j + (k - j) ≡ k = omega arith in
        ap (get_elem? (write_at (write_at xs i us) j vs)) (sym at)
        ∙ get_elem?-write_at_in (write_at xs i us) j vs (k - j) (omega arith)
            (omega (arith, length-write_at xs i us))
        ∙ sym (get_elem?-write_at_in xs j vs (k - j) (omega arith) (omega arith))
        ∙ ap (get_elem? (write_at xs j vs)) at
        ∙ sym (get_elem?-write_at_out (write_at xs j vs) i us k (inr (omega arith)))
  ]
  | yes before ↦
      get_elem?-write_at_out (write_at xs i us) j vs k (inl before) ∙ (elim (dec_lt k i) [
        | yes front ↦
            get_elem?-write_at_out xs i us k (inl front)
            ∙ sym (get_elem?-write_at_out xs j vs k (inl before))
            ∙ sym (get_elem?-write_at_out (write_at xs j vs) i us k (inl front))
        | no at_least ↦ elim (dec_lt k (i + length us)) [
          | no between ↦
              get_elem?-write_at_out xs i us k (inr (omega arith))
              ∙ sym (get_elem?-write_at_out xs j vs k (inl before))
              ∙ sym (get_elem?-write_at_out (write_at xs j vs) i us k (inr (omega arith)))
          | yes inside ↦
              let at : i + (k - i) ≡ k = omega arith in
              ap (get_elem? (write_at xs i us)) (sym at)
              ∙ get_elem?-write_at_in xs i us (k - i) (omega arith) (omega arith)
              ∙ sym (
                  get_elem?-write_at_in (write_at xs j vs) i us (k - i) (omega arith)
                    (omega (arith, length-write_at xs j vs)))
              ∙ ap (get_elem? (write_at (write_at xs j vs) i us)) at
        ]
      ])
]

-- Writes that lie apart can be made in either order.
write_at-write_at :
    (xs us vs : Bytes) (i j : ℕ)
    → i + length us ≤ j
    → write_at (write_at xs i us) j vs ≡ write_at (write_at xs j vs) i us
write_at-write_at xs us vs i j h =
    get_elem?-ext _ _ (len (write_at xs i us) j vs ∙ len xs i us ∙ sym (whole))
      (λ k b. commute_at xs us vs i j k h (omega (arith, whole)))
  where
    len : (s : Bytes) (n : ℕ) (t : Bytes) → length (write_at s n t) ≡ length s
    len s n t = length-write_at s n t

    whole : length (write_at (write_at xs j vs) i us) ≡ length xs
    whole = len (write_at xs j vs) i us ∙ len xs j vs

-- A write behind all of the others can be made before them.
apply_all-write_at :
    (b c : ℕ) (ws : List Write) (position : ℕ) (bytes file_data : Bytes)
    → AllWithin b c ws
    → c ≤ position
    → apply_all ws (write_at file_data position bytes)
      ≡ write_at (apply_all ws file_data) position bytes
apply_all-write_at b c [] position bytes file_data a h = refl
apply_all-write_at b c ((i, us) ∷ ws) position bytes file_data a h =
    ap (apply_all ws) (sym (write_at-write_at file_data us bytes i position (omega (arith, a.1))))
    ∙ apply_all-write_at b c ws position bytes (write_at file_data i us) a.2 h

-- The writes of two threads, of which the first one has its part before the other's: in whatever
-- order they come, they leave what the first thread and then the second one leaves.
Shuffle-apply_all :
    {xs ys zs : List Write} (a b c : ℕ) (file_data : Bytes)
    → Shuffle xs ys zs
    → AllWithin a b xs
    → AllWithin b c ys
    → apply_all zs file_data ≡ apply_all ys (apply_all xs file_data)
Shuffle-apply_all a b c file_data done v w = refl
Shuffle-apply_all a b c file_data (first x s) v w =
    Shuffle-apply_all a b c (write_at file_data x.0 x.1) s v.2 w
Shuffle-apply_all a b c file_data (second {xs} {ys} {zs} y s) v w =
    Shuffle-apply_all a b c (write_at file_data y.0 y.1) s v w.2
    ∙ ap (apply_all ys) (apply_all-write_at a b xs y.0 y.1 file_data v w.0)

AllWithin-append :
    {xs ys zs : List Write} (a b c : ℕ)
    → Shuffle xs ys zs
    → a ≤ b
    → b ≤ c
    → AllWithin a b xs
    → AllWithin b c ys
    → AllWithin a c zs
AllWithin-append a b c done h k v w = tt
AllWithin-append a b c (first x s) h k v w =
    (v.0, omega (arith, v.1), AllWithin-append a b c s h k v.2 w)
AllWithin-append a b c (second y s) h k v w =
    (omega (arith, w.0), w.1, AllWithin-append a b c s h k v w.2)

-- A thread's writes lie in the part that the plan gives it.
task_within :
    (a : ℕ) (peer : Peer) (task : DownloadTask)
    → task.output ≡ a
    → AllWithin a (a + task.size) (thread_writes peer task)
task_within a peer task e =
    subst (λ n. AllWithin n (n + task.size) (thread_writes peer task)) e
      (thread_writes-AllWithin peer task)

Interleaves-AllWithin :
    (peers : List Peer) (tasks : List DownloadTask) (a b : ℕ) (zs : List Write)
    → Covers a b tasks
    → Interleaves peers tasks zs
    → AllWithin a b zs
Interleaves-AllWithin [] tasks a b zs c i = subst (AllWithin a b) (sym i) tt
Interleaves-AllWithin (peer ∷ peers) [] a b zs c i = subst (AllWithin a b) (sym i) tt
Interleaves-AllWithin (peer ∷ peers) (task ∷ tasks) a b zs c (ys, i, s) =
    AllWithin-append a (a + task.size) b s (omega arith) (Covers-le (a + task.size) b tasks c.3)
      (task_within a peer task c.1) (Interleaves-AllWithin peers tasks (a + task.size) b ys c.3 i)

-- If the tasks cover a part of the buffer, one behind the other, then the writes of the threads leave
-- in the buffer, in whatever order they come, what the threads leave that run one after the other.
pub run_threads-Interleaves :
    (peers : List Peer) (tasks : List DownloadTask) (a b : ℕ) (zs : List Write) (file_data : Bytes)
    → Covers a b tasks
    → Interleaves peers tasks zs
    → apply_all zs file_data ≡ run_threads peers tasks file_data
unfolding run_threads
run_threads-Interleaves [] tasks a b zs file_data c i = ap (λ ws. apply_all ws file_data) i
run_threads-Interleaves (peer ∷ peers) [] a b zs file_data c i = ap (λ ws. apply_all ws file_data) i
run_threads-Interleaves (peer ∷ peers) (task ∷ tasks) a b zs file_data c (ys, i, s) =
    Shuffle-apply_all a (a + task.size) b file_data s (task_within a peer task c.1)
      (Interleaves-AllWithin peers tasks (a + task.size) b ys c.3 i)
    ∙ ap (apply_all ys) (sym (download_chunk-apply_all peer task file_data))
    ∙ run_threads-Interleaves peers tasks (a + task.size) b ys
        (download_chunk peer task file_data).file_data c.3 i
