-- ===== src/Transfer/Output.antt =====
-- The end of `main` of ftp/client.c and of tftp/client.c: the threads are joined, and the buffer is
-- written to `output.dat`.
use network_protocol_cli_too.Common.{
  ℕ, ◌≤◌, ◌<◌, ◌≡◌, refl, ap, ◌∙◌, Bool, true, false, not, ◌||◌, List, [], ◌∷◌, arith, ltb,
  if◌then◌else◌, length, take, take_all, Outcome, ok, fault, ◌>>◌, undefined_if, Bool-cases, inl,
  inr,
}
use network_protocol_cli_too.CString.{Bytes}
use network_protocol_cli_too.Transfer.Plan.{DownloadTask}
use network_protocol_cli_too.Transfer.Plan.Cover.{Covers}

-- The bytes of an `int`
abbrev pub int_size : ℕ
int_size = 4

-- `pthread_join(threads[i], (void **)&thread_status)` for each thread: a pointer is stored in the
-- `int`, which is undefined where a pointer has more bytes. The status is only printed.
unfoldable pub joined : ℕ → List DownloadTask → Outcome (Unit {0})
joined pointer_size [] = ok tt
joined pointer_size (task ∷ tasks) = do
  undefined_if (ltb int_size pointer_size)
  joined pointer_size tasks

-- `fopen`, `fwrite` and `fclose` of `output.dat`, none of which is looked at: without a file `fwrite`
-- is undefined, and of the buffer the first `written` bytes come into the file.
unfoldable pub write_output : Bool → ℕ → Bytes → Outcome Bytes
write_output opened written file_data = do undefined_if (not opened); ok (take written file_data)

-- The end of `main` of ftp/client.c: what `output.dat` holds.
unfoldable pub finish : ℕ → Bool → ℕ → List DownloadTask → Bytes → Outcome Bytes
unfolding joined write_output
finish pointer_size opened written tasks file_data = do
  joined pointer_size tasks
  write_output opened written file_data

-- `pthread_detach` of each thread, which has been joined before. POSIX leaves this undefined; whether
-- the system lets it pass is an argument.
unfoldable pub detached : Bool → List DownloadTask → Outcome (Unit {0})
detached passes [] = ok tt
detached passes (task ∷ tasks) = do undefined_if (not passes); detached passes tasks

-- The end of `main` of tftp/client.c, which also closes the sockets
unfoldable pub finish_detached : ℕ → Bool → Bool → ℕ → List DownloadTask → Bytes → Outcome Bytes
unfolding joined detached write_output
finish_detached pointer_size passes opened written tasks file_data = do
  joined pointer_size tasks
  detached passes tasks
  write_output opened written file_data

joined_narrow :
    (pointer_size : ℕ) (tasks : List DownloadTask)
    → ltb int_size pointer_size ≡ false
    → joined pointer_size tasks ≡ ok tt
unfolding joined
joined_narrow pointer_size [] n = refl
joined_narrow pointer_size (task ∷ tasks) n =
    ap (λ b. undefined_if b >> joined pointer_size tasks) n ∙ joined_narrow pointer_size tasks n

detached_passing : (tasks : List DownloadTask) → detached true tasks ≡ ok tt
unfolding detached
detached_passing [] = refl
detached_passing (task ∷ tasks) = detached_passing tasks

written_whole :
    (written : ℕ) (file file_data : Bytes)
    → length file ≤ written
    → file_data ≡ file
    → write_output true written file_data ≡ ok file
unfolding write_output
written_whole written file file_data w e =
    ap (λ b. ok (take written b)) e ∙ ap ok (take_all written file w)

-- What becomes of the file once the buffer holds it.
pub finish_lem :
    (pointer_size written : ℕ) (tasks : List DownloadTask) (file file_data : Bytes)
    → Covers 0 (length file) tasks
    → 0 < length file
    → length file ≤ written
    → file_data ≡ file
    → finish pointer_size true written tasks file_data
      ≡ (if ltb int_size pointer_size then fault else ok file)
finish_lem pointer_size written [] file file_data c p w e = absurd (omega (arith, c))
finish_lem pointer_size written (task ∷ tasks) file file_data c p w e =
    elim (Bool-cases (ltb int_size pointer_size)) [
      | inl h ↦ unfold finish joined in rw h refl
      | inr h ↦
          unfold finish in
          ap (λ m. m >> write_output true written file_data)
            (joined_narrow pointer_size (task ∷ tasks) h)
          ∙ written_whole written file file_data w e
          ∙ rw h refl
    ]

pub finish_detached_lem :
    (pointer_size written : ℕ) (passes : Bool) (tasks : List DownloadTask) (file file_data : Bytes)
    → Covers 0 (length file) tasks
    → 0 < length file
    → length file ≤ written
    → file_data ≡ file
    → finish_detached pointer_size passes true written tasks file_data
      ≡ (if ltb int_size pointer_size || not passes then fault else ok file)
finish_detached_lem pointer_size written passes [] file file_data c p w e =
    absurd (omega (arith, c))
finish_detached_lem pointer_size written passes (task ∷ tasks) file file_data c p w e =
    elim (Bool-cases (ltb int_size pointer_size)) [
      | inl h ↦ unfold finish_detached joined in rw h refl
      | inr h ↦
          unfold finish_detached in
          ap (λ m. m >> (detached passes (task ∷ tasks) >> write_output true written file_data))
            (joined_narrow pointer_size (task ∷ tasks) h)
          ∙ passing passes
          ∙ rw h refl
    ]
  where
    passing :
        (b : Bool)
        → (detached b (task ∷ tasks) >> write_output true written file_data)
          ≡ (if not b then fault else ok file)
    passing true =
        ap (λ m. m >> write_output true written file_data) (detached_passing (task ∷ tasks))
        ∙ written_whole written file file_data w e
    passing false = unfold detached in refl
