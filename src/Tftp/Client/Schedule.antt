-- ===== src/Tftp/Client/Schedule.antt =====
-- Threads that are all served, under any schedule.
use mathlib.Core.Option.{some-injective}
use native.Mathlib.Decide.{ℕ_discrete}
use network_protocol_cli_too.Common.{
  ℕ, zero, suc, ◌<◌, ◌≡◌, ◌≢◌, refl, sym, ap, subst, ◌∙◌, List, [], ◌∷◌, Option, none, some, arith,
  ◌==◌, if◌then◌else◌, length, get_elem?, set, get_elem?-set_self, get_elem?-set_ne,
}
use network_protocol_cli_too.CString.{Bytes}
use network_protocol_cli_too.Tftp.Client.{
  Event, Loop, Thread, running, ended, System, round, dispatch, run,
}
use network_protocol_cli_too.Tftp.Client.Threads.{IsNextOf, Follows, Succeeded}
use network_protocol_cli_too.Tftp.Client.Serves.{Serves, round-thread}

-- The events of one thread in a schedule
abbrev pub events_of : ℕ → List (ℕ × Event) → List Event
events_of i [] = []
events_of i ((j, event) ∷ schedule) =
    if j == i then event ∷ events_of i schedule else events_of i schedule

events_of_self :
    (i : ℕ) (event : Event) (schedule : List (ℕ × Event))
    → events_of i ((i, event) ∷ schedule) ≡ event ∷ events_of i schedule
events_of_self i event schedule = ground arith

events_of-other :
    (i j : ℕ) (event : Event) (schedule : List (ℕ × Event))
    → i ≢ j
    → events_of j ((i, event) ∷ schedule) ≡ events_of j schedule
events_of-other i j event schedule h = ground arith

get_elem?-bound {ℓ} :
    {A : Type ℓ} (xs : List A) (i : ℕ) (a : A) → get_elem? xs i ≡ some a → i < length xs
get_elem?-bound [] i a e = cc
get_elem?-bound (x ∷ xs) zero a e = omega arith
get_elem?-bound (x ∷ xs) (suc i) a e = omega (arith, get_elem?-bound xs i a e)

module _ (file : Bytes) where
  -- Each thread is served by its events of the schedule.
  abbrev pub AllServe : List Thread → List (ℕ × Event) → Type 0
  AllServe threads schedule =
      (i : ℕ) (t : Thread) → get_elem? threads i ≡ some t → Serves file t (events_of i schedule)

  abbrev Result : List (ℕ × Event) → System → Type 0
  Result schedule s = Follows file schedule s × Succeeded (run schedule s).threads

  -- With no event left, the threads have exited with 0.
  AllServe-Succeeded : (threads : List Thread) → AllServe threads [] → Succeeded threads
  unfolding Serves
  AllServe-Succeeded [] h = tt
  AllServe-Succeeded (t ∷ ts) h =
      subst (λ u. Succeeded (u ∷ ts)) (sym (h 0 t refl))
        (AllServe-Succeeded ts (λ i u e. h (suc i) u e))

  Serves-later :
      (l : Loop) (file_data : Bytes) (event : Event) (events : List Event)
      → Serves file (running l) (event ∷ events)
      → IsNextOf file (some (running l)) event × Serves file (round l file_data event).thread events
  unfolding Serves
  Serves-later l file_data event events (n, s) =
      (n, subst (λ t. Serves file t events) (round-thread l [] file_data event) s)

  Serves-ended :
      (e : Thread) (event : Event) (events : List Event)
      → ((l : Loop) → e ≢ running l)
      → Serves file e (event ∷ events)
      → Serves file e events
  unfolding Serves
  Serves-ended (running l) event events h s = absurd (h l refl)
  Serves-ended (ended e) event events h s = s

  -- The events of another thread stay what they were.
  AllServe-other :
      (i j : ℕ) (event : Event) (schedule : List (ℕ × Event)) (t : Thread)
      → i ≢ j
      → Serves file t (events_of j ((i, event) ∷ schedule))
      → Serves file t (events_of j schedule)
  AllServe-other i j event schedule t h =
      subst (Serves file t) (events_of-other i j event schedule h)

  AllServe-self :
      (i : ℕ) (event : Event) (schedule : List (ℕ × Event)) (threads : List Thread) (t : Thread)
      → AllServe threads ((i, event) ∷ schedule)
      → get_elem? threads i ≡ some t
      → Serves file t (event ∷ events_of i schedule)
  AllServe-self i event schedule threads t h e =
      subst (Serves file t) (events_of_self i event schedule) (h i t e)

  -- A thread of which the round left alone what it had.
  AllServe-keep :
      (threads : List Thread) (i : ℕ) (event : Event) (schedule : List (ℕ × Event))
      → ((t : Thread) → get_elem? threads i ≡ some t → Serves file t (events_of i schedule))
      → AllServe threads ((i, event) ∷ schedule)
      → AllServe threads schedule
  AllServe-keep threads i event schedule mine h j t e = elim (ℕ_discrete i j) [
    | yes same ↦
        subst (λ k. Serves file t (events_of k schedule)) same
          (mine t (ap (get_elem? threads) same ∙ e))
    | no other ↦ AllServe-other i j event schedule t other (h j t e)
  ]

  AllServe-set :
      (threads : List Thread) (i : ℕ) (event : Event) (schedule : List (ℕ × Event)) (u : Thread)
      → i < length threads
      → Serves file u (events_of i schedule)
      → AllServe threads ((i, event) ∷ schedule)
      → AllServe (set threads i u) schedule
  AllServe-set threads i event schedule u b s h j t e = elim (ℕ_discrete i j) [
    | yes same ↦
        subst (λ k. Serves file t (events_of k schedule)) same
          (subst (λ v. Serves file v (events_of i schedule))
            (some-injective u t
              (sym (get_elem?-set_self threads i u b) ∙ ap (get_elem? (set threads i u)) same ∙ e))
            s)
    | no other ↦
        AllServe-other i j event schedule t other
          (h j t (sym (get_elem?-set_ne threads u other) ∙ e))
  ]

  dispatch-AllServe :
      (s : System) (i : ℕ) (event : Event) (schedule : List (ℕ × Event)) (o : Option Thread)
      → get_elem? s.threads i ≡ o
      → AllServe s.threads ((i, event) ∷ schedule)
      → IsNextOf file o event × AllServe (dispatch s i event o).threads schedule
  unfolding dispatch
  dispatch-AllServe s i event schedule none e h =
      (tt, AllServe-keep s.threads i event schedule (λ t f. cc) h)
  dispatch-AllServe s i event schedule (some (ended x)) e h = (
    tt,
    AllServe-keep s.threads i event schedule
        (λ t f.
          Serves-ended t event (events_of i schedule) (λ l g. cc)
            (AllServe-self i event schedule s.threads t h f))
        h,
  )
  dispatch-AllServe s i event schedule (some (running l)) e h =
      let (next, later) =
        Serves-later l s.file_data event (events_of i schedule)
          (AllServe-self i event schedule s.threads (running l) h e) in
      (
        next,
        AllServe-set s.threads i event schedule (round l s.file_data event).thread
            (get_elem?-bound s.threads i (running l) e) later h,
      )

  -- Threads that are all served follow the file, and have all exited with 0 at the end of the
  -- schedule.
  pub run-AllServe :
      (schedule : List (ℕ × Event)) (s : System)
      → AllServe s.threads schedule
      → Follows file schedule s × Succeeded (run schedule s).threads
  unfolding run
  run-AllServe [] s h = (tt, AllServe-Succeeded s.threads h)
  run-AllServe ((i, event) ∷ schedule) s h =
      let (next, later) = dispatch-AllServe s i event schedule (get_elem? s.threads i) refl h in
      let (follows, succeeded) =
        run-AllServe schedule (dispatch s i event (get_elem? s.threads i)) later in
      ((next, follows), succeeded)
