-- ===== src/Tftp/AckQueue/Refine.antt =====
-- The array of five slots beside a bounded list of acknowledgements, oldest first.
use Prim.Native.Nat.add
use network_protocol_cli_too.Common.{
  ℕ, zero, suc, ◌+◌, ◌≤◌, ◌<◌, ◌≡◌, refl, sym, ap, ◌∙◌, Bool, true, false, List, [], ◌∷◌, ◌++◌,
  Option, none, some, ltb, if◌then◌else◌, get_elem?, set, take, drop, slice, length, arith,
  length-set, Bool-cases, Option-cases, inl, inr, append_assoc, length-take, length-append,
  length-slice, length-drop, take_append,
}
use network_protocol_cli_too.Tftp.AckQueue.{
  AckPacket, AckQueue, max_queue_size, enqueue, matches, found_at, find_ack, move_down, remove_ack,
  removed, take_ack,
}

pub record IsValid (q : AckQueue) : Type 0 where
  pub storage : length q.slots ≡ max_queue_size
  pub bounded : q.size ≤ max_queue_size

-- The acknowledgements that wait
abbrev pub pending : AckQueue → List AckPacket
pending q = take q.size q.slots

-- The specification: a list without its first entry that matches, and whether there is one.
unfoldable pub take_first : ℕ → ℕ → List AckPacket → Bool × List AckPacket
take_first seq_num client_addr [] = (false, [])
take_first seq_num client_addr (a ∷ rest) =
    let (found, others) = take_first seq_num client_addr rest in
    if matches seq_num client_addr a then (true, rest) else (found, a ∷ others)

slice-cons {ℓ} :
    {A : Type ℓ} (xs : List A) (i n : ℕ) (a : A)
    → get_elem? xs i ≡ some a
    → slice xs i (suc n) ≡ a ∷ slice xs (i + 1) n
slice-cons [] i n a e = cc
slice-cons (x ∷ xs) zero n a e = ap (λ y. y ∷ take n xs) (ground arith)
slice-cons (x ∷ xs) (suc i) n a e = rw add.suc (slice-cons xs i n a e)

get_elem?-none {ℓ} : {A : Type ℓ} (xs : List A) (i : ℕ) → get_elem? xs i ≡ none → length xs ≤ i
get_elem?-none [] i e = omega arith
get_elem?-none (x ∷ xs) zero e = cc
get_elem?-none (x ∷ xs) (suc i) e = omega (arith, get_elem?-none xs i e)

length-move_down :
    (slots : List AckPacket) (k m : ℕ)
    → k + suc m ≤ length slots
    → length (move_down slots k m) ≡ length slots
unfolding move_down
length-move_down slots k m h = omega (
  arith,
  length-append (take k slots) (slice slots (k + 1) m ++ drop (k + m) slots),
  length-append (slice slots (k + 1) m) (drop (k + m) slots),
  length-take k slots,
  length-slice slots (k + 1) m (omega arith),
  length-drop (k + m) slots,
)

take-move_down :
    (slots : List AckPacket) (k m : ℕ)
    → k + suc m ≤ length slots
    → take (k + m) (move_down slots k m) ≡ take k slots ++ slice slots (k + 1) m
unfolding move_down
take-move_down slots k m h =
    ap (take (k + m))
      (sym (append_assoc (take k slots) (slice slots (k + 1) m) (drop (k + m) slots)))
    ∙ ap (λ n. take n (kept ++ drop (k + m) slots)) (sym size)
    ∙ take_append kept (drop (k + m) slots)
  where
    kept : List AckPacket
    kept = take k slots ++ slice slots (k + 1) m

    size : length kept ≡ k + m
    size = omega (
      arith,
      length-append (take k slots) (slice slots (k + 1) m),
      length-take k slots,
      length-slice slots (k + 1) m (omega arith),
    )

module _ (q : AckQueue) (i k m : ℕ) (at : i ≡ 0 + k) (behind : q.size ≡ k + suc m) where
  -- The queue without slot `k`
  abbrev remaining : AckQueue
  remaining = record { slots = move_down q.slots k m; size = k + m }

  remove_ack-remaining : remove_ack q i ≡ remaining
  unfolding remove_ack
  remove_ack-remaining = rw (index, behind) (ground arith)
    where
      index : i ≡ k
      index = omega arith

  remove_ack_lem :
      q.size ≤ length q.slots → pending (remove_ack q i) ≡ take k q.slots ++ slice q.slots (i + 1) m
  remove_ack_lem h =
      ap pending remove_ack-remaining
      ∙ take-move_down q.slots k m (omega arith)
      ∙ ap (λ j. take k q.slots ++ slice q.slots (j + 1) m) (omega arith)

  remove_ack-IsValid : IsValid q → IsValid (remove_ack q i)
  remove_ack-IsValid v = rw remove_ack-remaining (record {
    storage = length-move_down q.slots k m (omega (arith, v.storage, v.bounded)) ∙ v.storage;
    bounded = omega (arith, v.bounded);
  })

module _ (seq_num client_addr : ℕ) where
  -- What the search from slot `i` on says of the `rounds` slots there.
  abbrev Found : List AckPacket → ℕ → ℕ → Option ℕ → Type 0
  Found slots i rounds none =
      take_first seq_num client_addr (slice slots i rounds) ≡ (false, slice slots i rounds)
  Found slots i rounds (some j) =
      (k : ℕ) × (m : ℕ) × (j ≡ i + k)
      × (rounds ≡ k + suc m)
      × (take_first seq_num client_addr (slice slots i rounds)
          ≡ (true, slice slots i k ++ slice slots (j + 1) m))

  take_first_hit :
      (a : AckPacket) (rest : List AckPacket)
      → matches seq_num client_addr a ≡ true
      → take_first seq_num client_addr (a ∷ rest) ≡ (true, rest)
  unfolding take_first
  take_first_hit a rest h = rw h

  take_first_miss :
      (a : AckPacket) (rest others : List AckPacket) (found : Bool)
      → matches seq_num client_addr a ≡ false
      → take_first seq_num client_addr rest ≡ (found, others)
      → take_first seq_num client_addr (a ∷ rest) ≡ (found, a ∷ others)
  unfolding take_first
  take_first_miss a rest others found h e = rw (h, e)

  Found-later :
      (slots : List AckPacket) (i rounds : ℕ) (a : AckPacket) (o : Option ℕ)
      → get_elem? slots i ≡ some a
      → matches seq_num client_addr a ≡ false
      → Found slots (i + 1) rounds o
      → Found slots i (suc rounds) o
  Found-later slots i rounds a none e h f =
      ap (take_first seq_num client_addr) (slice-cons slots i rounds a e)
      ∙ take_first_miss a _ _ false h f
      ∙ ap (λ s. (false, s)) (sym (slice-cons slots i rounds a e))
  Found-later slots i rounds a (some j) e h (k, m, at, r, f) = (
    suc k,
    m,
    omega arith,
    omega arith,
    ap (take_first seq_num client_addr) (slice-cons slots i rounds a e)
        ∙ take_first_miss a _ _ true h f
        ∙ ap (λ s. (true, s ++ slice slots (j + 1) m)) (sym (slice-cons slots i k a e)),
  )

  Found-here :
      (slots : List AckPacket) (i rounds : ℕ) (a : AckPacket)
      → get_elem? slots i ≡ some a
      → matches seq_num client_addr a ≡ true
      → Found slots i (suc rounds) (some i)
  Found-here slots i rounds a e h = (
    0,
    rounds,
    omega arith,
    omega arith,
    ap (take_first seq_num client_addr) (slice-cons slots i rounds a e) ∙ take_first_hit a _ h,
  )

  find_ack_hit :
      (slots : List AckPacket) (i rounds : ℕ) (a : AckPacket)
      → get_elem? slots i ≡ some a
      → matches seq_num client_addr a ≡ true
      → find_ack seq_num client_addr slots (suc rounds) i ≡ some i
  unfolding find_ack
  find_ack_hit slots i rounds a e h =
      ap (found_at seq_num client_addr i (find_ack seq_num client_addr slots rounds (i + 1))) e
      ∙ rw h

  find_ack_miss :
      (slots : List AckPacket) (i rounds : ℕ) (a : AckPacket)
      → get_elem? slots i ≡ some a
      → matches seq_num client_addr a ≡ false
      → find_ack seq_num client_addr slots (suc rounds) i
        ≡ find_ack seq_num client_addr slots rounds (i + 1)
  unfolding find_ack
  find_ack_miss slots i rounds a e h =
      ap (found_at seq_num client_addr i (find_ack seq_num client_addr slots rounds (i + 1))) e
      ∙ rw h

  find_ack-Found :
      (slots : List AckPacket) (rounds i : ℕ)
      → i + rounds ≤ length slots
      → Found slots i rounds (find_ack seq_num client_addr slots rounds i)
  find_ack-Found slots zero i h = unfold find_ack take_first in refl
  find_ack-Found slots (suc rounds) i h = elim (Option-cases (get_elem? slots i)) [
    | inl e ↦ absurd (omega (arith, get_elem?-none slots i e))
    | inr (a, e) ↦ elim (Bool-cases (matches seq_num client_addr a)) [
      | inl hit ↦ rw (find_ack_hit slots i rounds a e hit) (Found-here slots i rounds a e hit)
      | inr miss ↦ rw (find_ack_miss slots i rounds a e miss) (
          Found-later slots i rounds a _ e miss (find_ack-Found slots rounds (i + 1) (omega arith)))
    ]
  ]

  removed-refines :
      (q : AckQueue) (o : Option ℕ)
      → IsValid q
      → Found q.slots 0 q.size o
      → let (found, q') = removed q o in
        ((found, pending q') ≡ take_first seq_num client_addr (pending q)) × IsValid q'
  unfolding removed
  removed-refines q none v f = (sym f, v)
  removed-refines q (some i) v (k, m, at, r, f) =
      let kept : pending (remove_ack q i) ≡ take k q.slots ++ slice q.slots (i + 1) m =
        remove_ack_lem q i k m at r (omega (arith, v.storage, v.bounded)) in
      (ap (λ s. (true, s)) kept ∙ sym f, remove_ack-IsValid q i k m at r v)

  -- One look through the array of a queue in order finds the first acknowledgement that matches,
  -- takes it out, keeps the others in their order, and keeps the invariant; if none matches, it
  -- changes nothing.
  pub take_ack-refines :
      (q : AckQueue)
      → IsValid q
      → let (found, q') = take_ack seq_num client_addr q in
        ((found, pending q') ≡ take_first seq_num client_addr (pending q)) × IsValid q'
  unfolding take_ack
  take_ack-refines q v =
      removed-refines q _ v (find_ack-Found q.slots q.size 0 (omega (arith, v.storage, v.bounded)))

take-set :
    (slots : List AckPacket) (n : ℕ) (a : AckPacket)
    → n < length slots
    → take (n + 1) (set slots n a) ≡ take n slots ++ (a ∷ [])
take-set [] n a h = absurd (omega arith)
take-set (x ∷ slots) zero a h = refl
take-set (x ∷ slots) (suc n) a h = rw add.suc (ap (◌∷◌ x) (take-set slots n a (omega arith)))

-- An acknowledgement that arrives at a queue in order goes to its end and wakes the threads while
-- fewer than five wait; else it is dropped and nobody is woken. Both ways the invariant holds.
pub enqueue-refines :
    (q : AckQueue) (a : AckPacket)
    → IsValid q
    → let (q', woken) = enqueue q a in
      (woken ≡ ltb (length (pending q)) max_queue_size)
      × (pending q' ≡ (if woken then pending q ++ (a ∷ []) else pending q))
      × IsValid q'
unfolding enqueue
enqueue-refines q a v =
    ground
      (arith, take-set q.slots q.size a, length-set q.slots q.size a, length-take q.size q.slots)
