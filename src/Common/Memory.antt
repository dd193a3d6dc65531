-- ===== src/Common/Memory.antt =====
-- Blocks of memory as lists: a slice, and the write of a block into a larger one.
use Prim.Native.Nat.{ℕ, zero, suc, ◌+◌, ◌-◌, ◌≤◌, ◌<◌}
use Prim.Native.Nat.add
use mathlib.Core.Path.{◌≡◌, refl, ap, ap₂, sym, ◌∙◌}
use mathlib.Core.Logic.{◌⊎◌}
use mathlib.Core.Option.{some-injective}
use native.Mathlib.Decide.{dec_lt}
use mathlib.Core.List.{List, [], ◌∷◌, ◌++◌}
use native.Mathlib.Omega.{arith}
use network_protocol_cli_too.Common.Lists.{get_elem?, length, take, drop, length-take, length-drop}

module _ {ℓ} {A : Type ℓ} where
  -- `n` entries from index `i` on
  abbrev pub slice : List A → ℕ → ℕ → List A
  slice xs i n = take n (drop i xs)

  -- `memcpy(xs + i, ys, length ys)`; what would lie outside of `xs` is not written.
  unfoldable pub write_at : List A → ℕ → List A → List A
  write_at [] i ys = []
  write_at (x ∷ xs) zero [] = x ∷ xs
  write_at (x ∷ xs) zero (y ∷ ys) = y ∷ write_at xs zero ys
  write_at (x ∷ xs) (suc i) ys = x ∷ write_at xs i ys

  pub length-write_at : (xs : List A) (i : ℕ) (ys : List A) → length (write_at xs i ys) ≡ length xs
  unfolding write_at
  length-write_at [] i ys = refl
  length-write_at (x ∷ xs) zero [] = refl
  length-write_at (x ∷ xs) zero (y ∷ ys) = ap suc (length-write_at xs zero ys)
  length-write_at (x ∷ xs) (suc i) ys = ap suc (length-write_at xs i ys)

  pub write_at-nil : (xs : List A) (i : ℕ) → write_at xs i [] ≡ xs
  unfolding write_at
  write_at-nil [] i = refl
  write_at-nil (x ∷ xs) zero = refl
  write_at-nil (x ∷ xs) (suc i) = ap (◌∷◌ x) (write_at-nil xs i)

  -- Two writes, the second just behind the first, are one.
  pub write_at-append :
      (xs : List A) (i : ℕ) (ys zs : List A)
      → write_at (write_at xs i ys) (i + length ys) zs ≡ write_at xs i (ys ++ zs)
  unfolding write_at
  write_at-append [] i ys zs = refl
  write_at-append (x ∷ xs) zero [] zs = refl
  write_at-append (x ∷ xs) zero (y ∷ ys) zs =
      let e : 0 + suc (length ys) ≡ suc (0 + length ys) = omega arith in
      rw e (ap (◌∷◌ y) (write_at-append xs zero ys zs))
  write_at-append (x ∷ xs) (suc i) ys zs = rw add.suc (ap (◌∷◌ x) (write_at-append xs i ys zs))

  pub write_at_all : (xs ys : List A) → length xs ≡ length ys → write_at xs 0 ys ≡ ys
  unfolding write_at
  write_at_all [] [] e = refl
  write_at_all [] (y ∷ ys) e = absurd (omega arith)
  write_at_all (x ∷ xs) [] e = absurd (omega arith)
  write_at_all (x ∷ xs) (y ∷ ys) e = ap (◌∷◌ y) (write_at_all xs ys (omega arith))

  pub take-nil : (n : ℕ) → take {A = A} n [] ≡ []
  take-nil zero = refl
  take-nil (suc n) = refl

  pub drop-nil : (n : ℕ) → drop {A = A} n [] ≡ []
  drop-nil zero = refl
  drop-nil (suc n) = refl

  pub drop-drop : (m n : ℕ) (xs : List A) → drop m (drop n xs) ≡ drop (n + m) xs
  drop-drop m zero xs = ap (λ k. drop k xs) (omega arith)
  drop-drop m (suc n) [] = rw (add.suc, drop-nil m)
  drop-drop m (suc n) (x ∷ xs) = rw add.suc (drop-drop m n xs)

  pub take-add : (m n : ℕ) (xs : List A) → take (m + n) xs ≡ take m xs ++ take n (drop m xs)
  take-add zero n xs = ap (λ k. take k xs) (omega arith)
  take-add (suc m) n [] = rw (add.suc, take-nil n)
  take-add (suc m) n (x ∷ xs) = rw add.suc (ap (◌∷◌ x) (take-add m n xs))

  pub take_all : (n : ℕ) (xs : List A) → length xs ≤ n → take n xs ≡ xs
  take_all zero [] h = refl
  take_all zero (x ∷ xs) h = absurd (omega arith)
  take_all (suc n) [] h = refl
  take_all (suc n) (x ∷ xs) h = ap (◌∷◌ x) (take_all n xs (omega arith))

  pub take_append : (xs ys : List A) → take (length xs) (xs ++ ys) ≡ xs
  take_append [] ys = refl
  take_append (x ∷ xs) ys = ap (◌∷◌ x) (take_append xs ys)

  pub drop_append : (xs ys : List A) → drop (length xs) (xs ++ ys) ≡ ys
  drop_append [] ys = refl
  drop_append (x ∷ xs) ys = drop_append xs ys

  -- A slice cut in two.
  pub slice-add :
      (xs : List A) (i m n : ℕ) → slice xs i (m + n) ≡ slice xs i m ++ slice xs (i + m) n
  slice-add xs i m n =
      take-add m n (drop i xs) ∙ ap (λ d. take m (drop i xs) ++ take n d) (drop-drop m i xs)

  pub length-slice : (xs : List A) (i n : ℕ) → i + n ≤ length xs → length (slice xs i n) ≡ n
  length-slice xs i n h = omega (arith, length-take n (drop i xs), length-drop i xs)

module _ {ℓ} {A : Type ℓ} where
  pub get_elem?-write_at_out :
      (xs : List A) (i : ℕ) (ys : List A) (k : ℕ)
      → (k < i) ⊎ (i + length ys ≤ k)
      → get_elem? (write_at xs i ys) k ≡ get_elem? xs k
  unfolding write_at
  get_elem?-write_at_out [] i ys k h = refl
  get_elem?-write_at_out (x ∷ xs) zero [] k h = refl
  get_elem?-write_at_out (x ∷ xs) zero (y ∷ ys) zero h = absurd (omega arith)
  get_elem?-write_at_out (x ∷ xs) zero (y ∷ ys) (suc k) h =
      get_elem?-write_at_out xs zero ys k (omega arith)
  get_elem?-write_at_out (x ∷ xs) (suc i) ys zero h = refl
  get_elem?-write_at_out (x ∷ xs) (suc i) ys (suc k) h =
      get_elem?-write_at_out xs i ys k (omega arith)

  pub get_elem?-write_at_in :
      (xs : List A) (i : ℕ) (ys : List A) (j : ℕ)
      → j < length ys
      → i + j < length xs
      → get_elem? (write_at xs i ys) (i + j) ≡ get_elem? ys j
  unfolding write_at
  get_elem?-write_at_in [] i ys j h b = absurd (omega arith)
  get_elem?-write_at_in (x ∷ xs) zero [] j h b = absurd (omega arith)
  get_elem?-write_at_in (x ∷ xs) zero (y ∷ ys) zero h b = refl
  get_elem?-write_at_in (x ∷ xs) zero (y ∷ ys) (suc j) h b =
      let e : 0 + suc j ≡ suc (0 + j) = omega arith in
      rw e (get_elem?-write_at_in xs zero ys j (omega arith) (omega arith))
  get_elem?-write_at_in (x ∷ xs) (suc i) ys j h b =
      rw add.suc (get_elem?-write_at_in xs i ys j h (omega arith))

  pub get_elem?-take :
      (n : ℕ) (xs : List A) (k : ℕ) → k < n → get_elem? (take n xs) k ≡ get_elem? xs k
  get_elem?-take zero xs k h = absurd (omega arith)
  get_elem?-take (suc n) [] k h = refl
  get_elem?-take (suc n) (x ∷ xs) zero h = refl
  get_elem?-take (suc n) (x ∷ xs) (suc k) h = get_elem?-take n xs k (omega arith)

  pub get_elem?-drop :
      (n : ℕ) (xs : List A) (k : ℕ) → get_elem? (drop n xs) k ≡ get_elem? xs (n + k)
  get_elem?-drop zero xs k = ap (get_elem? xs) (omega arith)
  get_elem?-drop (suc n) [] k = refl
  get_elem?-drop (suc n) (x ∷ xs) k = rw add.suc (get_elem?-drop n xs k)

  -- Lists of one length with the same entries are equal.
  pub get_elem?-ext :
      (xs ys : List A)
      → length xs ≡ length ys
      → ((k : ℕ) → k < length ys → get_elem? xs k ≡ get_elem? ys k)
      → xs ≡ ys
  get_elem?-ext [] [] e h = refl
  get_elem?-ext [] (y ∷ ys) e h = absurd (omega arith)
  get_elem?-ext (x ∷ xs) [] e h = absurd (omega arith)
  get_elem?-ext (x ∷ xs) (y ∷ ys) e h =
      ap₂ ◌∷◌ (some-injective x y (h 0 (omega arith)))
        (get_elem?-ext xs ys (omega arith) (λ k b. h (suc k) (omega arith)))

  -- Two blocks of memory that hold the same from index `a` up to `b`.
  abbrev pub Agrees : ℕ → ℕ → List A → List A → Type ℓ
  Agrees a b xs ys = (k : ℕ) → a ≤ k → k < b → get_elem? xs k ≡ get_elem? ys k

  -- A write elsewhere keeps an agreement.
  pub Agrees-write_at_out :
      (a b : ℕ) (xs ys : List A) (i : ℕ) (zs : List A)
      → (b ≤ i) ⊎ (i + length zs ≤ a)
      → Agrees a b xs ys
      → Agrees a b (write_at xs i zs) ys
  Agrees-write_at_out a b xs ys i zs h g k l m =
      get_elem?-write_at_out xs i zs k (omega arith) ∙ g k l m

  -- A write of what belongs there extends one.
  pub Agrees-write_at_in :
      (a i n : ℕ) (xs ys : List A)
      → i + n ≤ length xs
      → length xs ≡ length ys
      → Agrees a i xs ys
      → Agrees a (i + n) (write_at xs i (slice ys i n)) ys
  Agrees-write_at_in a i n xs ys h e g k l m = elim (dec_lt k i) [
    | yes before ↦ get_elem?-write_at_out xs i (slice ys i n) k (omega arith) ∙ g k l before
    | no behind ↦
        let at : i + (k - i) ≡ k = omega arith in
        ap (get_elem? (write_at xs i (slice ys i n))) (sym at)
        ∙ get_elem?-write_at_in xs i (slice ys i n) (k - i)
            (omega (arith, length-slice ys i n (omega arith))) (omega arith)
        ∙ get_elem?-take n (drop i ys) (k - i) (omega arith)
        ∙ get_elem?-drop i ys (k - i)
        ∙ ap (get_elem? ys) at
  ]

-- A `read` into an array or a variable: what comes is written over its content.
abbrev pub into {ℓ} : {A : Type ℓ} → List A → List A → List A
into old got = got ++ drop (length got) old

pub drop_all {ℓ} : {A : Type ℓ} (n : ℕ) (xs : List A) → length xs ≤ n → drop n xs ≡ []
drop_all zero [] h = refl
drop_all zero (x ∷ xs) h = absurd (omega arith)
drop_all (suc n) [] h = refl
drop_all (suc n) (x ∷ xs) h = drop_all n xs (omega arith)
