-- ===== src/Irc/Server/Registry.antt =====
-- What keeps the rows of the registry and of the waiting list apart.
use network_protocol_cli_too.Common.{
  ℕ, zero, suc, ◌≤◌, ◌<◌, ◌≡◌, ◌≢◌, ◌⊎◌, inl, inr, refl, sym, ap, ◌∙◌, true, false, List, [], ◌∷◌,
  ◌++◌, map, none, some, arith, ◌==◌, length, take, set, get_elem?, get_elem?-set_self,
  get_elem?-set_ne, Bool-cases,
}
use network_protocol_cli_too.CString.{Bytes, bytes_eq, bytes_eq_iff}
use network_protocol_cli_too.Irc.Server.{
  Client, Server, index_of, remove_row, max_clients, max_waiting,
}

abbrev pub Absent : Bytes → List Bytes → Type 0
Absent x [] = Unit {0}
Absent x (y ∷ ys) = (x ≢ y) × Absent x ys

abbrev pub NoRepeats : List Bytes → Type 0
NoRepeats [] = Unit {0}
NoRepeats (x ∷ xs) = Absent x xs × NoRepeats xs

pub index_of-none :
    (x y : Bytes) (ys : List Bytes)
    → index_of x (y ∷ ys) ≡ none
    → (bytes_eq y x ≡ false) × (index_of x ys ≡ none)
unfolding index_of
index_of-none x y ys h = ground arith

pub index_of-Absent : (x : Bytes) (xs : List Bytes) → index_of x xs ≡ none → Absent x xs
index_of-Absent x [] h = tt
index_of-Absent x (y ∷ ys) h =
    let (other, later) = index_of-none x y ys h in
    (
      λ e. let same : bytes_eq y x ≡ true = (bytes_eq_iff y x).1 (sym e) in cc,
      index_of-Absent x ys later,
    )

Absent-remove_row : (i : ℕ) (x : Bytes) (xs : List Bytes) → Absent x xs → Absent x (remove_row i xs)
unfolding remove_row
Absent-remove_row i x [] a = tt
Absent-remove_row zero x (y ∷ ys) a = a.1
Absent-remove_row (suc i) x (y ∷ ys) a = (a.0, Absent-remove_row i x ys a.1)

pub NoRepeats-remove_row : (i : ℕ) (xs : List Bytes) → NoRepeats xs → NoRepeats (remove_row i xs)
unfolding remove_row
NoRepeats-remove_row i [] r = tt
NoRepeats-remove_row zero (x ∷ xs) r = r.1
NoRepeats-remove_row (suc i) (x ∷ xs) r =
    (Absent-remove_row i x xs r.0, NoRepeats-remove_row i xs r.1)

pub length-remove_row : (i : ℕ) (xs : List Bytes) → length (remove_row i xs) ≤ length xs
unfolding remove_row
length-remove_row i [] = omega arith
length-remove_row zero (x ∷ xs) = omega arith
length-remove_row (suc i) (x ∷ xs) = omega (arith, length-remove_row i xs)

Absent-append : (x y : Bytes) (xs : List Bytes) → Absent x xs → y ≢ x → Absent x (xs ++ (y ∷ []))
Absent-append x y [] a n = (λ e. n (sym e), tt)
Absent-append x y (z ∷ zs) a n = (a.0, Absent-append x y zs a.1 n)

pub NoRepeats-append :
    (x : Bytes) (xs : List Bytes) → Absent x xs → NoRepeats xs → NoRepeats (xs ++ (x ∷ []))
NoRepeats-append x [] a r = (tt, tt)
NoRepeats-append x (y ∷ ys) a r = (Absent-append y x ys r.0 a.0, NoRepeats-append x ys a.1 r.1)

-- No two of the first `n` rows have the same ID.
abbrev pub DistinctIds : ℕ → List Client → Type 0
DistinctIds n cs =
    (i j : ℕ) (a b : Client)
    → i < n
    → j < n
    → get_elem? cs i ≡ some a
    → get_elem? cs j ≡ some b
    → a.id ≡ b.id
    → i ≡ j

-- The arrays have their sizes, each ID is registered once, and no client waits twice.
pub record IsValid (s : Server) : Type 0 where
  pub rows : length s.clients ≡ max_clients
  pub count : s.client_count ≤ max_clients
  pub room : length s.waiting ≤ max_waiting
  pub once : NoRepeats s.waiting
  pub distinct : DistinctIds s.client_count s.clients

pub ids_none :
    (x : Bytes) (n : ℕ) (cs : List Client) (j : ℕ) (b : Client)
    → index_of x (map (λ c. c.id) (take n cs)) ≡ none
    → j < n
    → get_elem? cs j ≡ some b
    → x ≢ b.id
ids_none x n [] j b h l e = cc
ids_none x zero (c ∷ cs) j b h l e = absurd (omega arith)
ids_none x (suc n) (c ∷ cs) zero b h l e =
    let (other, later) = index_of-none x c.id (map (λ c. c.id) (take n cs)) h in
    λ f. let same : bytes_eq c.id x ≡ true = (bytes_eq_iff c.id x).1 cc in cc
ids_none x (suc n) (c ∷ cs) (suc j) b h l e =
    let (other, later) = index_of-none x c.id (map (λ c. c.id) (take n cs)) h in
    ids_none x n cs j b later (omega arith) e

-- What a row holds behind a write of the row `m` to the row `i`.
pub moved_row :
    (cs : List Client) (i m j : ℕ) (c a : Client)
    → j < length cs
    → get_elem? cs m ≡ some c
    → get_elem? (set cs i c) j ≡ some a
    → (k : ℕ) × (get_elem? cs k ≡ some a) × (((j ≡ i) × (k ≡ m)) ⊎ ((j ≢ i) × (k ≡ j)))
moved_row cs i m j c a h e g = elim (Bool-cases (j == i)) [
  | inl t ↦
      let same : j ≡ i = ground arith in
      let row : get_elem? (set cs i c) j ≡ some c =
        ap (λ k. get_elem? (set cs k c) j) (sym same) ∙ get_elem?-set_self cs j c h in
      (m, e ∙ sym row ∙ g, inl (same, refl))
  | inr t ↦
      let other : j ≢ i = ground arith in
      (j, sym (get_elem?-set_ne cs c (λ s. other (sym s))) ∙ g, inr (other, refl))
]

get_elem?_lt : (cs : List Client) (i : ℕ) (a : Client) → get_elem? cs i ≡ some a → i < length cs
get_elem?_lt [] i a e = cc
get_elem?_lt (c ∷ cs) zero a e = omega arith
get_elem?_lt (c ∷ cs) (suc i) a e = omega (arith, get_elem?_lt cs i a e)

-- A row behind a write of the row `i`
written_row :
    (cs : List Client) (i j : ℕ) (c a : Client)
    → i < length cs
    → get_elem? (set cs i c) j ≡ some a
    → ((j ≡ i) × (a ≡ c)) ⊎ ((j ≢ i) × (get_elem? cs j ≡ some a))
written_row cs i j c a h g = elim (Bool-cases (j == i)) [
  | inl t ↦
      let same : j ≡ i = ground arith in
      let row : get_elem? (set cs i c) j ≡ some c =
        ap (get_elem? (set cs i c)) same ∙ get_elem?-set_self cs i c h in
      inl (same, cc)
  | inr t ↦
      let other : j ≢ i = ground arith in
      inr (other, sym (get_elem?-set_ne cs c (λ s. other (sym s))) ∙ g)
]

pub DistinctIds-new :
    (n : ℕ) (cs : List Client) (c : Client)
    → n < length cs
    → index_of c.id (map (λ c. c.id) (take n cs)) ≡ none
    → DistinctIds n cs
    → DistinctIds (suc n) (set cs n c)
DistinctIds-new n cs c h e d i j a b hi hj gi gj same = elim (written_row cs n i c a h gi) [
  | inl (p, q) ↦ elim (written_row cs n j c b h gj) [
    | inl (p', q') ↦ omega arith
    | inr (p', q') ↦ absurd (ids_none c.id n cs j b e (omega arith) q' cc)
  ]
  | inr (p, q) ↦ elim (written_row cs n j c b h gj) [
    | inl (p', q') ↦ absurd (ids_none c.id n cs i a e (omega arith) q cc)
    | inr (p', q') ↦ d i j a b (omega arith) (omega arith) q q' same
  ]
]

-- A write of a row that keeps its ID
kept_id :
    (cs : List Client) (i j : ℕ) (c d a : Client)
    → get_elem? cs i ≡ some c
    → d.id ≡ c.id
    → get_elem? (set cs i d) j ≡ some a
    → (b : Client) × (get_elem? cs j ≡ some b) × (b.id ≡ a.id)
kept_id cs i j c d a g e w = elim (written_row cs i j d a (get_elem?_lt cs i c g) w) [
  | inl (p, q) ↦ (c, ap (get_elem? cs) p ∙ g, sym e ∙ ap (λ r. r.id) (sym q))
  | inr (p, q) ↦ (a, q, refl)
]

pub DistinctIds-kept :
    (n : ℕ) (cs : List Client) (i : ℕ) (c d : Client)
    → get_elem? cs i ≡ some c
    → d.id ≡ c.id
    → DistinctIds n cs
    → DistinctIds n (set cs i d)
DistinctIds-kept n cs i c d g e h j k a b hj hk wj wk same =
    let (a', gj, ej) = kept_id cs i j c d a g e wj in
    let (b', gk, ek) = kept_id cs i k c d b g e wk in h j k a' b' hj hk gj gk (ej ∙ same ∙ sym ek)
