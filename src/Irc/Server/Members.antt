-- ===== src/Irc/Server/Members.antt =====
-- The registry of irc/server.c as its callers see it: who is there, in no order. A client that leaves
-- is replaced by the last row, so that the rows change their order.
pub mod Changes
use mathlib.Core.Quot
use mathlib.Core.Quot.{Quot, Quot-set}
use mathlib.Core.List.{Perm, perm_append_singleton}
use mathlib.Core.List.Perm
use mathlib.Core.Option.{some-injective}
use network_protocol_cli_too.Common.{
  ℕ, zero, suc, ◌+◌, ◌-◌, ◌≤◌, ◌<◌, ◌≡◌, ◌≢◌, ◌⊎◌, inl, inr, refl, sym, ap, subst, ◌∙◌, Bool, true,
  false, not, List, [], ◌∷◌, ◌++◌, map, Option, none, some, arith, ltb, ◌==◌, if◌then◌else◌, length,
  take, set, get_elem?, get_elem?-set_self, get_elem?-some, Outcome, ok, ◌>>=◌, ◌>>◌, undefined_if,
  Bool-cases, Option-cases,
}
use network_protocol_cli_too.CString.{Bytes, codes}
use network_protocol_cli_too.Irc.Server.{
  Client, Server, Reply, socket_row, drop_row, disconnect, enter, register, max_clients,
}
use network_protocol_cli_too.Irc.Server.Registry.{IsValid}

-- A member: the ID and the socket
abbrev pub Member : Type 0
Member = Bytes × ℕ

abbrev member : Client → Member
member c = (c.id, c.socket)

abbrev rows : Server → List Client
rows s = take s.client_count s.clients

-- Members without an order
abbrev pub Members : Type 0
Members = Quot (Perm {A = Member})

abbrev pub members : Server → Members
members s = Quot.mk (map member (rows s))

-- One member more
pub with_member : Member → Members → Members
with_member m = Quot.lift Quot-set (λ xs. Quot.mk (m ∷ xs)) (λ xs ys p. Quot.sound (Perm.cons m p))

take-last :
    (n : ℕ) (cs : List Client) (c : Client)
    → get_elem? cs n ≡ some c
    → take (suc n) cs ≡ take n cs ++ (c ∷ [])
take-last n [] c e = cc
take-last zero (x ∷ cs) c e = ap (λ y. y ∷ []) (ground arith)
take-last (suc n) (x ∷ cs) c e = ap (◌∷◌ x) (take-last n cs c e)

take-set_ge : (n i : ℕ) (cs : List Client) (c : Client) → n ≤ i → take n (set cs i c) ≡ take n cs
take-set_ge zero i cs c h = refl
take-set_ge (suc n) i [] c h = refl
take-set_ge (suc n) zero (x ∷ cs) c h = absurd (omega arith)
take-set_ge (suc n) (suc i) (x ∷ cs) c h = ap (◌∷◌ x) (take-set_ge n i cs c (omega arith))

none≢some : {c : Client} → none ≡ some c → ⊥
none≢some e = cc

-- The row `i` goes, and the last row comes into its place.
replaced :
    (n i : ℕ) (cs : List Client) (c last : Client)
    → i < n
    → get_elem? cs i ≡ some c
    → Perm (take n cs ++ (last ∷ [])) (c ∷ take n (set cs i last))
replaced zero i cs c last h e = absurd (omega arith)
replaced (suc n) i [] c last h e = cc
replaced (suc n) zero (x ∷ cs) c last h e =
    subst (λ d. Perm (x ∷ (take n cs ++ (last ∷ []))) (d ∷ last ∷ take n cs)) (some-injective x c e)
      (Perm.cons x (perm_append_singleton last (take n cs)))
replaced (suc n) (suc i) (x ∷ cs) c last h e =
    Perm.trans (Perm.cons x (replaced n i cs c last (omega arith) e))
      (Perm.swap c x (take n (set cs i last)))

-- `clients[i] = clients[client_count - 1]; client_count--;` takes the row `i` away.
dropped :
    (n i : ℕ) (cs : List Client) (c last : Client)
    → i < n
    → get_elem? cs i ≡ some c
    → get_elem? cs (n - 1) ≡ some last
    → Perm (take n cs) (c ∷ take (n - 1) (set cs i last))
dropped zero i cs c last h e l = absurd (omega arith)
dropped (suc n) i cs c last h e l =
    subst (λ k. Perm (take (suc n) cs) (c ∷ take k (set cs i last))) (omega arith)
      (subst (λ xs. Perm xs (c ∷ take n (set cs i last))) (sym (take-last n cs last at)) both)
  where
    at : get_elem? cs n ≡ some last
    at = ap (get_elem? cs) (omega arith) ∙ l

    both : Perm (take n cs ++ (last ∷ [])) (c ∷ take n (set cs i last))
    both = elim (Bool-cases (i == n)) [
      | inl e' ↦
          let here : n ≤ i = ground arith in
          let own : last ≡ c =
            some-injective last c (sym at ∙ ap (get_elem? cs) (ground arith) ∙ e) in
          subst (λ xs. Perm (take n cs ++ (last ∷ [])) (c ∷ xs))
            (sym (take-set_ge n i cs last here))
            (subst (λ d. Perm (take n cs ++ (last ∷ [])) (d ∷ take n cs)) own
              (perm_append_singleton last (take n cs)))
      | inr e' ↦ replaced n i cs c last (ground arith) e
    ]

-- A new row at the end
appended :
    (n : ℕ) (cs : List Client) (c : Client)
    → n < length cs
    → Perm (take (suc n) (set cs n c)) (c ∷ take n cs)
appended n cs c h =
    subst (λ xs. Perm xs (c ∷ take n cs))
      (sym (
        take-last n (set cs n c) c (get_elem?-set_self cs n c h)
        ∙ ap (λ xs. xs ++ (c ∷ [])) (take-set_ge n n cs c (omega arith))))
      (perm_append_singleton c (take n cs))

-- Rows that are one more, in whatever order, are one member more.
members-with_member :
    (s t : Server) (c : Client)
    → Perm (rows s) (c ∷ rows t)
    → members s ≡ with_member (member c) (members t)
unfolding with_member
members-with_member s t c p = Quot.sound (Perm.map member p)

-- A row below `n` that holds the socket
abbrev IsRowOf : ℕ → ℕ → List Client → ℕ → Type 0
IsRowOf socket n cs i = (i < n) × ((c : Client) × (get_elem? cs i ≡ some c) × (c.socket ≡ socket))

socket_row-some :
    (socket n : ℕ) (cs : List Client) (i : ℕ)
    → socket_row socket n cs ≡ some i
    → IsRowOf socket n cs i
unfolding socket_row
socket_row-some socket zero cs i e = cc
socket_row-some socket (suc n) [] i e = cc
socket_row-some socket (suc n) (c ∷ cs) i e = elim (Bool-cases (c.socket == socket)) [
  | inl h ↦
      let at : 0 ≡ i = ground arith in
      subst (IsRowOf socket (suc n) (c ∷ cs)) at (omega arith, (c, refl, ground arith))
  | inr h ↦ elim (Option-cases (socket_row socket n cs)) [
    | inl later ↦ absurd (ground arith)
    | inr (k, later) ↦
        let (below, row) = socket_row-some socket n cs k later in
        let next : suc k ≡ i = ground arith in
        subst (IsRowOf socket (suc n) (c ∷ cs)) next (omega arith, row)
  ]
]

-- No row that is used holds the socket.
abbrev pub IsAbsent : ℕ → Server → Type 0
IsAbsent socket s =
    (i : ℕ) (c : Client) → i < s.client_count → get_elem? s.clients i ≡ some c → c.socket ≢ socket

socket_row-none :
    (socket n : ℕ) (cs : List Client) (i : ℕ) (c : Client)
    → socket_row socket n cs ≡ none
    → i < n
    → get_elem? cs i ≡ some c
    → c.socket ≢ socket
unfolding socket_row
socket_row-none socket zero cs i c e h g = absurd (omega arith)
socket_row-none socket (suc n) [] i c e h g = cc
socket_row-none socket (suc n) (x ∷ cs) zero c e h g = ground arith
socket_row-none socket (suc n) (x ∷ cs) (suc i) c e h g =
    socket_row-none socket n cs i c (ground arith) (omega arith) g

drop_row-members :
    (s : Server) (i : ℕ) (c : Client) (last : Option Client)
    → IsValid s
    → i < s.client_count
    → get_elem? s.clients i ≡ some c
    → get_elem? s.clients (s.client_count - 1) ≡ last
    → members s ≡ with_member (member c) (members (drop_row s (some i) last))
unfolding drop_row
drop_row-members s i c none v h e l =
    let (d, there) =
      get_elem?-some s.clients (s.client_count - 1) (omega (arith, v.rows, v.count)) in
    absurd (none≢some (sym l ∙ there))
drop_row-members s i c (some d) v h e l =
    members-with_member s (drop_row s (some i) (some d)) c
      (dropped s.client_count i s.clients c d h e l)

-- A connection that ends takes its member out of the registry and nobody else, although the last
-- row moves into its place; where the socket is not registered, nothing changes.
pub disconnect-members :
    (s : Server) (socket : ℕ)
    → IsValid s
    → ((id : Bytes) × (members s ≡ with_member (id, socket) (members (disconnect s socket))))
      ⊎ (IsAbsent socket s × (disconnect s socket ≡ s))
unfolding disconnect
disconnect-members s socket v = elim (Option-cases (socket_row socket s.client_count s.clients)) [
  | inl e ↦ inr (
    λ i c h g. socket_row-none socket s.client_count s.clients i c e h g,
    ap (λ o. drop_row s o last) e ∙ (unfold drop_row in refl),
  )
  | inr (i, e) ↦
      let (below, (c, at, own)) = socket_row-some socket s.client_count s.clients i e in
      inl (
        c.id,
        drop_row-members s i c last v below at refl
            ∙ ap (λ n. with_member (c.id, n) (members (drop_row s (some i) last))) own
            ∙ ap (λ o. with_member (c.id, socket) (members (drop_row s o last))) (sym e),
      )
]
  where
    last : Option Client
    last = get_elem? s.clients (s.client_count - 1)
