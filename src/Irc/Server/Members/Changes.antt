-- ===== src/Irc/Server/Members/Changes.antt =====
-- Who is in the registry behind each step of a client's thread.
use mathlib.Core.Quot
use mathlib.Core.Option.{some-injective}
use network_protocol_cli_too.Common.{
  ℕ, zero, suc, ◌<◌, ◌≡◌, ◌⊎◌, inl, inr, refl, sym, ap, subst, ◌∙◌, true, false, List, [], ◌∷◌, map,
  Option, none, some, arith, ltb, length, take, set, get_elem?, ℤ, Outcome, ok, exit_failure, fault,
  ◌>>=◌, Bool-cases,
}
use network_protocol_cli_too.CString.{Bytes}
use network_protocol_cli_too.Irc.Server.{
  Client, Server, Reply, ids, index_of, enter, register, command, round, received_line, set_port,
  id_size, buffer_size, max_clients,
}
use network_protocol_cli_too.Irc.Server.Registry.{IsValid}
use network_protocol_cli_too.Irc.Server.Steps.Keep.{Keeps, Keeps-bind, command-Keeps}
use network_protocol_cli_too.Irc.Server.Members.{
  Members, member, members, with_member, IsAbsent, appended, members-with_member,
  disconnect-members,
}

ok-injective : {r q : Reply} → ok r ≡ ok q → r ≡ q
ok-injective e = cc

bind-ok :
    (m : Outcome Bytes) (f : Bytes → Outcome Reply) (r : Reply)
    → (m >>= f) ≡ ok r
    → (b : Bytes) × (m ≡ ok b) × (f b ≡ ok r)
bind-ok (ok b) f r e = (b, refl, e)
bind-ok exit_failure f r e = cc
bind-ok fault f r e = cc

-- What the registration under an ID leaves.
abbrev pub Entered : Server → ℕ → Bytes → Reply → Type 0
Entered s socket id r =
    ((index_of id (ids s) ≡ none)
      × (r.goes_on ≡ true)
      × (members r.server ≡ with_member (id, socket) (members s)))
    ⊎ ((i : ℕ) × (index_of id (ids s) ≡ some i) × (r.goes_on ≡ false) × (r.server ≡ s))

-- The row that is entered
abbrev entered : Server → ℕ → Bytes → Server
entered s socket id = record s {
  clients =
      set s.clients s.client_count
        (record { id = id; socket = socket; port = ℤ.negsuc 0; in_chat = false });
  client_count = suc s.client_count;
}

entered-members :
    (s : Server) (socket : ℕ) (id : Bytes)
    → IsValid s
    → ltb s.client_count max_clients ≡ true
    → members (entered s socket id) ≡ with_member (id, socket) (members s)
entered-members s socket id v h =
    members-with_member (entered s socket id) s _
      (appended s.client_count s.clients _ (ground (arith, v.rows)))

enter-Entered :
    (s : Server) (socket : ℕ) (id : Bytes) (found : Option ℕ) (r : Reply)
    → IsValid s
    → index_of id (ids s) ≡ found
    → enter s socket id found ≡ ok r
    → Entered s socket id r
unfolding enter
enter-Entered s socket id (some i) r v f e =
    inr
      (i, f, ap (λ q. q.goes_on) (sym (ok-injective e)), ap (λ q. q.server) (sym (ok-injective e)))
enter-Entered s socket id none r v f e = elim (Bool-cases (ltb s.client_count max_clients)) [
  | inr full ↦ let no : fault ≡ ok r = rw full at e in cc
  | inl room ↦
      let e' : ok _ ≡ ok r = rw room at e in
      inl (
        f,
        ap (λ q. q.goes_on) (sym (ok-injective e')),
        ap (λ q. members q.server) (sym (ok-injective e')) ∙ entered-members s socket id v room,
      )
]

-- A registration that is defined enters the client under its ID where no client in the registry has
-- this ID, and else leaves the registry alone and ends the thread.
pub register-members :
    (s : Server) (socket : ℕ) (message : Bytes) (r : Reply)
    → IsValid s
    → register s socket message ≡ ok r
    → (id : Bytes) × (received_line id_size message ≡ ok id) × Entered s socket id r
unfolding register
register-members s socket message r v e =
    let (id, line, e') = bind-ok (received_line id_size message) _ r e in
    (id, line, enter-Entered s socket id (index_of id (ids s)) r v refl e')

-- A write to a row that keeps its ID and socket
member-set :
    (n i : ℕ) (cs : List Client) (c d : Client)
    → get_elem? cs i ≡ some c
    → member d ≡ member c
    → map member (take n (set cs i d)) ≡ map member (take n cs)
member-set zero i cs c d e h = refl
member-set (suc n) i [] c d e h = refl
member-set (suc n) zero (x ∷ cs) c d e h =
    ap (λ m. m ∷ map member (take n cs)) (h ∙ ap member (sym (some-injective x c e)))
member-set (suc n) (suc i) (x ∷ cs) c d e h = ap (◌∷◌ (member x)) (member-set n i cs c d e h)

set_port-member :
    (n i : ℕ) (cs : List Client) (port : ℤ) (found : Option Client)
    → get_elem? cs i ≡ found
    → map member (take n (set_port port found cs i)) ≡ map member (take n cs)
unfolding set_port
set_port-member n i cs port none e = refl
set_port-member n i cs port (some c) e =
    member-set n i cs c (record c { port = port; in_chat = true }) e refl

command-members :
    (s : Server) (client_id line message : Bytes)
    → Keeps (λ t. members t ≡ members s) (command s client_id line message)
command-members s client_id line message =
    command-Keeps (λ t. members t ≡ members s) s client_id refl (λ i. refl)
      (λ port a h.
        ap (λ ms. let b : Members = Quot.mk ms in b)
          (set_port-member s.client_count (length s.waiting) s.clients port _ refl))
      line message

-- What the end of a connection leaves.
abbrev pub Left : Server → ℕ → Server → Type 0
Left s socket t =
    ((id : Bytes) × (members s ≡ with_member (id, socket) (members t)))
    ⊎ (IsAbsent socket s × (t ≡ s))

-- A round of a thread that is defined: where the connection has ended, the member of its socket is
-- taken out of the registry and nobody else, and nothing changes where there is none. A line,
-- whatever it says, leaves the same members.
pub round-members :
    (s : Server) (client_id : Bytes) (socket : ℕ) (text message : Bytes) (r : Reply)
    → IsValid s
    → round s client_id socket text message ≡ ok r
    → ((text ≡ []) × (r.goes_on ≡ false) × Left s socket r.server)
      ⊎ ((0 < length text) × (members r.server ≡ members s))
unfolding round
round-members s client_id socket [] message r v e = inl (
  refl,
  ap (λ q. q.goes_on) (sym (ok-injective e)),
  subst (Left s socket) (ap (λ q. q.server) (ok-injective e)) (disconnect-members s socket v),
)
round-members s client_id socket (c ∷ text) message r v e = inr (
  omega arith,
  subst (Keeps (λ t. members t ≡ members s)) e (
      Keeps-bind (λ t. members t ≡ members s) (received_line buffer_size (c ∷ text))
        (λ line. command s client_id line message)
        (λ line. command-members s client_id line message)),
)
