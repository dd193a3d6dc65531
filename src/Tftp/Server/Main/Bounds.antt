-- ===== src/Tftp/Server/Main/Bounds.antt =====
-- What the receiving loop keeps, and when it ends in undefined behaviour.
use network_protocol_cli_too.Common.{
  ℕ, ◌≤◌, ◌≡◌, ◌⊎◌, ◌↔◌, ltb, leb, take, Bool-cases, inl, inr, refl, Bool, true, false, List, [],
  ◌∷◌, Option, none, some, arith, if◌then◌else◌, length,
}
use network_protocol_cli_too.CString.{Bytes, codes, c_str, starts_with}
use network_protocol_cli_too.Transfer.Protocol.{Params}
use network_protocol_cli_too.Tftp.Packet.{buffer_size}
use network_protocol_cli_too.Tftp.AckQueue.{AckQueue, enqueue}
use network_protocol_cli_too.Tftp.AckQueue.Refine.{IsValid, take_ack-refines, enqueue-refines}
use network_protocol_cli_too.Tftp.Server.{
  Routed, ignored, acknowledged, malformed, started, overflow, route, route_text, routed_ack,
  routed_request,
}
use network_protocol_cli_too.Tftp.Server.Route.{route-overflow}
use network_protocol_cli_too.Tftp.Server.Main.{
  Arrival, Loop, looked_through, routed, received, goes_on, receive_loop,
}

looked_through-IsValid :
    (looks : List (ℕ × ℕ)) (q : AckQueue) → IsValid q → IsValid (looked_through looks q)
unfolding looked_through
looked_through-IsValid [] q v = v
looked_through-IsValid ((seq_num, client_addr) ∷ looks) q v =
    looked_through-IsValid looks _ ((take_ack-refines seq_num client_addr q v).1)

-- A queue that comes from an ACK is the one with the ACK in it.
abbrev HasValid : Routed → Type 0
HasValid ignored = Unit {0}
HasValid (acknowledged q woken) = IsValid q
HasValid malformed = Unit {0}
HasValid (started request) = Unit {0}
HasValid overflow = Unit {0}

routed_ack-HasValid : (r : AckQueue × Bool) → IsValid r.0 → HasValid (routed_ack r)
unfolding routed_ack
routed_ack-HasValid (q, woken) v = v

routed_request-HasValid :
    (client_addr addr_len : ℕ) (r : ℕ × Params) → HasValid (routed_request client_addr addr_len r)
unfolding routed_request
routed_request-HasValid client_addr addr_len (count, params) = elim (Bool-cases (ltb count 2)) [
  | inl e ↦ rw e tt
  | inr e ↦ rw e tt
]

HasValid-if : (b : Bool) (r r' : Routed) → HasValid r → HasValid r' → HasValid (if b then r else r')
HasValid-if true r r' h h' = h
HasValid-if false r r' h h' = h'

route_text-HasValid :
    (old_params : Params) (old_seq_num : ℕ) (q : AckQueue) (client_addr addr_len : ℕ)
    (received_text : Bytes)
    → IsValid q
    → HasValid (route_text old_params old_seq_num q client_addr addr_len received_text)
unfolding route_text
route_text-HasValid old_params old_seq_num q client_addr addr_len text v =
    elim (Bool-cases (starts_with (codes "ACK") (c_str text))) [
      | inl e ↦ rw e (routed_ack-HasValid (enqueue q _) ((enqueue-refines q _ v).2))
      | inr e ↦ rw e (routed_request-HasValid client_addr addr_len _)
    ]

route-HasValid :
    (old_params : Params) (old_seq_num : ℕ) (q : AckQueue) (client_addr addr_len : ℕ)
    (datagram : Option Bytes)
    → IsValid q
    → HasValid (route old_params old_seq_num q client_addr addr_len datagram)
unfolding route
route-HasValid old_params old_seq_num q client_addr addr_len none v = tt
route-HasValid old_params old_seq_num q client_addr addr_len (some d) v =
    HasValid-if (leb buffer_size (length (take buffer_size d))) overflow
      (route_text old_params old_seq_num q client_addr addr_len (take buffer_size d)) tt
      (route_text-HasValid old_params old_seq_num q client_addr addr_len (take buffer_size d) v)

routed-IsValid :
    (has_thread : Bool) (q : AckQueue) (r : Routed)
    → IsValid q
    → HasValid r
    → IsValid (routed has_thread q r).queue
unfolding routed
routed-IsValid has_thread q ignored v h = v
routed-IsValid has_thread q (acknowledged q' woken) v h = h
routed-IsValid has_thread q malformed v h = v
routed-IsValid has_thread q (started request) v h = v
routed-IsValid has_thread q overflow v h = v

routed-overflown :
    (has_thread : Bool) (q : AckQueue) (r : Routed)
    → ((routed has_thread q r).overflown ≡ true) ↔ (r ≡ overflow)
unfolding routed
routed-overflown has_thread q ignored = (λ e. cc, λ e. cc)
routed-overflown has_thread q (acknowledged q' woken) = (λ e. cc, λ e. cc)
routed-overflown has_thread q malformed = (λ e. cc, λ e. cc)
routed-overflown has_thread q (started request) = (λ e. cc, λ e. cc)
routed-overflown has_thread q overflow = (λ e. refl, λ e. refl)

-- A datagram that leaves no room for its NUL
abbrev pub IsLong : Option Bytes → Type 0
IsLong none = ⊥
IsLong (some datagram) = buffer_size ≤ length datagram

abbrev pub SomeLong : List Arrival → Type 0
SomeLong [] = ⊥
SomeLong (a ∷ arrivals) = IsLong a.datagram ⊎ SomeLong arrivals

false≢true : false ≡ true → ⊥
false≢true e = cc

ignored≢overflow : ignored ≡ overflow → ⊥
ignored≢overflow e = cc

received-overflown :
    (a : Arrival) (q : AckQueue) → ((received a q).overflown ≡ true) ↔ IsLong a.datagram
unfolding received
received-overflown a q = from a.datagram
  where
    q' : AckQueue
    q' = looked_through a.looks q

    from :
        (datagram : Option Bytes)
        → let r = route a.old_params a.old_seq_num q' a.client_addr a.addr_len datagram in
          ((routed a.has_thread q' r).overflown ≡ true) ↔ IsLong datagram
    from none = (
      λ e. ignored≢overflow ((unfold route in (routed-overflown a.has_thread q' _).0 e)),
      λ h. absurd h,
    )
    from (some d) =
        let there =
          routed-overflown a.has_thread q'
            (route a.old_params a.old_seq_num q' a.client_addr a.addr_len (some d)) in
        let long = route-overflow a.old_params a.old_seq_num q' a.client_addr a.addr_len d in
        (λ e. long.0 (there.0 e), λ h. there.1 (long.1 h))

received-IsValid : (a : Arrival) (q : AckQueue) → IsValid q → IsValid (received a q).queue
unfolding received
received-IsValid a q v =
    let v' = looked_through-IsValid a.looks q v in
    routed-IsValid a.has_thread (looked_through a.looks q) _ v' (
      route-HasValid a.old_params a.old_seq_num (looked_through a.looks q) a.client_addr a.addr_len
        a.datagram v')

goes_on-IsValid :
    (now later : Loop) → IsValid now.queue → IsValid later.queue → IsValid (goes_on now later).queue
unfolding goes_on
goes_on-IsValid now later v w = elim (Bool-cases now.overflown) [ inl e ↦ rw e v | inr e ↦ rw e w ]

goes_on-overflown :
    (now later : Loop)
    → ((goes_on now later).overflown ≡ true) ↔ ((now.overflown ≡ true) ⊎ (later.overflown ≡ true))
unfolding goes_on
goes_on-overflown now later = ground arith

-- Whatever comes, and however the threads look in between: the queue stays in order, and the loop
-- writes behind its buffer exactly if one of the datagrams has 1024 bytes or more.
pub receive_loop-overflown :
    (arrivals : List Arrival) (q : AckQueue)
    → IsValid q
    → IsValid (receive_loop arrivals q).queue
      × (((receive_loop arrivals q).overflown ≡ true) ↔ SomeLong arrivals)
unfolding receive_loop
receive_loop-overflown [] q v = (v, (λ e. false≢true e, λ h. absurd h))
receive_loop-overflown (a ∷ arrivals) q v =
    let now = received a q in
    let later = receive_loop arrivals now.queue in
    let v' = received-IsValid a q v in
    let (valid, rest) = receive_loop-overflown arrivals now.queue v' in
    let here = received-overflown a q in
    let either = goes_on-overflown now later in
    (
      goes_on-IsValid now later v' valid,
      (
        λ e. elim (either.0 e) [ inl f ↦ inl (here.0 f) | inr f ↦ inr (rest.0 f) ],
        λ h. either.1 (elim h [ inl f ↦ inl (here.1 f) | inr f ↦ inr (rest.1 f) ]),
      ),
    )
