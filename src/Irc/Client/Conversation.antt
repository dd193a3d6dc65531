-- ===== src/Irc/Client/Conversation.antt =====
-- A conversation of irc/client.c: the loop of `receive_peer_messages`, and the lines that are typed on
-- the other side.
use network_protocol_cli_too.Common.{
  ℕ, ◌<◌, ◌≡◌, ◌≢◌, refl, ap, ◌∙◌, false, List, [], ◌∷◌, ◌++◌, none, some, arith, leb, length,
  Outcome, ok, ◌>>=◌, map, ◌-◌, take_all, length-append,
}
use network_protocol_cli_too.CString.{Bytes, codes, starts_with, HasNoNul, c_str-HasNoNul}
use network_protocol_cli_too.Irc.Server.{first_line}
use network_protocol_cli_too.Irc.Client.{
  chat, info, State, Action, to_peer, After, stays, interrupt, on_signal, leave, peer_text,
  from_peer, Listening, on_mode, typed_line, typed, send_peer, buffer_size,
}

-- The rounds of `receive_peer_messages` for the messages that come: the loop ends where there is no
-- socket, and waits where there is no message.
unfoldable pub conversation : State → List Bytes → Outcome State
unfolding from_peer
conversation s [] = ok s
conversation s (message ∷ messages) = elim s.peer [
  | none ↦ ok s
  | some socket ↦ do a ← from_peer s message; conversation a.state messages
]

-- The lines that are typed one after the other, each ended by Enter.
unfoldable pub speak : Listening → State → List Bytes → State × List Action
unfolding typed
speak l s [] = (s, [])
speak l s (line ∷ lines) =
    let a = typed l s (line ++ (10 ∷ [])) in
    let (t, actions) = speak l a.state lines in (t, a.actions ++ actions)

-- A byte of a line that is typed: neither the newline nor NUL.
abbrev pub IsPlain : Bytes → Type 0
IsPlain [] = Unit {0}
IsPlain (c ∷ s) = (c ≢ 0) × (c ≢ 10) × IsPlain s

-- A line that is no command in a conversation and fits the buffers.
pub record IsSpoken (text : Bytes) : Type 0 where
  pub plain : IsPlain text
  pub short : length text < buffer_size - 1
  pub some_text : text ≢ []
  pub no_quit : starts_with (codes "/quit") text ≡ false
  pub no_leave : starts_with (codes "LEAVE") text ≡ false

abbrev pub AllSpoken : List Bytes → Type 0
AllSpoken [] = Unit {0}
AllSpoken (text ∷ texts) = IsSpoken text × AllSpoken texts

pub first_line_typed : (text : Bytes) → IsPlain text → first_line (text ++ (10 ∷ [])) ≡ text
unfolding first_line
first_line_typed [] h = refl
first_line_typed (c ∷ text) h = ground (arith, first_line_typed text h.2)

IsPlain-HasNoNul : (text : Bytes) → IsPlain text → HasNoNul text
IsPlain-HasNoNul [] h = tt
IsPlain-HasNoNul (c ∷ text) h = (h.0, IsPlain-HasNoNul text h.2)

typed_line_spoken :
    (l : Listening) (s : State) (text : Bytes)
    → s.mode ≡ chat
    → text ≢ []
    → starts_with (codes "/quit") text ≡ false
    → typed_line l s text ≡ stays s (send_peer s.peer text)
unfolding typed_line on_mode
typed_line_spoken l s [] m n q = absurd (n refl)
typed_line_spoken l s (c ∷ text) m n q = rw (q, ap (λ k. on_mode l k s (c ∷ text)) m)

typed_spoken :
    (l : Listening) (s : State) (text : Bytes)
    → s.mode ≡ chat
    → IsSpoken text
    → typed l s (text ++ (10 ∷ [])) ≡ stays s (send_peer s.peer text)
unfolding typed
typed_spoken l s text m t =
    ap (λ u. typed_line l s (first_line u))
      (take_all (buffer_size - 1) (text ++ (10 ∷ []))
        (omega (arith, t.short, length-append text (10 ∷ []))))
    ∙ ap (typed_line l s) (first_line_typed text t.plain)
    ∙ typed_line_spoken l s text m t.some_text t.no_quit

-- What is typed in a conversation goes to the peer, line by line.
speak_spoken :
    (l : Listening) (s : State) (socket : ℕ) (texts : List Bytes)
    → s.mode ≡ chat
    → s.peer ≡ some socket
    → AllSpoken texts
    → speak l s texts ≡ (s, map (to_peer socket) texts)
unfolding speak
speak_spoken l s socket [] m p h = refl
speak_spoken l s socket (text ∷ texts) m p h =
    ap (λ a. ((speak l a.state texts).0, a.actions ++ (speak l a.state texts).1))
      (typed_spoken l s text m h.0)
    ∙ ap (λ q. (q.0, send_peer s.peer text ++ q.1)) (speak_spoken l s socket texts m p h.1)
    ∙ ap (λ o. (s, send_peer o text ++ map (to_peer socket) texts)) p

from_peer_text :
    (s : State) (text : Bytes)
    → text ≢ []
    → starts_with (codes "LEAVE") text ≡ false
    → length text < buffer_size
    → HasNoNul text
    → from_peer s text ≡ ok (stays s [])
unfolding from_peer peer_text
from_peer_text s [] n q h k = absurd (n refl)
from_peer_text s (c ∷ text) n q h k =
    rw (take_all buffer_size (c ∷ text) (omega arith), q, c_str-HasNoNul (c ∷ text) k, short)
  where
    short : leb buffer_size (length (c ∷ text)) ≡ false
    short = ground arith

from_peer-leave : (s : State) → from_peer s (codes "LEAVE") ≡ ok (leave s)
unfolding from_peer peer_text starts_with
from_peer-leave s = refl

from_peer_spoken : (s : State) (text : Bytes) → IsSpoken text → from_peer s text ≡ ok (stays s [])
from_peer_spoken s text t =
    from_peer_text s text t.some_text t.no_leave (omega (arith, t.short))
      (IsPlain-HasNoNul text t.plain)

abbrev alone : State → State
alone s = record s { peer = none; mode = info }

conversation-alone :
    (s : State) (messages : List Bytes) → conversation (alone s) messages ≡ ok (alone s)
unfolding conversation
conversation-alone s [] = refl
conversation-alone s (m ∷ ms) = refl

conversation_next :
    (s : State) (socket : ℕ) (message : Bytes) (messages : List Bytes) (a : After)
    → s.peer ≡ some socket
    → from_peer s message ≡ ok a
    → conversation s (message ∷ messages) ≡ conversation a.state messages
unfolding conversation
conversation_next s socket message messages a p e =
    ap
      (λ o. elim o [
        | none ↦ ok s
        | some y ↦ from_peer s message >>= λ b. conversation b.state messages
      ])
      p
    ∙ ap (λ m. m >>= λ b. conversation b.state messages) e

-- What is said is printed, up to the first `LEAVE`, behind which nothing is read.
conversation_spoken :
    (s : State) (socket : ℕ) (texts rest : List Bytes)
    → s.peer ≡ some socket
    → AllSpoken texts
    → conversation s (texts ++ (codes "LEAVE" ∷ rest)) ≡ ok (alone s)
conversation_spoken s socket [] rest p h =
    conversation_next s socket (codes "LEAVE") rest (leave s) p (from_peer-leave s)
    ∙ unfold leave in conversation-alone s rest
conversation_spoken s socket (text ∷ texts) rest p h =
    conversation_next s socket text _ (stays s []) p (from_peer_spoken s text h.0)
    ∙ conversation_spoken s socket texts rest p h.1

-- The connection is closed by the other side.
conversation_closed :
    (s : State) (socket : ℕ) (rest : List Bytes)
    → s.peer ≡ some socket
    → conversation s ([] ∷ rest) ≡ ok (alone s)
conversation_closed s socket rest p =
    conversation_next s socket [] rest (leave s) p (unfold from_peer in refl)
    ∙ unfold leave in conversation-alone s rest

interrupt_chat :
    (s : State) (socket : ℕ)
    → s.mode ≡ chat
    → s.peer ≡ some socket
    → interrupt s ≡ stays s (to_peer socket (codes "LEAVE") ∷ [])
unfolding interrupt on_signal
interrupt_chat s socket m p =
    ap (λ k. on_signal k s) m ∙ ap (λ o. stays s (send_peer o (codes "LEAVE"))) p

-- Two clients are in a conversation over a connected pair of sockets. The first types lines that fit
-- the buffers, of which none starts with `/quit` or `LEAVE`, and then presses Ctrl+C: each line and then
-- `LEAVE` goes to the second, whose loop ends in INFO mode without a socket, whatever else comes; the
-- first, whom the closed connection is reported to, ends in INFO mode without a socket too.
pub speak-conversation :
    (l : Listening) (a b : State) (x y : ℕ) (texts rest : List Bytes)
    → a.mode ≡ chat
    → a.peer ≡ some x
    → b.peer ≡ some y
    → AllSpoken texts
    → (speak l a texts ≡ (a, map (to_peer x) texts))
      × (interrupt a ≡ stays a (to_peer x (codes "LEAVE") ∷ []))
      × (conversation b (texts ++ (codes "LEAVE" ∷ rest))
          ≡ ok (record b { peer = none; mode = info }))
      × (conversation a ([] ∷ rest) ≡ ok (record a { peer = none; mode = info }))
speak-conversation l a b x y texts rest m p q h = (
  speak_spoken l a x texts m p h,
  interrupt_chat a x m p,
  conversation_spoken b y texts rest q h,
  conversation_closed a x rest p,
)
