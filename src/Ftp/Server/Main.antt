-- ===== src/Ftp/Server/Main.antt =====
-- `main` of ftp/server.c: the set-up of the socket, and the loop that accepts one client after the
-- other.
use network_protocol_cli_too.Common.{
  ℕ, ◌≡◌, ◌⊎◌, Bool, not, List, [], ◌∷◌, ◌++◌, Option, none, some, ◌==◌, Outcome, ok, ◌>>◌, exit_if,
}
use network_protocol_cli_too.CString.{Bytes}
use network_protocol_cli_too.Transfer.Protocol.{Params}
use network_protocol_cli_too.Ftp.Server.{
  Served, Ended, closed, dropped, process_exit, undefined, writing, handle_client,
}

-- A client that is accepted: what its request holds before the scan, what `recv` returns, and what
-- each `write` returns.
pub record Connection : Type 0 where
  pub old : Params
  pub request : Option Bytes
  pub writes : List (ℕ → Option ℕ)

-- Where the loop stands: it waits for a client, the process has ended, the behaviour is undefined, or
-- a client is still being served.
pub data Fate : Type 0 where
  accepting : Fate
  exited : Fate
  crashed : Fate
  serving : Fate

-- What the clients got, in order, and where the loop stands.
pub record Session : Type 0 where
  pub answers : List Served
  pub fate : Fate

-- Behind `handle_client`: `later` is the rest of the loop.
answered : Served → Session → Ended → Session
answered s later closed = record later { answers = s ∷ later.answers }
answered s later dropped = record later { answers = s ∷ later.answers }
answered s later process_exit = record { answers = s ∷ []; fate = exited }
answered s later undefined = record { answers = s ∷ []; fate = crashed }
answered s later writing = record { answers = s ∷ []; fate = serving }

-- `handle_client` for one connection
abbrev pub serve : (Bytes → Option Bytes) → Connection → Served
serve fopen c = handle_client c.old fopen c.writes c.request

-- `while (1)`, with what each `accept` returns; `none` is a failure.
unfoldable pub accept_loop : (Bytes → Option Bytes) → List (Option Connection) → Session
unfolding answered
accept_loop fopen [] = record { answers = []; fate = accepting }
accept_loop fopen (none ∷ clients) = accept_loop fopen clients
accept_loop fopen (some c ∷ clients) =
    let later = accept_loop fopen clients in answered (serve fopen c) later (serve fopen c).ended

-- `main`, for `argc` arguments and the results of the calls
unfoldable pub main :
    ℕ → Bool → Bool → Bool → (Bytes → Option Bytes) → List (Option Connection) → Outcome Session
unfolding accept_loop
main argc has_socket bound listening fopen clients = do
  exit_if (not (argc == 2))
  exit_if (not has_socket)
  exit_if (not bound)
  exit_if (not listening)
  ok (accept_loop fopen clients)

module _ (fopen : Bytes → Option Bytes) where
  -- The server goes on behind each of the clients.
  abbrev pub AllEnd : List (Option Connection) → Type 0
  AllEnd [] = Unit {0}
  AllEnd (none ∷ clients) = AllEnd clients
  AllEnd (some c ∷ clients) =
      (((serve fopen c).ended ≡ closed) ⊎ ((serve fopen c).ended ≡ dropped)) × AllEnd clients

  -- What each accepted client gets if it is the only one.
  abbrev pub serve_each : List (Option Connection) → List Served
  serve_each [] = []
  serve_each (none ∷ clients) = serve_each clients
  serve_each (some c ∷ clients) = serve fopen c ∷ serve_each clients

  -- The loop behind clients that it has served
  abbrev behind : List (Option Connection) → Session → Session
  behind before later = record later { answers = serve_each before ++ later.answers }
