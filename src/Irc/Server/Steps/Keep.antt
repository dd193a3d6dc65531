-- ===== src/Irc/Server/Steps/Keep.antt =====
-- What every line that a client of irc/server.c sends keeps.
use network_protocol_cli_too.Common.{
  ℕ, ◌<◌, ◌≡◌, inl, inr, refl, Bool, true, false, not, [], ◌∷◌, ◌++◌, Option, none, some, arith,
  ltb, ◌==◌, if◌then◌else◌, length, take, get_elem?, ℤ, Outcome, ok, exit_failure, fault, ◌>>=◌,
  ◌>>◌, undefined_if, Option-cases,
}
use network_protocol_cli_too.CString.{Bytes, codes, c_str, starts_with}
use network_protocol_cli_too.CString.Signed.{atoi}
use network_protocol_cli_too.Irc.Server.{
  Server, Reply, answer, index_of, remove_row, list_waiting, list_command, set_port, add_waiting,
  start_wait, wait_at, wait_command, lines, port_at, connect_at, connect_to, connect_target,
  stop_at, command, is_positive, buffer_size, max_waiting,
}
use network_protocol_cli_too.Irc.Server.Registry.{Absent, index_of-Absent}

-- A state that a step may leave
abbrev pub Keeps : (Server → Type 0) → Outcome Reply → Type 0
Keeps P (ok r) = P r.server
Keeps P exit_failure = Unit {0}
Keeps P fault = Unit {0}

pub Keeps-guard :
    (P : Server → Type 0) (b : Bool) (m : Outcome Reply)
    → (b ≡ false → Keeps P m)
    → Keeps P (undefined_if b >> m)
Keeps-guard P true m h = tt
Keeps-guard P false m h = h refl

Keeps-if :
    (P : Server → Type 0) (b : Bool) (m n : Outcome Reply)
    → Keeps P m
    → Keeps P n
    → Keeps P (if b then m else n)
Keeps-if P true m n h k = h
Keeps-if P false m n h k = k

pub Keeps-bind :
    (P : Server → Type 0) (m : Outcome Bytes) (f : Bytes → Outcome Reply)
    → ((b : Bytes) → Keeps P (f b))
    → Keeps P (m >>= f)
Keeps-bind P (ok b) f h = h b
Keeps-bind P exit_failure f h = tt
Keeps-bind P fault f h = tt

-- A property that each change of the shared variables by a line keeps is kept by every line.
module _ (P : Server → Type 0) (s : Server) (client_id : Bytes) (same : P s)
    (removed : (i : ℕ) → P (record s { waiting = remove_row i s.waiting }))
    (added : (port : ℤ)
      → Absent client_id s.waiting
      → length s.waiting < max_waiting
      → P (record s {
        waiting = s.waiting ++ (client_id ∷ []);
        clients =
            set_port port (get_elem? s.clients (length s.waiting)) s.clients (length s.waiting);
      })) where
  start_wait-Keeps : (port : ℤ) → Absent client_id s.waiting → Keeps P (start_wait s client_id port)
  unfolding start_wait add_waiting
  start_wait-Keeps port a =
      Keeps-if P (is_positive port) _ _
        (Keeps-guard P (not (ltb (length s.waiting) max_waiting)) _
          (λ h. added port a (ground arith)))
        same

  wait_command-Keeps : (message : Bytes) → Keeps P (wait_command s client_id message)
  unfolding wait_command wait_at
  wait_command-Keeps message = elim (Option-cases (index_of client_id s.waiting)) [
    | inl e ↦ rw e (
        start_wait-Keeps (atoi (c_str (take buffer_size message)))
          (index_of-Absent client_id s.waiting e))
    | inr (i, e) ↦ rw e same
  ]

  connect_at-Keeps : (target_id : Bytes) (found : Option ℕ) → Keeps P (connect_at s target_id found)
  unfolding connect_at port_at
  connect_at-Keeps target_id none = same
  connect_at-Keeps target_id (some i) = elim (Option-cases (get_elem? s.clients i)) [
    | inl e ↦ rw e tt
    | inr (c, e) ↦ rw e (removed i)
  ]

  connect_to-Keeps : (target : Option (Bytes × Bytes)) → Keeps P (connect_to s target)
  unfolding connect_to
  connect_to-Keeps none =
      Keeps-guard P (not (length s.waiting == 0)) _ (λ h. connect_at-Keeps [] none)
  connect_to-Keeps (some (id, rest)) =
      Keeps-guard P (not (ltb (length id) 32)) _ (λ h. connect_at-Keeps id (index_of id s.waiting))

  stop_at-Keeps : (found : Option ℕ) → Keeps P (stop_at s found)
  unfolding stop_at
  stop_at-Keeps none = tt
  stop_at-Keeps (some i) = removed i

  list_command-Keeps : Keeps P (list_command s)
  unfolding list_command list_waiting
  list_command-Keeps =
      let response = codes "Waiting clients:\n" ++ lines s.waiting in
      Keeps-if P (length s.waiting == 0) _ _ same (
        Keeps-guard P (not (ltb (length response) buffer_size)) (ok (answer s response))
          (λ h. same))

  pub command-Keeps : (line message : Bytes) → Keeps P (command s client_id line message)
  unfolding command
  command-Keeps line message =
      Keeps-if P (starts_with (codes "/list") line) _ _ list_command-Keeps (
        Keeps-if P (starts_with (codes "/wait") line) _ _ (wait_command-Keeps message) (
          Keeps-if P (starts_with (codes "/connect") line) _ _
            (connect_to-Keeps (connect_target line))
            (Keeps-if P (starts_with (codes "/stop_wait") line) _ _
              (stop_at-Keeps (index_of client_id s.waiting))
              (Keeps-if P (starts_with (codes "/quit") line) _ _ same same))))
