-- ===== src/Https/Client/Fetch.antt =====
-- https/client.c: `validate_certificate`, `fetch_via_https` and `main`, with the calls of OpenSSL that
-- they make in order. What these and the system calls return are arguments.
pub mod Unverified
pub mod Status
use network_protocol_cli_too.Common.{
  ℕ, ◌+◌, ltb, Outcome, ok, fault, ◌>>=◌, ◌>>◌, undefined_if, Bool, true, false, not, ◌||◌, List,
  [], ◌∷◌, ◌++◌, Option, none, some, length, ◌==◌, if◌then◌else◌, ℤ, pos, negsuc,
}
use network_protocol_cli_too.CString.{Bytes, codes, bytes_eq}
use network_protocol_cli_too.Https.Client.{
  Url, Output, parse_url, http_request, read_response, fetch_via_http,
}

-- The calls that create, use and release the context and the connection.
pub data Call : Type 0 where
  new_context new_ssl handshake shutdown free_ssl free_context : Call
  write_certificate : Bytes → Call
  load_certificate : Call
  write : Bytes → Call

-- How often the context is released.
abbrev released : Call → ℕ
released free_context = 1
released new_context = 0
released new_ssl = 0
released handshake = 0
released shutdown = 0
released free_ssl = 0
released (write_certificate c) = 0
released load_certificate = 0
released (write request) = 0

abbrev pub releases : List Call → ℕ
releases [] = 0
releases (c ∷ cs) = released c + releases cs

-- What OpenSSL and the file system answer: whether the context is created with the default paths, the
-- handshake succeeds, there is a certificate, it is verified, and verified when asked again, the
-- certificates of the chain if there is one, whether a certificate can be stored, the request be
-- written and the output be created, and the buffers that `SSL_read` brings.
pub record Tls : Type 0 where
  pub context : Bool
  pub connects : Bool
  pub certificate : Bool
  pub verified : Bool
  pub verified_again : Bool
  pub chain : Option (List Bytes)
  pub stores : Bool
  pub writes : Bool
  pub creates : Bool
  pub reads : List Bytes

-- What a function leaves: the calls, the output, and the value it returns. A function that ends without
-- `return` gives its caller a value that C does not fix, which is an argument, `leftover`.
pub record Result : Type 0 where
  pub calls : List Call
  pub output : Output
  pub value : ℤ

abbrev exit_success_value : ℤ
exit_success_value = pos 0

abbrev pub exit_failure_value : ℤ
exit_failure_value = pos 1

abbrev pub is_minus_one : ℤ → Bool
is_minus_one (pos n) = false
is_minus_one (negsuc n) = n == 0

abbrev pub no_output : Output
no_output = record { printed = []; stored = [] }

-- The loop of `add_missing_certificate`, from the certificate after the server's.
add_certificates : Bool → List Bytes → List Call
add_certificates stores [] = []
add_certificates stores (c ∷ cs) =
    let later = add_certificates stores cs in
    if stores then write_certificate c ∷ load_certificate ∷ later else later

-- `add_missing_certificate`
unfoldable pub add_missing_certificate : Bool → Option (List Bytes) → List Call
unfolding add_certificates
add_missing_certificate stores none = []
add_missing_certificate stores (some []) = []
add_missing_certificate stores (some (server ∷ cs)) = add_certificates stores cs

-- `validate_certificate`: its calls and its value.
unfoldable pub validate_certificate : Tls → ℤ → List Call × ℤ
unfolding add_missing_certificate
validate_certificate tls leftover =
    if not tls.certificate
    then ([], exit_failure_value)
    else if tls.verified
    then ([], leftover)
    else if tls.verified_again
    then (add_missing_certificate tls.stores tls.chain, leftover)
    else (add_missing_certificate tls.stores tls.chain ++ (free_context ∷ []), exit_failure_value)

-- `fetch_via_https` behind the request: the output file, the loop, and the release.
unfoldable pub receive_https : Tls → Bool → ℤ → Result
unfolding read_response
receive_https tls header_only leftover =
    if header_only || tls.creates
    then record {
      calls = shutdown ∷ free_ssl ∷ free_context ∷ [];
      output = read_response header_only tls.reads;
      value = leftover;
    }
    else record { calls = []; output = no_output; value = exit_failure_value }

-- the result with the calls that were made before
abbrev pub behind : List Call → Result → Result
behind calls r = record { calls = calls ++ r.calls; output = r.output; value = r.value }

-- `fetch_via_https` behind the check of the certificate
unfoldable pub request_https : Tls → Bytes → Bool → ℤ → ℤ → Result
unfolding receive_https
request_https tls request header_only validated leftover =
    if is_minus_one validated
    then record {
      calls = shutdown ∷ free_ssl ∷ free_context ∷ [];
      output = no_output;
      value = exit_failure_value;
    }
    else if tls.writes
    then behind (write request ∷ []) (receive_https tls header_only leftover)
    else record {
      calls = write request ∷ shutdown ∷ free_ssl ∷ free_context ∷ [];
      output = no_output;
      value = exit_failure_value;
    }

validated_https : Tls → Bytes → Bool → ℤ → List Call × ℤ → Result
unfolding request_https
validated_https tls request header_only leftover (calls, value) =
    behind calls (request_https tls request header_only value leftover)

abbrev pub no_handshake : Result
no_handshake = record {
  calls = new_context ∷ new_ssl ∷ handshake ∷ free_ssl ∷ free_context ∷ [];
  output = no_output;
  value = exit_failure_value;
}

-- `fetch_via_https`, where the context is there. `validate_certificate` leaves the first value that is
-- not fixed, and the end of the function the second.
unfoldable pub fetch_via_https : Tls → Bytes → Bool → ℤ → ℤ → Result
unfolding validate_certificate validated_https
fetch_via_https tls request header_only first second =
    if tls.connects
    then behind (new_context ∷ new_ssl ∷ handshake ∷ [])
        (validated_https tls request header_only second (validate_certificate tls first))
    else no_handshake

-- `create_ssl_context` ends the process where it fails.
unfoldable pub run_https : Tls → Bytes → Bool → ℤ → ℤ → Option Result
unfolding fetch_via_https
run_https tls request header_only first second =
    if tls.context then some (fetch_via_https tls request header_only first second) else none

-- What the rest of the system answers to `main`.
pub record Network : Type 0 where
  pub resolves : Bool
  pub has_socket : Bool
  pub connects : Bool
  pub sends : Bool
  pub creates : Bool
  pub reads : List Bytes
  pub tls : Tls

-- What the process leaves.
pub record Ended : Type 0 where
  pub output : Output
  pub status : ℤ

abbrev pub failed : Ended
failed = record { output = no_output; status = exit_failure_value }

-- The value of the fetch is compared with -1 only.
abbrev ended : ℤ → Output → Ended
ended value output = record {
  output = output;
  status = if is_minus_one value then exit_failure_value else exit_success_value;
}

-- A failure to create the context ends the process. The context is counted by its users: the first
-- release gives up that of `fetch_via_https`, and `SSL_free` the last one, so that a second release is
-- of memory that has been freed.
ended_https : Option Result → Outcome Ended
ended_https none = ok failed
ended_https (some r) = do undefined_if (ltb 1 (releases r.calls)); ok (ended r.value r.output)

ended_http : ℤ → Option Output → Ended
ended_http leftover none = ended exit_failure_value no_output
ended_http leftover (some output) = ended leftover output

-- `main` from the request on
unfoldable pub fetch : Network → Url → Bool → ℤ → ℤ → Outcome Ended
unfolding http_request run_https fetch_via_http ended_https ended_http
fetch net url header_only first second =
    let request = http_request header_only url.path url.ip in
    if bytes_eq url.scheme (codes "https")
    then ended_https (run_https net.tls request header_only first second)
    else ok (ended_http second (fetch_via_http net.sends net.creates header_only net.reads))

connected : Network → Url → Bool → ℤ → ℤ → Outcome Ended
unfolding fetch
connected net url header_only first second =
    if not net.resolves
    then ok failed
    else if not net.has_socket
    then ok failed
    else if not net.connects
    then ok failed
    else fetch net url header_only first second

parsed : Network → Option Url → Bool → ℤ → ℤ → Outcome Ended
unfolding connected
parsed net none header_only first second = ok failed
parsed net (some url) header_only first second = connected net url header_only first second

header_option : List Bytes → Bool
header_option (option ∷ []) = bytes_eq option (codes "-h")
header_option [] = false
header_option (a ∷ b ∷ options) = false

-- `main` on its arguments, the URL first.
unfoldable pub main : Network → List Bytes → ℤ → ℤ → Outcome Ended
unfolding parsed parse_url header_option
main net [] first second = ok failed
main net (url ∷ options) first second =
    parsed net (parse_url url) (header_option options) first second
