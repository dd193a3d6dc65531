-- ===== src/Tcp/Client.antt =====
-- archive/file-transfer/tcp-file-transfer/src/myclient.c: the file of servers, the size, the
-- segments of the threads, and what a thread sends and reads.
use network_protocol_cli_too.Common.{
  ℕ, suc, zero, ◌-◌, ◌*◌, ◌/◌, ◌^◌, pos, negsuc, as_size, ◌==◌, List, [], ◌∷◌, ◌++◌, Option, none,
  some, ltb, if◌then◌else◌, length, take, get_elem?, into, not, ℤ, to_int, Outcome, ok, fault,
  ◌>>=◌, ◌>>◌, undefined_if,
}
use network_protocol_cli_too.CString.{Bytes, codes}
use network_protocol_cli_too.CString.Search.{strtok}
use network_protocol_cli_too.CString.Signed.{atoi}
use network_protocol_cli_too.Tcp.Server.{htonl, ntohl}

-- `pthreadinfo`, less the name
pub record Segment : Type 0 where
  pub pid : ℕ
  pub segment_start : ℤ
  pub segment_size : ℤ

-- A result of the sign that the size has. C's division cuts toward 0, and none of the products and
-- differences of a segment is further from 0 than the size, so that they all fit an `int`.
abbrev pub signed_as : ℤ → ℕ → ℤ
signed_as (pos size) n = pos n
signed_as (negsuc size) zero = pos 0
signed_as (negsuc size) (suc n) = negsuc n

abbrev pub magnitude : ℤ → ℕ
magnitude (pos n) = n
magnitude (negsuc n) = suc n

unfoldable pub segment : ℤ → ℕ → ℕ → Segment
segment filesize num i =
    let share = magnitude filesize / num in
    record {
      pid = i;
      segment_start = signed_as filesize (i * share);
      segment_size =
          signed_as filesize
            (if i == num - 1 then magnitude filesize - share * (num - 1) else share);
    }

unfoldable pub segments_from : ℤ → ℕ → ℕ → ℕ → List Segment
unfolding segment
segments_from filesize num i zero = []
segments_from filesize num i (suc more) =
    segment filesize num i ∷ segments_from filesize num (suc i) more

-- The loop of `main`, for a size that is an `int` and `num` servers.
unfoldable pub segments : ℤ → ℕ → List Segment
unfolding segments_from
segments filesize num = segments_from filesize num 0 num

-- A row of `myserver`
pub record Server : Type 0 where
  pub ip : Bytes
  pub port : ℤ

row_port : Bytes → Option (Bytes × Bytes) → Outcome Server
unfolding atoi
row_port ip none = fault
row_port ip (some (port, rest)) = ok (record { ip = ip; port = atoi port })

-- The 16 bytes from the first token are copied: a string where its NUL is among them.
row : Option (Bytes × Bytes) → Outcome Server
unfolding row_port strtok
row none = fault
row (some (ip, rest)) = do
  undefined_if (not (ltb (length ip) 16))
  row_port ip (strtok (codes " \t") rest)

-- The loop over the file of servers, for the lines that `fgets` brings: the rows, at most `num`.
unfoldable pub read_servers : ℕ → List Bytes → Outcome (List Server)
unfolding row strtok
read_servers num [] = ok []
read_servers zero (line ∷ lines) = ok []
read_servers (suc num) (line ∷ lines) =
    row (strtok (codes " \t") line) >>= λ s. read_servers num lines >>= λ ss. ok (s ∷ ss)

-- `filesize`, from what the two `read` calls bring: without a flag it stays what it is; the flag's value
-- is not looked at.
unfoldable pub asked_size : ℤ → Bytes → Option Bytes → Bytes → ℤ
unfolding ntohl
asked_size filesize response none answer = filesize
asked_size filesize response (some flag) answer = to_int (ntohl (into response answer))

-- Both connections are made to the address in row 2.
unfoldable pub peer_address : List Server → Outcome Bytes
peer_address servers = elim (get_elem? servers 2) [ none ↦ fault | some s ↦ ok s.ip ]

-- The name is sent as the eight bytes of a pointer's size, from the memory at `filename`.
abbrev pub pointer_size : ℕ
pointer_size = 8

unfoldable pub name_message : Bytes → Bytes
name_message memory = take pointer_size memory

-- the conversion of an `int` to the 32 bits that `htonl` takes
abbrev pub as_uint32 : ℤ → ℕ
as_uint32 (pos n) = n
as_uint32 (negsuc n) = 2 ^ 32 - 1 - n

-- The request behind an answer "0". The literal "1" is sent with its NUL.
unfoldable pub request : Segment → Bytes
unfolding htonl
request s =
    codes "1" ++ (0 ∷ []) ++ htonl (as_uint32 s.segment_start) ++ htonl (as_uint32 s.segment_size)

-- The chunk of `fileTransfer` has 2048 bytes; it is only printed. The size goes to `read` as a `size_t`.
unfoldable pub receive : Segment → Bytes → Outcome Bytes
receive s answer =
    let chunk = take (as_size s.segment_size) answer in
    do undefined_if (ltb 2048 (length chunk)); ok chunk
