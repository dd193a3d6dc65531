-- ===== src/Tftp/Packet.antt =====
-- A data packet: eight bytes of sequence number in the host's order (the machines are little-endian)
-- and the payload.
use network_protocol_cli_too.Common.{
  ℕ, ◌+◌, ◌≤◌, ◌≡◌, refl, ap, ◌++◌, arith, length, take, drop, size_max, length-append, ◌∙◌,
}
use network_protocol_cli_too.CString.{Bytes}
use network_protocol_cli_too.CString.Words.{le_bytes, le_value, length-le_bytes, le_value-le_bytes}

abbrev pub buffer_size : ℕ
buffer_size = 1024

abbrev pub max_retries : ℕ
max_retries = 5

-- `memcpy(buffer, &seq_num, sizeof(seq_num))` in front of the payload
unfoldable pub data_packet : ℕ → Bytes → Bytes
unfolding le_bytes
data_packet seq_num payload = le_bytes 8 seq_num ++ payload

-- `memcpy(&seq_num, buffer, sizeof(seq_num))`. A shorter packet leaves zeros in the buffer.
unfoldable pub packet_seq_num : Bytes → ℕ
unfolding le_value
packet_seq_num packet = le_value (take 8 packet)

-- `buffer + sizeof(seq_num)`, up to the end of what was received
abbrev pub packet_payload : Bytes → Bytes
packet_payload packet = drop 8 packet

pub length-data_packet :
    (seq_num : ℕ) (payload : Bytes) → length (data_packet seq_num payload) ≡ 8 + length payload
unfolding data_packet
length-data_packet seq_num payload =
    length-append (le_bytes 8 seq_num) payload
    ∙ ap (λ n. n + length payload) (length-le_bytes 8 seq_num)

pub packet_payload-data_packet :
    (seq_num : ℕ) (payload : Bytes) → packet_payload (data_packet seq_num payload) ≡ payload
unfolding data_packet
packet_payload-data_packet seq_num payload = refl

-- The client reads the sequence number that the server wrote.
pub packet_seq_num-data_packet :
    (seq_num : ℕ) (payload : Bytes)
    → seq_num ≤ size_max
    → packet_seq_num (data_packet seq_num payload) ≡ seq_num
unfolding packet_seq_num data_packet
packet_seq_num-data_packet seq_num payload h = le_value-le_bytes 8 seq_num (omega arith)
