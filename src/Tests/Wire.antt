-- ===== src/Tests/Wire.antt =====
-- Requests and replies on the wire.
use network_protocol_cli_too.Common.{◌≡◌, [], arith, replicate}
use network_protocol_cli_too.CString.{Bytes, codes, IsWordChar-space}
use network_protocol_cli_too.Transfer.Protocol.{Params, get_request, scan_request}
use network_protocol_cli_too.Transfer.Protocol.RoundTrip.{IsFilename, scan_request-get_request}
use network_protocol_cli_too.Tftp.Packet.{data_packet, packet_seq_num, packet_seq_num-data_packet}
use network_protocol_cli_too.Tftp.AckQueue.{AckQueue}

abbrev name : Bytes
name = codes "f"

abbrev old : Params
old = record { command = []; filename = []; offset = 5; chunk_size = 6 }

abbrev queue : AckQueue
queue = record {
  slots = replicate 5 (record { seq_num = 0; client_addr = 0; addr_len = 0 });
  size = 0;
}

name-IsFilename : IsFilename name
name-IsFilename = (omega arith, omega arith, (IsWordChar-space 102 (omega arith), tt))

scan_request-get_request_example :
    scan_request old (get_request 1024 name 10 20)
    ≡ (4, record { command = codes "GET"; filename = name; offset = 10; chunk_size = 20 })
scan_request-get_request_example =
    scan_request-get_request old 1024 name 10 20 (omega arith) name-IsFilename (omega arith)
      (omega arith)

packet_seq_num-data_packet_example : packet_seq_num (data_packet 258 (codes "abc")) ≡ 258
packet_seq_num-data_packet_example = packet_seq_num-data_packet 258 (codes "abc") (omega arith)
