-- ===== src/Tests/Tcp.antt =====
-- A segment of the archived transfer over TCP.
use network_protocol_cli_too.Common.{◌≡◌, refl, [], ◌∷◌, ◌++◌, ok, replicate, true}
use network_protocol_cli_too.CString.{Bytes, codes}
use network_protocol_cli_too.Common.{some}
use network_protocol_cli_too.Tcp.Server.{htonl, serve_flag, serve}
use network_protocol_cli_too.CString.Search.{strtok}
use network_protocol_cli_too.CString.Signed.{atoi}
use network_protocol_cli_too.Common.{pos, fault}
use network_protocol_cli_too.Tcp.Client.{read_servers, peer_address, Segment, segments}

abbrev second : Segment
second = record { pid = 1; segment_start = pos 3; segment_size = pos 4 }

abbrev text : Bytes
text = codes "abcdefg"

abbrev unset : Bytes
unset = 0 ∷ 0 ∷ 0 ∷ 0 ∷ []

segments_two :
    segments (pos 7) 2
    ≡ record { pid = 0; segment_start = pos 0; segment_size = pos 3 } ∷ second ∷ []
unfolding segments
segments_two = refl

size_asked :
    serve (λ name. some text) (replicate 300 0) unset (0 ∷ []) (codes "f") (codes "0")
    ≡ ok (record { sent = codes "0" ++ htonl 7; goes_on = true })
unfolding serve serve_flag
size_asked = refl

servers_read :
    read_servers 3 (codes "10.0.0.1 80\n" ∷ codes "10.0.0.2\t81\n" ∷ [])
    ≡ ok (
        record { ip = codes "10.0.0.1"; port = pos 80 }
        ∷ record { ip = codes "10.0.0.2"; port = pos 81 }
        ∷ [])
unfolding read_servers strtok atoi
servers_read = refl

-- With two servers, the address that is used is behind the end of the table.
no_third :
    peer_address (
      record { ip = codes "10.0.0.1"; port = pos 80 }
      ∷ record { ip = codes "10.0.0.2"; port = pos 81 }
      ∷ [])
    ≡ fault
unfolding peer_address
no_third = refl
