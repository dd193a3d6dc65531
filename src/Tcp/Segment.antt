-- ===== src/Tcp/Segment.antt =====
-- What the server makes of the client's request for a segment.
use network_protocol_cli_too.Common.{List, [], ◌∷◌, ◌++◌, take, drop, pos_part}
use network_protocol_cli_too.CString.{Bytes}
use network_protocol_cli_too.Tcp.Client.{Segment}

-- What the segments name of a file, one behind the other.
abbrev pub chunks : Bytes → List Segment → Bytes
chunks file [] = []
chunks file (s ∷ ss) =
    take (pos_part s.segment_size) (drop (pos_part s.segment_start) file) ++ chunks file ss
