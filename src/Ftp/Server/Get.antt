-- ===== src/Ftp/Server/Get.antt =====
-- `handle_client` on a GET request, from the request to the last byte.
use network_protocol_cli_too.Common.{
  ℕ, ◌+◌, ◌-◌, ◌^◌, ◌≤◌, ◌<◌, ◌≡◌, refl, sym, ap, ◌∙◌, false, List, [], ◌∷◌, ◌++◌, Option, some,
  arith, length, take, drop, slice, size_max, append-nil, length-drop, take_all, length-take,
}
use network_protocol_cli_too.CString.{Bytes, codes, c_str, bytes_eq}
use network_protocol_cli_too.Transfer.Protocol.{Params, get_request, scan_request}
use network_protocol_cli_too.Transfer.Protocol.RoundTrip.{
  IsFilename, get_text, get_text_nonempty, get_request-fits, length-get_text,
  scan_request-get_request, c_str-get_request,
}
use network_protocol_cli_too.Ftp.Server.{
  buffer_size, Ended, closed, process_exit, Served, stop, load, Next, send_blocks, out_of_range,
  serve_get, serve_file, serve_request, handle_client,
}
use network_protocol_cli_too.Ftp.Server.Stream.{
  Writes, load-Loads, send_blocks-IsPrefix, send_blocks-closed,
}

-- The scanned fields of a GET request.
abbrev get_params : Bytes → ℕ → ℕ → Params
get_params name offset size = record {
  command = codes "GET";
  filename = name;
  offset = offset;
  chunk_size = size;
}

serve_request_get :
    (fopen : Bytes → Option Bytes) (writes : List (ℕ → Option ℕ)) (name : Bytes) (offset size : ℕ)
    → 0 < size
    → serve_request fopen writes (4, get_params name offset size)
      ≡ serve_file false writes (get_params name offset size) (fopen name)
unfolding serve_request bytes_eq
serve_request_get fopen writes name offset size p = ground arith

handle_client_text :
    (old : Params) (fopen : Bytes → Option Bytes) (writes : List (ℕ → Option ℕ)) (request : Bytes)
    → 0 < length request
    → length request < buffer_size
    → handle_client old fopen writes (some request)
      ≡ serve_request fopen writes (scan_request old (c_str request))
unfolding handle_client
handle_client_text old fopen writes [] p h = absurd (omega arith)
handle_client_text old fopen writes (c ∷ request) p h =
    ap (λ t. serve_request fopen writes (scan_request old (c_str t)))
      (take_all (buffer_size - 1) (c ∷ request) (omega arith))

served_fields :
    (s : Served) (bytes : Bytes) (e : Ended)
    → s.sent ≡ bytes
    → s.ended ≡ e
    → s ≡ record { sent = bytes; ended = e }
served_fields s bytes e sent ended = cc

module _ (old : Params) (fopen : Bytes → Option Bytes) (writes : List (ℕ → Option ℕ))
    (file name : Bytes) (offset size : ℕ) (usable : IsFilename name)
    (found : fopen name ≡ some file) (some_bytes : 0 < size) (offset_fits : offset ≤ size_max)
    (size_fits : size ≤ size_max) where
  -- The client's request reaches the part of the server that sends the chunk.
  handle_get :
      handle_client old fopen writes (some (get_request buffer_size name offset size))
      ≡ serve_get writes offset size file
  unfolding serve_file
  handle_get =
      handle_client_text old fopen writes request (omega (arith, whole_length, text_length))
        (omega (arith, whole_length, length-get_text name offset size, usable.1))
      ∙ ap (λ t. serve_request fopen writes (scan_request old t))
          (c_str-get_request buffer_size name offset size room usable)
      ∙ ap (serve_request fopen writes) (
          scan_request-get_request old buffer_size name offset size room usable offset_fits
            size_fits)
      ∙ serve_request_get fopen writes name offset size some_bytes
      ∙ ap (serve_file false writes (get_params name offset size)) found
    where
      room : 301 < buffer_size
      room = omega arith

      request : Bytes
      request = get_request buffer_size name offset size

      whole_length : length request ≡ length (get_text name offset size)
      whole_length = ap length (get_request-fits buffer_size name offset size room usable.1)

      text_length : 0 < length (get_text name offset size)
      text_length = get_text_nonempty name offset size

  serve_get_in_range :
      offset + size ≤ length file
      → length file < 2 ^ 64
      → serve_get writes offset size file ≡ send_blocks writes (load size (drop offset file))
  unfolding serve_get
  serve_get_in_range h b = rw in_range refl
    where
      in_range : out_of_range (length file) offset size ≡ false
      in_range = ground arith

  -- A GET request for a chunk of the file, as the client prints it, is answered by exactly the
  -- bytes of the chunk, and the connection is closed, if each `write` takes at least one byte and
  -- there are enough of them.
  pub handle_client-get :
      offset + size ≤ length file
      → length file < 2 ^ 64
      → Writes writes
      → size ≤ length writes
      → handle_client old fopen writes (some (get_request buffer_size name offset size))
        ≡ record { sent = slice file offset size; ended = closed }
  handle_client-get h b w e =
      let (valid, rest) =
        load-Loads size (drop offset file) (omega (arith, length-drop offset file)) (omega arith) in
      let want = take size (drop offset file) in
      let last =
        send_blocks-closed writes next w valid
          (omega (arith, ap length rest, length-take size (drop offset file))) in
      let (tail, joined, all) = send_blocks-IsPrefix writes next w valid in
      handle_get
      ∙ serve_get_in_range h b
      ∙ served_fields (send_blocks writes next) want closed
          (sym (append-nil (send_blocks writes next).sent)
            ∙ ap (◌++◌ (send_blocks writes next).sent) (sym (all last))
            ∙ joined
            ∙ rest)
          last
    where
      next : Next
      next = load size (drop offset file)

  -- A GET request, as the client prints it, that reaches behind the end of a file that is there
  -- sends nothing and ends the whole server, if offset and size do not wrap.
  pub handle_client_out_of_range :
      length file < offset + size
      → offset + size < 2 ^ 64
      → handle_client old fopen writes (some (get_request buffer_size name offset size))
        ≡ record { sent = []; ended = process_exit }
  unfolding serve_get stop
  handle_client_out_of_range h b = handle_get ∙ ground arith
