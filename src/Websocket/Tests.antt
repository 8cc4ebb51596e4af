-- ===== src/Websocket/Tests.antt =====
-- Runs of the websocket encoder and parser, and the theorems at concrete frames.
use anweb.Prelude.{◌≡◌, ◌≢◌, refl, arith, true, some, [], ◌∷◌, ◌++◌, Bytes, codes}
use anweb.Websocket.{
  frame, Frame, Parser, new_parser, got, partial, failed, running, run, round_in, decode_frame,
  parse_yet, payload, unsupported_opcode, unmasked_client_maessage, payload_limit, mask, is_text,
}
use anweb.Websocket.Rounds.{parse_yet-ne-running}
use anweb.Websocket.Chunks.{resume, parse_yet-append}
use anweb.Websocket.Rfc.{
  Key, client_frame, server_frame, first_octet, length_field, length_in, sixty_four_bits,
  frame-eq-server_frame,
}
use anweb.Websocket.RoundTrip.{Reads, parse_yet-client_frame}
use anweb.Websocket.Errors.{parse_yet-frame, parse_yet-over_limit}
use anweb.Websocket.Opcodes.{parse_yet-ne-unsupported_opcode}
use anweb.Websocket.Waits.{parse_yet_waits}

abbrev key : Key
key = record { k0 = 1; k1 = 2; k2 = 3; k3 = 4 }

abbrev hello : Bytes
hello = codes "Hello"

-- A masked text frame with the payload "Hello".
abbrev hello_frame : Bytes
hello_frame = 0x81 ∷ 0x85 ∷ 1 ∷ 2 ∷ 3 ∷ 4 ∷ 73 ∷ 103 ∷ 111 ∷ 104 ∷ 110 ∷ []

hello_frame_written : client_frame true 1 key hello ≡ hello_frame
unfolding client_frame length_field
hello_frame_written = refl

frame_hello : frame 1 hello ≡ 0x81 ∷ 5 ∷ hello
unfolding frame
frame_hello = refl

abbrev hello_read : Frame
hello_read = record {
  fin = true;
  opcode = 1;
  buf = 0x81 ∷ 0x85 ∷ 1 ∷ 2 ∷ 3 ∷ 4 ∷ hello;
  payload_index = 6;
  payload_len = 5;
  masking_key_index = 2;
}

parse_hello :
    parse_yet new_parser (hello_frame ++ codes "x") 100 ≡ got new_parser hello_read (codes "x")
unfolding parse_yet run round_in decode_frame
parse_hello = refl

accessors_hello :
    (payload hello_read ≡ hello)
    × (mask hello_read ≡ some (1 ∷ 2 ∷ 3 ∷ 4 ∷ []))
    × (is_text hello_read ≡ true)
unfolding payload mask is_text
accessors_hello = (refl, refl, refl)

parse_yet-ne-running_example : parse_yet new_parser hello_frame 100 ≢ running
parse_yet-ne-running_example = parse_yet-ne-running new_parser hello_frame 100

parse_yet-append_example :
    parse_yet new_parser ((0x81 ∷ []) ++ (0x05 ∷ [])) 100
    ≡ resume (parse_yet new_parser (0x81 ∷ []) 100) (0x05 ∷ []) 100
parse_yet-append_example = parse_yet-append new_parser (0x81 ∷ []) (0x05 ∷ []) 100

frame-eq-server_frame_example : frame 2 hello ≡ server_frame true 2 hello
frame-eq-server_frame_example = frame-eq-server_frame 2 hello (omega arith) (omega arith)

parse_yet-client_frame_example :
    Reads 100 (client_frame true 1 key hello ++ codes "x") (codes "x") true 1 hello
parse_yet-client_frame_example =
    parse_yet-client_frame 100 true 1 key hello (codes "x") (omega arith) (omega arith)
      (omega arith) (omega arith) (omega arith)

parse_yet-ne-unsupported_opcode_example :
    parse_yet new_parser (0x8F ∷ 0x80 ∷ []) 100 ≢ failed unsupported_opcode
parse_yet-ne-unsupported_opcode_example =
    parse_yet-ne-unsupported_opcode new_parser (0x8F ∷ 0x80 ∷ []) 100 (omega arith)

parse_yet-frame_example :
    parse_yet new_parser (frame 1 hello ++ []) 100 ≡ failed unmasked_client_maessage
parse_yet-frame_example = parse_yet-frame 100 1 hello [] (omega arith) (omega arith)

parse_yet-over_limit_example :
    parse_yet new_parser (first_octet true 1 ∷ (length_in sixty_four_bits 128 1000 ++ [])) 999
    ≡ failed payload_limit
parse_yet-over_limit_example =
    parse_yet-over_limit 999 1000 true 1 sixty_four_bits [] (omega arith) (omega arith)
      (omega arith)

parse_yet_waits_example :
    (q : Parser) × (f : Frame) × (parse_yet new_parser (0x81 ∷ 0x85 ∷ 1 ∷ []) 100 ≡ partial q)
    × (parse_yet q (2 ∷ 3 ∷ 4 ∷ 73 ∷ 103 ∷ 111 ∷ 104 ∷ 110 ∷ []) 100 ≡ got new_parser f [])
    × (payload f ≡ hello)
parse_yet_waits_example =
    parse_yet_waits 100 true 1 key hello (0x81 ∷ 0x85 ∷ 1 ∷ [])
      (2 ∷ 3 ∷ 4 ∷ 73 ∷ 103 ∷ 111 ∷ 104 ∷ 110 ∷ []) (omega arith) (omega arith) (omega arith)
      (omega arith) (omega arith) hello_frame_written (λ e. cc)
