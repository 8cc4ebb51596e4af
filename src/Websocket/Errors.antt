-- ===== src/Websocket/Errors.antt =====
-- What `Parser::parse_yet` refuses: unmasked frames, and announced lengths above the limit.
use native.Mathlib.Decide.{dec_lt}
use anweb.Prelude.{
  ℕ, suc, ◌+◌, ◌^◌, ◌≤◌, ◌<◌, ◌≡◌, refl, ◌∙◌, arith, Bool, true, [], ◌∷◌, ◌++◌, ltb, le→ltb, lt→ltb,
  Bool-cases, inl, inr, length, Bytes,
}
use anweb.Prelude.Bits.{bit_and_top, bit_and_low_seven}
use anweb.Websocket.{
  Frame, refused, new_parser, new_frame, ParseFrameError, unmasked_client_maessage, payload_limit,
  parse_second_byte_where_mask_and_payload_len, parse_extended_payload_len, frame,
  second_byte_round, extended_len_round, extended_len_set, round_in, run, failed, parse_yet,
}
use anweb.Websocket.Length.{big_endian}
use anweb.Websocket.Rounds.{run_first, run_second}
use anweb.Websocket.Rfc.{
  first_octet, length_field, LengthForm, seven_bits, sixteen_bits, sixty_four_bits, Fits, length_in,
  server_frame, frame-eq-server_frame,
}
use anweb.Websocket.RoundTrip.{first_byte_read, second_byte_read, two_bytes_read, eight_bytes_read}

module _ (n limit : ℕ) (f : Frame) {e : ParseFrameError} where
  run_second_refused :
      second_byte_round limit f ≡ refused e
      → run
          (suc n)
          limit
          (record { state = parse_second_byte_where_mask_and_payload_len; frame = f })
        ≡ failed e
  unfolding run round_in
  run_second_refused h = rw (run, h)

  run_extended_refused :
      extended_len_round limit f ≡ refused e
      → run (suc n) limit (record { state = parse_extended_payload_len; frame = f }) ≡ failed e
  unfolding run round_in
  run_extended_refused h = rw (run, h)

module _ (f : Frame) (limit first : ℕ) (behind : Bytes) where
  unmasked_refused :
      (second : ℕ)
      → second < 128
      → f.buf ≡ first ∷ second ∷ behind
      → second_byte_round limit f ≡ refused unmasked_client_maessage
  unfolding second_byte_round
  unmasked_refused second h e = ground (arith, bit_and_top second)

  marker_refused :
      (marker : ℕ)
      → marker < 128
      → limit < marker
      → f.buf ≡ first ∷ (128 + marker) ∷ behind
      → second_byte_round limit f ≡ refused payload_limit
  unfolding second_byte_round
  marker_refused marker h k e =
      ground (arith, bit_and_top (128 + marker), bit_and_low_seven (128 + marker))

module _ (f : Frame) (limit n key_index : ℕ) where
  extended_len_over : limit < n → extended_len_set limit f n key_index ≡ refused payload_limit
  unfolding extended_len_set
  extended_len_over h = rw (lt→ltb limit n h)

-- The length field starts with the mask bit and a marker of seven bits.
length_field_marker :
    (mask_bit n : ℕ)
    → (marker : ℕ) × (more : Bytes) × (length_field mask_bit n ≡ (mask_bit + marker) ∷ more)
      × (marker < 128)
unfolding length_field
length_field_marker mask_bit n = elim (dec_lt n 126) [
  | yes h ↦ (n, [], rw (lt→ltb n 126 h), omega arith)
  | no h ↦ elim (Bool-cases (ltb n 65536)) [
    | inl k ↦ (126, big_endian 2 n, rw (le→ltb n 126 (omega arith), k), omega arith)
    | inr k ↦ (127, big_endian 8 n, rw (le→ltb n 126 (omega arith), k), omega arith)
  ]
]

module _ (fin : Bool) (opcode : ℕ) (four_bits : opcode < 16) where
  abbrev headed : Bytes → Frame
  headed stream = record new_frame { fin = fin; opcode = opcode; buf = stream }

  -- The first byte of a frame never stops the parser.
  parse_yet_second :
      (limit : ℕ) (behind : Bytes)
      → let stream = first_octet fin opcode ∷ behind in
        parse_yet new_parser stream limit
        ≡ run 4 limit
            (record { state = parse_second_byte_where_mask_and_payload_len; frame = headed stream })
  unfolding parse_yet
  parse_yet_second limit behind = run_first 4 limit _ (
      first_byte_read (record new_frame { buf = first_octet fin opcode ∷ behind }) fin opcode behind
        four_bits refl)

  over_marker :
      (limit marker : ℕ) (behind : Bytes)
      → marker < 128
      → limit < marker
      → parse_yet new_parser (first_octet fin opcode ∷ (128 + marker) ∷ behind) limit
        ≡ failed payload_limit
  over_marker limit marker behind h k =
      parse_yet_second limit ((128 + marker) ∷ behind)
      ∙ run_second_refused 3 limit _ (marker_refused (headed _) limit _ behind marker h k refl)

  -- The marker is within the limit, and the length behind it is not.
  over_extended :
      (limit marker n key_index : ℕ) (behind : Bytes)
      → 126 ≤ marker
      → marker < 128
      → marker ≤ limit
      → limit < n
      → let stream = first_octet fin opcode ∷ (128 + marker) ∷ behind in
        let f = record (headed stream) { payload_len = marker } in
        extended_len_round limit f ≡ extended_len_set limit f n key_index
        → parse_yet new_parser stream limit ≡ failed payload_limit
  over_extended limit marker n key_index behind lo hi fits over e =
      let stream = first_octet fin opcode ∷ (128 + marker) ∷ behind in
      let f = record (headed stream) { payload_len = marker } in
      parse_yet_second limit ((128 + marker) ∷ behind)
      ∙ run_second 3 limit _ (
          second_byte_read (headed stream) limit _ marker behind hi fits refl
          ∙ rw (le→ltb marker 126 lo))
      ∙ run_extended_refused 2 limit f (e ∙ extended_len_over f limit n key_index over)

-- The server refuses what it would itself send: whatever the limit and whatever follows, a frame
-- of `frame`, of a four-bit opcode and a payload whose length fits 64 bits, is refused as unmasked.
pub parse_yet-frame :
    (limit opcode : ℕ) (body rest : Bytes)
    → opcode < 16
    → length body < 2 ^ 64
    → parse_yet new_parser (frame opcode body ++ rest) limit ≡ failed unmasked_client_maessage
unfolding server_frame
parse_yet-frame limit opcode body rest h k =
    let (marker, more, e, low) = length_field_marker 0 (length body) in
    rw (frame-eq-server_frame opcode body h k, e)
      (parse_yet_second true opcode h limit _
        ∙ run_second_refused 3 limit _
            (unmasked_refused (headed true opcode h _) limit _ _ (0 + marker) (omega arith) refl))

-- A masked frame of a four-bit opcode whose announced length exceeds the limit is refused on its
-- header alone, in each form of the length that can hold it, the shortest or not; what comes behind
-- the length does not matter.
pub parse_yet-over_limit :
    (limit n : ℕ) (fin : Bool) (opcode : ℕ) (form : LengthForm) (behind : Bytes)
    → opcode < 16
    → limit < n
    → Fits form n
    → parse_yet new_parser (first_octet fin opcode ∷ (length_in form 128 n ++ behind)) limit
      ≡ failed payload_limit
parse_yet-over_limit limit n fin opcode seven_bits behind h over fits =
    over_marker fin opcode h limit n behind (omega arith) over
parse_yet-over_limit limit n fin opcode sixteen_bits behind h over fits = elim (dec_lt limit 126) [
  | yes low ↦ over_marker fin opcode h limit 126 _ (omega arith) low
  | no high ↦
      over_extended fin opcode h limit 126 n 4 (big_endian 2 n ++ behind) (omega arith)
        (omega arith) (omega arith) over (two_bytes_read _ limit _ _ n behind fits refl refl)
]
parse_yet-over_limit limit n fin opcode sixty_four_bits behind h over fits =
    elim (dec_lt limit 127) [
      | yes low ↦ over_marker fin opcode h limit 127 _ (omega arith) low
      | no high ↦
          over_extended fin opcode h limit 127 n 10 (big_endian 8 n ++ behind) (omega arith)
            (omega arith) (omega arith) over (eight_bytes_read _ limit _ _ n behind fits refl refl)
    ]
