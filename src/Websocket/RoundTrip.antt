-- ===== src/Websocket/RoundTrip.antt =====
-- `Parser::parse_yet` reads what a client writes by RFC 6455.
use anweb.Prelude.{
  ℕ, suc, ◌+◌, ◌/◌, ◌%◌, ◌^◌, ◌≤◌, ◌<◌, ◌≡◌, refl, sym, ◌∙◌, arith, Bool, true, false, [], ◌∷◌,
  ◌++◌, append_assoc, ltb, if◌then◌else◌, le→ltb, lt→ltb, length, Bytes,
}
use anweb.Prelude.Bits.{bit_and_top, bit_and_low_seven, bit_and_low_four}
use anweb.Websocket.{
  Frame, Round, again, new_parser, new_frame, parse_second_byte_where_mask_and_payload_len,
  parse_extended_payload_len, parse_masking_key, payload, first_byte_round, second_byte_round,
  extended_len_round, extended_len_set, run, got, parse_yet,
}
use native.Mathlib.Decide.{dec_lt}
use anweb.Websocket.Rounds.{run_first, run_second, run_extended}
use anweb.Websocket.Length.{big_endian, big_endian_two, big_endian_eight, read_u16, read_u64}
use anweb.Websocket.Rfc.{Key, octets, masked_by, first_octet, length_field, client_frame}
use anweb.Websocket.Masking.{
  AllBytes, decode-masked_by, length-masked, framed, run_from_key, payload-framed,
}

module _ (f : Frame) where
  pub first_byte_read :
      (fin : Bool) (opcode : ℕ) (behind : Bytes)
      → opcode < 16
      → f.buf ≡ first_octet fin opcode ∷ behind
      → first_byte_round f
        ≡ again (record {
          state = parse_second_byte_where_mask_and_payload_len;
          frame = record f { fin = fin; opcode = opcode };
        })
  unfolding first_byte_round
  first_byte_read true opcode behind h e =
      ground (arith, bit_and_low_four (128 + opcode), bit_and_top (128 + opcode))
  first_byte_read false opcode behind h e =
      ground (arith, bit_and_low_four (0 + opcode), bit_and_top (0 + opcode))

  pub second_byte_read :
      (limit first marker : ℕ) (behind : Bytes)
      → marker < 128
      → marker ≤ limit
      → f.buf ≡ first ∷ (128 + marker) ∷ behind
      → second_byte_round limit f ≡ (
          if ltb marker 126
          then again (record {
            state = parse_masking_key;
            frame = record f { payload_len = marker; masking_key_index = 2 };
          })
          else again (record {
            state = parse_extended_payload_len;
            frame = record f { payload_len = marker };
          }))
  unfolding second_byte_round
  second_byte_read limit first marker behind h k e =
      ground (arith, bit_and_top (128 + marker), bit_and_low_seven (128 + marker))

  abbrev long : ℕ → ℕ → Round
  long n key_index = again (record {
    state = parse_masking_key;
    frame = record f { payload_len = n; masking_key_index = key_index };
  })

  extended_len_within :
      (limit n key_index : ℕ) → n ≤ limit → extended_len_set limit f n key_index ≡ long n key_index
  unfolding extended_len_set
  extended_len_within limit n key_index h = rw (le→ltb limit n h)

  pub two_bytes_read :
      (limit first second n : ℕ) (behind : Bytes)
      → n < 65536
      → f.payload_len ≡ 126
      → f.buf ≡ first ∷ second ∷ (big_endian 2 n ++ behind)
      → extended_len_round limit f ≡ extended_len_set limit f n 4
  unfolding extended_len_round
  two_bytes_read limit first second n behind h m e =
      let at : f.buf ≡ first ∷ second ∷ n / 256 ∷ n % 256 ∷ behind = e ∙ rw (big_endian_two n h) in
      ground (arith, at, read_u16 n h)

  pub eight_bytes_read :
      (limit first second n : ℕ) (behind : Bytes)
      → n < 2 ^ 64
      → f.payload_len ≡ 127
      → f.buf ≡ first ∷ second ∷ (big_endian 8 n ++ behind)
      → extended_len_round limit f ≡ extended_len_set limit f n 10
  unfolding extended_len_round
  eight_bytes_read limit first second n behind h m e =
      let digits = big_endian_eight n in
      let at = rw digits at e in ground (arith, at, rw digits at (read_u64 n h digits))

-- The parser takes `stream` from its start, hands out one frame with this FIN bit, opcode and
-- payload, keeps `rest` as the surplus, and is new again.
abbrev pub Reads : ℕ → Bytes → Bytes → Bool → ℕ → Bytes → Type 0
Reads limit stream rest fin opcode body =
    (f : Frame) × (parse_yet new_parser stream limit ≡ got new_parser f rest)
    × (payload f ≡ body)
    × (f.fin ≡ fin)
    × (f.opcode ≡ opcode)

module _ (limit : ℕ) (key : Key) (body rest : Bytes) (key_bytes : AllBytes (octets key))
    (body_bytes : AllBytes body) (within : length body ≤ limit) (small : limit + 14 < 2 ^ 64) where
  abbrev behind : Bytes
  behind = octets key ++ (masked_by key body ++ rest)

  -- Once the header `head` is read into `f`.
  Reads-from_key :
      (n : ℕ) (head : Bytes) (f : Frame)
      → 0 < length head
      → length head ≤ 10
      → f.buf ≡ head ++ behind
      → f.masking_key_index ≡ length head
      → f.payload_len ≡ length body
      → parse_yet new_parser (head ++ behind) limit
        ≡ run (suc (suc n)) limit (record { state = parse_masking_key; frame = f })
      → Reads limit (head ++ behind) rest f.fin f.opcode body
  Reads-from_key n head f some_head short whole at_key counted started =
      let masked_len = length-masked body key.k0 key.k1 key.k2 key.k3 in
      let fits : length head + 4 + length (masked_by key body) < 2 ^ 64 =
        omega (arith, masked_len) in
      let counted' : f.payload_len ≡ length (masked_by key body) = counted ∙ sym masked_len in
      (
        framed limit f head (octets key) (masked_by key body) rest whole at_key some_head refl
            counted' fits,
        started
            ∙ run_from_key limit f head (octets key) (masked_by key body) rest whole at_key
                some_head refl counted' fits n,
        payload-framed limit f head (octets key) (masked_by key body) rest whole at_key some_head
              refl counted' fits
            ∙ decode-masked_by key body key_bytes body_bytes,
        refl,
        refl,
      )

  module _ (fin : Bool) (opcode : ℕ) (four_bits : opcode < 16) where
    abbrev start : Bytes → Frame
    start stream = record new_frame { buf = stream }

    abbrev known : Bytes → ℕ → ℕ → Frame
    known stream n key_index = record new_frame {
      fin = fin;
      opcode = opcode;
      buf = stream;
      payload_len = n;
      masking_key_index = key_index;
    }

    started_short :
        (n : ℕ)
        → n < 126
        → n ≤ limit
        → let stream = first_octet fin opcode ∷ (128 + n) ∷ behind in
          parse_yet new_parser stream limit
          ≡ run 3 limit (record { state = parse_masking_key; frame = known stream n 2 })
    unfolding parse_yet
    started_short n h k =
        let stream = first_octet fin opcode ∷ (128 + n) ∷ behind in
        run_first 4 limit _ (first_byte_read (start stream) fin opcode _ four_bits refl)
        ∙ run_second 3 limit _ (
            second_byte_read (known stream 0 0) limit _ n _ (omega arith) k refl
            ∙ rw (lt→ltb n 126 h))

    started_long :
        (marker n key_index : ℕ) (extra : Bytes)
        → 126 ≤ marker
        → marker < 128
        → marker ≤ limit
        → let stream = first_octet fin opcode ∷ (128 + marker) ∷ (extra ++ behind) in
          extended_len_round limit (known stream marker 0)
            ≡ long (known stream marker 0) n key_index
          → parse_yet new_parser stream limit
            ≡ run 2 limit (record { state = parse_masking_key; frame = known stream n key_index })
    unfolding parse_yet
    started_long marker n key_index extra lo hi fits e =
        let stream = first_octet fin opcode ∷ (128 + marker) ∷ (extra ++ behind) in
        run_first 4 limit _ (first_byte_read (start stream) fin opcode _ four_bits refl)
        ∙ run_second 3 limit _ (
            second_byte_read (known stream 0 0) limit _ marker _ hi fits refl
            ∙ rw (le→ltb marker 126 lo))
        ∙ run_extended 2 limit _ e

    abbrev Wanted : Bytes → Type 0
    Wanted lengths = Reads limit ((first_octet fin opcode ∷ lengths) ++ behind) rest fin opcode body

    Wanted-short : length body < 126 → Wanted ((128 + length body) ∷ [])
    Wanted-short h =
        Reads-from_key 1 (first_octet fin opcode ∷ (128 + length body) ∷ []) _ (omega arith)
          (omega arith) refl refl refl (started_short (length body) h within)

    Wanted-two_bytes :
        126 ≤ length body → length body < 65536 → Wanted ((128 + 126) ∷ big_endian 2 (length body))
    Wanted-two_bytes lo hi =
        let n = length body in
        let stream = first_octet fin opcode ∷ (128 + 126) ∷ (big_endian 2 n ++ behind) in
        Reads-from_key 0 (first_octet fin opcode ∷ (128 + 126) ∷ big_endian 2 n) (known stream n 4)
          (omega arith) (rw (big_endian_two n hi) (omega arith)) refl (rw (big_endian_two n hi))
          refl
          (started_long 126 n 4 (big_endian 2 n) (omega arith) (omega arith) (omega arith) (
            two_bytes_read (known stream 126 0) limit _ _ n behind hi refl refl
            ∙ extended_len_within (known stream 126 0) limit n 4 within))

    Wanted-eight_bytes : 65536 ≤ length body → Wanted ((128 + 127) ∷ big_endian 8 (length body))
    Wanted-eight_bytes lo =
        let n = length body in
        let stream = first_octet fin opcode ∷ (128 + 127) ∷ (big_endian 8 n ++ behind) in
        Reads-from_key 0 (first_octet fin opcode ∷ (128 + 127) ∷ big_endian 8 n) (known stream n 10)
          (omega arith) (rw (big_endian_eight n) (omega arith)) refl (rw (big_endian_eight n)) refl
          (started_long 127 n 10 (big_endian 8 n) (omega arith) (omega arith) (omega arith) (
            eight_bytes_read (known stream 127 0) limit _ _ n behind (omega arith) refl refl
            ∙ extended_len_within (known stream 127 0) limit n 10 within))

    Wanted-length_field : Wanted (length_field 128 (length body))
    unfolding length_field
    Wanted-length_field = elim (dec_lt (length body) 126) [
      | yes h ↦ rw (lt→ltb (length body) 126 h) (Wanted-short h)
      | no h ↦ rw (le→ltb (length body) 126 (omega arith)) (elim (dec_lt (length body) 65536) [
        | yes k ↦ rw (lt→ltb (length body) 65536 k) (Wanted-two_bytes (omega arith) k)
        | no k ↦ rw (le→ltb (length body) 65536 (omega arith)) (Wanted-eight_bytes (omega arith))
      ])
    ]

-- A frame written by a client as RFC 6455 asks (any FIN bit, any opcode of four bits, any key, a
-- payload of bytes) is read back from the front of the stream by a new parser: the frame has the
-- same FIN bit and opcode, its payload is the unmasked one, and the bytes behind the frame are the
-- surplus. The payload must not be longer than the limit, and the limit must leave room for the
-- header below 2 ^ 64.
pub parse_yet-client_frame :
    (limit : ℕ) (fin : Bool) (opcode : ℕ) (key : Key) (body rest : Bytes)
    → opcode < 16
    → AllBytes (octets key)
    → AllBytes body
    → length body ≤ limit
    → limit + 14 < 2 ^ 64
    → Reads limit (client_frame fin opcode key body ++ rest) rest fin opcode body
unfolding client_frame
parse_yet-client_frame limit fin opcode key body rest h hk hb within small =
    simp append_assoc (Wanted-length_field limit key body rest hk hb within small fin opcode h)
