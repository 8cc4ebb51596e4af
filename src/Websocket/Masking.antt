-- ===== src/Websocket/Masking.antt =====
-- The masking of a websocket payload, and the last two states of `Parser::parse_yet`, which find
-- the key and decode the payload.
use anweb.Prelude.{
  ℕ, suc, ◌+◌, ◌%◌, ◌^◌, ◌<◌, ◌≡◌, refl, sym, ap, ap₂, ◌∙◌, arith, [], ◌∷◌, ◌++◌, append_assoc,
  append-nil, length, get_or, Bytes, length-append, take-append-length, drop-append-length,
}
use anweb.Prelude.Bits.{bit_xor_twice}
use anweb.Websocket.{
  Frame, again, loaded, new_parser, parse_masking_key, load_payload_data, payload, mask_or_zeros,
  decode, decode_frame, masking_key_round, load_round, round_in, run, got,
}
use anweb.Websocket.Rfc.{Key, octets, masked, masked_by}

abbrev pub AllBytes : Bytes → Type 0
AllBytes [] = Unit
AllBytes (x ∷ xs) = (x < 256) × AllBytes xs

-- `decode` undoes the RFC's masking: at each index the two take the same octet of the key.
decode-masked :
    (key : Bytes) (xs : Bytes) (i a b c d : ℕ)
    → get_or key (i % 4) 0 ≡ a
    → get_or key ((i + 1) % 4) 0 ≡ b
    → get_or key ((i + 2) % 4) 0 ≡ c
    → get_or key ((i + 3) % 4) 0 ≡ d
    → AllBytes (a ∷ b ∷ c ∷ d ∷ [])
    → AllBytes xs
    → decode key i (masked a b c d xs) ≡ xs
unfolding decode
decode-masked key [] i a b c d ea eb ec ed hk hx = refl
decode-masked key (x ∷ xs) i a b c d ea eb ec ed hk hx =
    ap₂ ◌∷◌ (rw ea (bit_xor_twice x a hx.0 hk.0)) (
      decode-masked key xs (i + 1) b c d a eb (index (i + 1 + 1) (i + 2) (omega arith) ∙ ec)
        (index (i + 1 + 2) (i + 3) (omega arith) ∙ ed) (index (i + 1 + 3) i (omega arith) ∙ ea)
        (omega arith) hx.1)
  where
    index : (m n : ℕ) → m % 4 ≡ n % 4 → get_or key (m % 4) 0 ≡ get_or key (n % 4) 0
    index m n e = ap (λ (k : ℕ). get_or key k 0) e

pub decode-masked_by :
    (key : Key) (xs : Bytes)
    → AllBytes (octets key)
    → AllBytes xs
    → decode (octets key) 0 (masked_by key xs) ≡ xs
decode-masked_by key xs hk hx =
    decode-masked (octets key) xs 0 key.k0 key.k1 key.k2 key.k3 refl refl refl refl hk hx

pub length-masked : (xs : Bytes) (a b c d : ℕ) → length (masked a b c d xs) ≡ length xs
length-masked [] a b c d = refl
length-masked (x ∷ xs) a b c d = ap suc (length-masked xs b c d a)

-- From the key on: with header `head`, a key of four octets, and `body` as the masked payload,
-- the parser hands out the frame with the payload decoded and leaves the rest.
module _ (limit : ℕ) (f : Frame) (head key body rest : Bytes)
    (whole : f.buf ≡ head ++ (key ++ (body ++ rest))) (at_key : f.masking_key_index ≡ length head)
    (some_head : 0 < length head) (four : length key ≡ 4) (counted : f.payload_len ≡ length body)
    (fits : length head + 4 + length body < 2 ^ 64) where
  parts : f.buf ≡ ((head ++ key) ++ body) ++ rest
  parts = whole ∙ simp (append_assoc)

  abbrev pub framed : Frame
  framed = record f { buf = (head ++ key) ++ decode key 0 body; payload_index = length head + 4 }

  room : length f.buf ≡ length head + 4 + length body + length rest
  room = omega (
    arith,
    ap length whole,
    length-append head (key ++ (body ++ rest)),
    length-append key (body ++ rest),
    length-append body rest,
  )

  abbrev located : Frame
  located = record f { payload_index = length head + 4 }

  key_read : masking_key_round f ≡ again (record { state = load_payload_data; frame = located })
  unfolding masking_key_round
  key_read = ground (arith, room)

  abbrev cut : Frame
  cut = record located { buf = (head ++ key) ++ body }

  head_len : length (head ++ key) ≡ length head + 4
  head_len = omega (arith, length-append head key)

  cut_len : length ((head ++ key) ++ body) ≡ length head + 4 + length body
  cut_len = omega (arith, length-append (head ++ key) body, head_len)

  key_found : mask_or_zeros cut ≡ key
  unfolding mask_or_zeros
  key_found = ground (
    arith,
    cut_len,
    append_assoc head key body,
    drop-append-length head (key ++ body) f.masking_key_index,
    take-append-length key body 4,
  )

  cut_decoded : decode_frame cut ≡ framed
  unfolding decode_frame
  cut_decoded = rw (
    take-append-length (head ++ key) body (length head + 4) (sym head_len),
    drop-append-length (head ++ key) body (length head + 4) (sym head_len),
    key_found,
  )

  body_read : load_round located ≡ loaded new_parser framed rest
  unfolding load_round
  body_read = ground (
    arith,
    room,
    cut_len,
    parts,
    take-append-length ((head ++ key) ++ body) rest (length head + 4 + length body),
    drop-append-length ((head ++ key) ++ body) rest (length head + 4 + length body),
    cut_decoded,
  )

  pub run_from_key :
      (n : ℕ)
      → run (suc (suc n)) limit (record { state = parse_masking_key; frame = f })
        ≡ got new_parser framed rest
  unfolding run round_in
  run_from_key n = rw (key_read, run, body_read)

  length-decode : (i : ℕ) (xs : Bytes) → length (decode key i xs) ≡ length xs
  unfolding decode
  length-decode i [] = refl
  length-decode i (x ∷ xs) = ap suc (length-decode (i + 1) xs)

  pub payload-framed : payload framed ≡ decode key 0 body
  unfolding payload
  payload-framed = ground (
    arith,
    head_len,
    length-decode 0 body,
    drop-append-length (head ++ key) (decode key 0 body) (length head + 4),
    take-append-length (decode key 0 body) [] (length body),
    append-nil (decode key 0 body),
  )
