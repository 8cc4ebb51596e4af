-- ===== src/Websocket/Consumes.antt =====
-- `Parser::parse_yet` takes at least one byte for each frame that it hands out.
use anweb.Prelude.{
  ℕ, zero, suc, ◌+◌, ◌^◌, ◌<◌, ◌≤◌, ◌≡◌, sym, arith, ◌++◌, length, length-append, length-drop,
  Bytes,
}
use anweb.Websocket.{
  Frame, Parser, Round, again, need_more_data, loaded, refused, new_parser, ParserState,
  parse_first_byte_where_fin_and_opcode, parse_second_byte_where_mask_and_payload_len,
  parse_extended_payload_len, parse_masking_key, load_payload_data, round_in, run, Parsed, got,
  partial, failed, running, parse_yet, feed,
}
use anweb.Websocket.Rounds.{round_case, is_again, is_need_more, is_loaded, is_refused}

module _ (limit : ℕ) (small : limit + 14 < 2 ^ 64) where
  -- What the parser knows in a state: where the key and the payload lie, and that the length is
  -- within the limit.
  abbrev pub Knows : ParserState → Frame → Type 0
  Knows parse_first_byte_where_fin_and_opcode f = Unit
  Knows parse_second_byte_where_mask_and_payload_len f = Unit
  Knows parse_extended_payload_len f = Unit
  Knows parse_masking_key f = (f.masking_key_index ≤ 10) × (f.payload_len ≤ limit)
  Knows load_payload_data f =
      (1 ≤ f.payload_index) × (f.payload_index ≤ 14) × (f.payload_len ≤ limit)

  abbrev pub IsSound : Parser → Type 0
  IsSound p = Knows p.state p.frame

  abbrev RoundSound : ℕ → Round → Type 0
  RoundSound n (again q) = IsSound q × (length q.frame.buf ≡ n)
  RoundSound n need_more_data = Unit
  RoundSound n (loaded q f surplus) = (q ≡ new_parser) × (length surplus < n)
  RoundSound n (refused e) = Unit

  round_in-Sound :
      (s : ParserState) (f : Frame) → Knows s f → RoundSound (length f.buf) (round_in s limit f)
  unfolding round_in
  round_in-Sound parse_first_byte_where_fin_and_opcode f h = ground arith
  round_in-Sound parse_second_byte_where_mask_and_payload_len f h = ground arith
  round_in-Sound parse_extended_payload_len f h = ground arith
  round_in-Sound parse_masking_key f h = ground arith
  round_in-Sound load_payload_data f h =
      ground (arith, length-drop (f.payload_index + f.payload_len) f.buf)

  abbrev pub ParsedSound : ℕ → Parsed → Type 0
  ParsedSound n (got q f surplus) = (q ≡ new_parser) × (length surplus < n)
  ParsedSound n (partial q) = IsSound q
  ParsedSound n (failed e) = Unit
  ParsedSound n running = Unit

  run-Sound :
      (fuel : ℕ) (p : Parser) → IsSound p → ParsedSound (length p.frame.buf) (run fuel limit p)
  unfolding run
  run-Sound zero p h = tt
  run-Sound (suc fuel) p h =
      let sound = round_in-Sound p.state p.frame h in
      elim (round_case (round_in p.state limit p.frame)) [
        | is_again q e ↦
            let on : RoundSound (length p.frame.buf) (again q) = rw e at sound in
            rw (e, run) (rw (sym on.1) (run-Sound fuel q on.0))
        | is_need_more e ↦ rw (e, run) h
        | is_loaded q f surplus e ↦
            let on : RoundSound (length p.frame.buf) (loaded q f surplus) = rw e at sound in
            rw (e, run) on
        | is_refused e x ↦ rw (x, run) tt
      ]

  feed-Knows :
      (s : ParserState) (f : Frame) (b : Bytes) → Knows s f → Knows s (record f { buf = b })
  feed-Knows parse_first_byte_where_fin_and_opcode f b h = tt
  feed-Knows parse_second_byte_where_mask_and_payload_len f b h = tt
  feed-Knows parse_extended_payload_len f b h = tt
  feed-Knows parse_masking_key f b h = h
  feed-Knows load_payload_data f b h = h

  -- A sound parser stays sound; behind a frame it is new, and less is left than there was.
  pub parse_yet-Sound :
      (p : Parser) (buf : Bytes)
      → IsSound p
      → ParsedSound (length p.frame.buf + length buf) (parse_yet p buf limit)
  unfolding parse_yet
  parse_yet-Sound p buf h =
      rw (sym (length-append p.frame.buf buf))
        (run-Sound 5 (feed p buf) (feed-Knows p.state p.frame (p.frame.buf ++ buf) h))
