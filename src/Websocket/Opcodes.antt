-- ===== src/Websocket/Opcodes.antt =====
-- No opcode makes `Parser::parse_yet` fail.
use anweb.Prelude.{ℕ, zero, suc, ◌<◌, ◌≡◌, ◌≢◌, ◌∙◌, arith, [], ◌∷◌, ◌++◌, get_or, Bytes}
use anweb.Prelude.Bits.{bit_and_low_four}
use anweb.Websocket.{
  Frame, Parser, Round, again, refused, ParserState, ParseFrameError, unsupported_opcode,
  parse_first_byte_where_fin_and_opcode, parse_second_byte_where_mask_and_payload_len,
  parse_extended_payload_len, parse_masking_key, load_payload_data, round_in, run, failed,
  parse_yet, feed,
}
use anweb.Websocket.Rounds.{round_case, is_again, is_need_more, is_loaded, is_refused}
use anweb.Websocket.Masking.{AllBytes}

-- No round reports an unknown opcode: four bits are at most 15.
round_in-ne-unsupported :
    (s : ParserState) (limit : ℕ) (f : Frame)
    → AllBytes f.buf
    → round_in s limit f ≢ refused unsupported_opcode
unfolding round_in
round_in-ne-unsupported parse_first_byte_where_fin_and_opcode limit f h =
    ground (arith, first f.buf h, bit_and_low_four (get_or f.buf 0 0))
  where
    first : (b : Bytes) → AllBytes b → get_or b 0 0 < 256
    first [] h = omega arith
    first (x ∷ b) h = h.0
round_in-ne-unsupported parse_second_byte_where_mask_and_payload_len limit f h = ground arith
round_in-ne-unsupported parse_extended_payload_len limit f h = ground arith
round_in-ne-unsupported parse_masking_key limit f h = ground arith
round_in-ne-unsupported load_payload_data limit f h = ground arith

abbrev KeepsBuf : Bytes → Round → Type 0
KeepsBuf b (again q) = q.frame.buf ≡ b
KeepsBuf b _ = Unit

round_in-KeepsBuf : (s : ParserState) (limit : ℕ) (f : Frame) → KeepsBuf f.buf (round_in s limit f)
unfolding round_in
round_in-KeepsBuf parse_first_byte_where_fin_and_opcode limit f = ground arith
round_in-KeepsBuf parse_second_byte_where_mask_and_payload_len limit f = ground arith
round_in-KeepsBuf parse_extended_payload_len limit f = ground arith
round_in-KeepsBuf parse_masking_key limit f = ground arith
round_in-KeepsBuf load_payload_data limit f = ground arith

run-ne-unsupported :
    (n limit : ℕ) (p : Parser) → AllBytes p.frame.buf → run n limit p ≢ failed unsupported_opcode
unfolding run
run-ne-unsupported zero limit p h = λ x. cc
run-ne-unsupported (suc n) limit p h = elim (round_case (round_in p.state limit p.frame)) [
  | is_again q e ↦
      let same : q.frame.buf ≡ p.frame.buf = rw e at (round_in-KeepsBuf p.state limit p.frame) in
      rw (e, run) (run-ne-unsupported n limit q (rw same h))
  | is_need_more e ↦ rw (e, run) (λ x. cc)
  | is_loaded q f surplus e ↦ rw (e, run) (λ x. cc)
  | is_refused e x ↦
      rw (x, run) (λ y. round_in-ne-unsupported p.state limit p.frame h (x ∙ same_error y))
]
  where
    same_error : {d e : ParseFrameError} → failed d ≡ failed e → refused d ≡ refused e
    same_error y = cc

-- The parser fails no frame for its opcode: on bytes, from any state and under any limit,
-- `UnsupportedOpcode` is never the error, also for the opcodes that the RFC reserves.
pub parse_yet-ne-unsupported_opcode :
    (p : Parser) (tmp_buf : Bytes) (limit : ℕ)
    → AllBytes (p.frame.buf ++ tmp_buf)
    → parse_yet p tmp_buf limit ≢ failed unsupported_opcode
unfolding parse_yet
parse_yet-ne-unsupported_opcode p tmp_buf limit h = run-ne-unsupported 5 limit (feed p tmp_buf) h
