-- ===== src/Websocket.antt =====
-- src/websocket.rs: the frame encoder `frame`, the incremental frame parser `Parser::parse_yet`
-- and the accessors of a parsed `Frame`. A byte is a number below 256, a `usize` one below 2 ^ 64
-- whose sums wrap. The loop of `parse_yet` is `run`, with one unit of fuel a round.
pub mod Rounds
pub mod Chunks
pub mod Length
pub mod Rfc
pub mod Masking
pub mod RoundTrip
pub mod Errors
pub mod Opcodes
pub mod Consumes
pub mod Waits
mod Tests
use anweb.Prelude.{
  ℕ, zero, suc, ◌+◌, ◌-◌, ◌*◌, ◌/◌, ◌%◌, ◌^◌, bit_and, bit_or, bit_xor, Bool, true, false, ◌||◌,
  Option, none, some, List, [], ◌∷◌, ◌++◌, ltb, leb, ◌==◌, if◌then◌else◌, length, get_or, take,
  drop, slice, is_empty, Bytes,
}

-- `a + b` on `usize`.
abbrev pub add_usize : ℕ → ℕ → ℕ
add_usize a b = (a + b) % 2 ^ 64

abbrev pub text_opcode : ℕ
text_opcode = 0x1

abbrev pub binary_opcode : ℕ
binary_opcode = 0x2

abbrev pub continuation_opcode : ℕ
continuation_opcode = 0x0

abbrev pub close_opcode : ℕ
close_opcode = 0x8

-- `u64::to_be_bytes`
abbrev to_be_bytes : ℕ → Bytes
to_be_bytes n =
    n / 2 ^ 56 % 256
    ∷ n / 2 ^ 48 % 256
    ∷ n / 2 ^ 40 % 256
    ∷ n / 2 ^ 32 % 256
    ∷ n / 2 ^ 24 % 256
    ∷ n / 2 ^ 16 % 256
    ∷ n / 2 ^ 8 % 256
    ∷ n % 256
    ∷ []

pub frame : ℕ → Bytes → Bytes
frame opcode payload =
    let data_len = length payload in
    let first_byte = bit_or opcode 0b1000_0000 in
    let bytes = to_be_bytes data_len in
    let head =
      if ltb data_len 126
      then data_len % 256 ∷ []
      else if leb data_len 65535
      then 126 ∷ slice bytes 6 8
      else 127 ∷ bytes in
    first_byte ∷ (head ++ payload)

pub data ParserState : Type 0 where
  parse_first_byte_where_fin_and_opcode : ParserState
  parse_second_byte_where_mask_and_payload_len : ParserState
  parse_extended_payload_len : ParserState
  parse_masking_key : ParserState
  load_payload_data : ParserState

pub data ParseFrameError : Type 0 where
  unsupported_opcode unmasked_client_maessage payload_limit : ParseFrameError

pub record Frame : Type 0 where
  pub fin : Bool
  pub opcode : ℕ
  pub buf : Bytes
  pub payload_index : ℕ
  pub payload_len : ℕ
  pub masking_key_index : ℕ

-- `Frame::new`
abbrev pub new_frame : Frame
new_frame = record {
  fin = false;
  opcode = 0;
  buf = [];
  payload_index = 0;
  payload_len = 0;
  masking_key_index = 0;
}

-- `Frame::payload`
pub payload : Frame → Bytes
payload f = slice f.buf f.payload_index (add_usize f.payload_index f.payload_len)

-- `Frame::mask`
pub mask : Frame → Option Bytes
mask f =
    if f.masking_key_index == 0 || ltb (length f.buf) (add_usize f.masking_key_index 4)
    then none
    else some (slice f.buf f.masking_key_index (add_usize f.masking_key_index 4))

pub is_text : Frame → Bool
is_text f = f.opcode == text_opcode

pub is_binary : Frame → Bool
is_binary f = f.opcode == binary_opcode

pub is_continuation : Frame → Bool
is_continuation f = f.opcode == continuation_opcode

unfoldable pub is_close : Frame → Bool
is_close f = f.opcode == close_opcode

pub record Parser : Type 0 where
  pub state : ParserState
  pub frame : Frame

-- `Parser::new`, `Parser::default`
abbrev pub new_parser : Parser
new_parser = record { state = parse_first_byte_where_fin_and_opcode; frame = new_frame }

-- What one round of the loop does: `continue`, `break`, `return Ok(Some(..))` or `return Err(..)`.
pub data Round : Type 0 where
  again : Parser → Round
  need_more_data : Round
  loaded : Parser → Frame → Bytes → Round
  refused : ParseFrameError → Round

pub first_byte_round : Frame → Round
first_byte_round f =
    let first_byte = get_or f.buf 0 0 in
    let opcode = bit_and first_byte 0b0000_1111 in
    if is_empty f.buf
    then need_more_data
    else if leb opcode 0xF
    then again (record {
      state = parse_second_byte_where_mask_and_payload_len;
      frame = record f { fin = ltb 0 (bit_and first_byte 0b1000_0000); opcode = opcode };
    })
    else refused unsupported_opcode

pub second_byte_round : ℕ → Frame → Round
second_byte_round limit f =
    let second_byte = get_or f.buf 1 0 in
    let len = bit_and second_byte 0b0111_1111 in
    if ltb 1 (length f.buf)
    then (if bit_and second_byte 0b1000_0000 == 0
        then refused unmasked_client_maessage
        else if ltb limit len
        then refused payload_limit
        else if ltb len 126
        then again (record {
          state = parse_masking_key;
          frame = record f { payload_len = len; masking_key_index = 2 };
        })
        else again
            (record { state = parse_extended_payload_len; frame = record f { payload_len = len } }))
    else need_more_data

pub masking_key_round : Frame → Round
masking_key_round f =
    if leb (add_usize f.masking_key_index 4) (length f.buf)
    then again (record {
      state = load_payload_data;
      frame = record f { payload_index = add_usize f.masking_key_index 4 };
    })
    else need_more_data

-- `for i in 2..10 { len <<= 8; len |= buf[i] }`: the list is what is left of `buf[2..10]`.
pub shift_in : ℕ → Bytes → ℕ
shift_in len [] = len
shift_in len (b ∷ bs) = shift_in (bit_or (len * 2 ^ 8 % 2 ^ 64) b) bs

pub extended_len_set : ℕ → Frame → ℕ → ℕ → Round
extended_len_set limit f len key_index =
    if ltb limit len
    then refused payload_limit
    else again (record {
      state = parse_masking_key;
      frame = record f { payload_len = len; masking_key_index = key_index };
    })

pub extended_len_round : ℕ → Frame → Round
unfolding extended_len_set
extended_len_round limit f =
    if f.payload_len == 126
    then (if ltb (length f.buf) 4
        then need_more_data
        else extended_len_set limit f (bit_or (get_or f.buf 2 0 * 2 ^ 8) (get_or f.buf 3 0)) 4)
    else (if ltb (length f.buf) 10
        then need_more_data
        else extended_len_set limit f (shift_in (get_or f.buf 2 0) (slice f.buf 2 10)) 10)

-- `*ch ^= mask[i % 4]` over the rest of the buffer.
unfoldable pub decode : Bytes → ℕ → Bytes → Bytes
decode key i [] = []
decode key i (ch ∷ rest) = bit_xor ch (get_or key (i % 4) 0) ∷ decode key (i + 1) rest

-- `result.mask().unwrap_or_else(..)`
mask_or_zeros : Frame → Bytes
unfolding mask
mask_or_zeros f = elim (mask f) [ none ↦ 0 ∷ 0 ∷ 0 ∷ 0 ∷ [] | some key ↦ key ]

pub decode_frame : Frame → Frame
unfolding mask_or_zeros decode
decode_frame f = record f {
  buf = take f.payload_index f.buf ++ decode (mask_or_zeros f) 0 (drop f.payload_index f.buf);
}

pub load_round : Frame → Round
load_round f =
    let frame_len = add_usize f.payload_index f.payload_len in
    if leb frame_len (length f.buf)
    then loaded new_parser (decode_frame (record f { buf = take frame_len f.buf }))
        (drop frame_len f.buf)
    else need_more_data

pub round_in : ParserState → ℕ → Frame → Round
unfolding first_byte_round second_byte_round masking_key_round extended_len_round load_round
round_in parse_first_byte_where_fin_and_opcode limit f = first_byte_round f
round_in parse_second_byte_where_mask_and_payload_len limit f = second_byte_round limit f
round_in parse_extended_payload_len limit f = extended_len_round limit f
round_in parse_masking_key limit f = masking_key_round f
round_in load_payload_data limit f = load_round f

-- What `parse_yet` returns, with the parser that it leaves behind. `running` is a loop cut off
-- with its fuel spent.
pub data Parsed : Type 0 where
  got : Parser → Frame → Bytes → Parsed
  partial : Parser → Parsed
  failed : ParseFrameError → Parsed
  running : Parsed

pub run : ℕ → ℕ → Parser → Parsed
run zero limit p = running
run (suc fuel) limit p = elim (round_in p.state limit p.frame) [
  | again q ↦ run fuel limit q
  | need_more_data ↦ partial p
  | loaded q f surplus ↦ got q f surplus
  | refused e ↦ failed e
]

-- `frame.buf.extend_from_slice(tmp_buf)`
abbrev pub feed : Parser → Bytes → Parser
feed p tmp_buf = record p { frame = record p.frame { buf = p.frame.buf ++ tmp_buf } }

unfoldable pub parse_yet : Parser → Bytes → ℕ → Parsed
parse_yet p tmp_buf limit = run 5 limit (feed p tmp_buf)
