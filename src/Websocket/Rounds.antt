-- ===== src/Websocket/Rounds.antt =====
-- The rounds of the loop in `Parser::parse_yet`: how many are left in a state, and what a round
-- does when more bytes have arrived.
use anweb.Prelude.{
  ℕ, zero, suc, ◌≤◌, ◌<◌, ◌≡◌, ◌≢◌, refl, arith, false, ◌++◌, [], ◌∷◌, length, is_empty,
  slice-append, length-append, get_or-append, take-append, drop-append, Bytes,
}
use anweb.Websocket.{
  ParserState, ParseFrameError, parse_first_byte_where_fin_and_opcode,
  parse_second_byte_where_mask_and_payload_len, parse_extended_payload_len, parse_masking_key,
  load_payload_data, Frame, Parser, Round, again, need_more_data, loaded, refused, add_usize,
  first_byte_round, second_byte_round, extended_len_round, masking_key_round, load_round, round_in,
  running, run, parse_yet, feed,
}

-- A bound on the rounds that start in a state.
abbrev pub rounds_left : ParserState → ℕ
rounds_left parse_first_byte_where_fin_and_opcode = 5
rounds_left parse_second_byte_where_mask_and_payload_len = 4
rounds_left parse_extended_payload_len = 3
rounds_left parse_masking_key = 2
rounds_left load_payload_data = 1

abbrev Falls : ℕ → Round → Type 0
Falls n (again q) = suc (rounds_left q.state) ≤ n
Falls n _ = Unit

-- Every `continue` goes to a state that is further on.
pub round_in-Falls :
    (s : ParserState) (limit : ℕ) (f : Frame) → Falls (rounds_left s) (round_in s limit f)
unfolding round_in
round_in-Falls parse_first_byte_where_fin_and_opcode limit f = ground arith
round_in-Falls parse_second_byte_where_mask_and_payload_len limit f = ground arith
round_in-Falls parse_extended_payload_len limit f = ground arith
round_in-Falls parse_masking_key limit f = ground arith
round_in-Falls load_payload_data limit f = ground arith

-- A round, with the equation that says which it is.
pub data RoundCase (r : Round) : Type 0 where
  is_again : (q : Parser) → r ≡ again q → RoundCase r
  is_need_more : r ≡ need_more_data → RoundCase r
  is_loaded : (q : Parser) (f : Frame) (surplus : Bytes) → r ≡ loaded q f surplus → RoundCase r
  is_refused : (e : ParseFrameError) → r ≡ refused e → RoundCase r

pub round_case : (r : Round) → RoundCase r
round_case (again q) = is_again q refl
round_case need_more_data = is_need_more refl
round_case (loaded q f surplus) = is_loaded q f surplus refl
round_case (refused e) = is_refused e refl

pub rounds_left-pos : (s : ParserState) → 0 < rounds_left s
rounds_left-pos parse_first_byte_where_fin_and_opcode = omega arith
rounds_left-pos parse_second_byte_where_mask_and_payload_len = omega arith
rounds_left-pos parse_extended_payload_len = omega arith
rounds_left-pos parse_masking_key = omega arith
rounds_left-pos load_payload_data = omega arith

-- With a round left for each step ahead the fuel does not show.
pub run_fuel :
    (n m limit : ℕ) (p : Parser)
    → rounds_left p.state ≤ n
    → rounds_left p.state ≤ m
    → run n limit p ≡ run m limit p
unfolding run
run_fuel zero m limit p h k = absurd (omega (arith, rounds_left-pos p.state))
run_fuel (suc n) zero limit p h k = absurd (omega (arith, rounds_left-pos p.state))
run_fuel (suc n) (suc m) limit p h k = elim (round_case (round_in p.state limit p.frame)) [
  | is_again q e ↦
      let falls : suc (rounds_left q.state) ≤ rounds_left p.state =
        rw e at (round_in-Falls p.state limit p.frame) in
      rw (e, run) (run_fuel n m limit q (omega arith) (omega arith))
  | is_need_more e ↦ rw (e, run)
  | is_loaded q f surplus e ↦ rw (e, run)
  | is_refused e h ↦ rw (h, run)
]

pub run-ne-running : (n limit : ℕ) (p : Parser) → rounds_left p.state ≤ n → run n limit p ≢ running
unfolding run
run-ne-running zero limit p h = absurd (omega (arith, rounds_left-pos p.state))
run-ne-running (suc n) limit p h = elim (round_case (round_in p.state limit p.frame)) [
  | is_again q e ↦
      let falls : suc (rounds_left q.state) ≤ rounds_left p.state =
        rw e at (round_in-Falls p.state limit p.frame) in
      rw (e, run) (run-ne-running n limit q (omega arith))
  | is_need_more e ↦ rw (e, run) (λ x. cc)
  | is_loaded q f surplus e ↦ rw (e, run) (λ x. cc)
  | is_refused e h ↦ rw (h, run) (λ x. cc)
]

pub rounds_left-le : (s : ParserState) → rounds_left s ≤ 5
rounds_left-le parse_first_byte_where_fin_and_opcode = omega arith
rounds_left-le parse_second_byte_where_mask_and_payload_len = omega arith
rounds_left-le parse_extended_payload_len = omega arith
rounds_left-le parse_masking_key = omega arith
rounds_left-le load_payload_data = omega arith

-- `parse_yet` always comes back: from any state of the parser, on any bytes and any limit, the
-- loop ends within the five rounds that the model gives it.
pub parse_yet-ne-running :
    (p : Parser) (tmp_buf : Bytes) (limit : ℕ) → parse_yet p tmp_buf limit ≢ running
unfolding parse_yet
parse_yet-ne-running p tmp_buf limit =
    run-ne-running 5 limit (feed p tmp_buf) (rounds_left-le p.state)

-- What a round does once `more` has arrived behind the bytes that it saw.
abbrev pub Grow : Round → Bytes → Round → Type 0
Grow (again q) more r = r ≡ again (feed q more)
Grow need_more_data more r = Unit
Grow (loaded q f surplus) more r = r ≡ loaded q f (surplus ++ more)
Grow (refused e) more r = r ≡ refused e

is_empty-append : (xs ys : Bytes) → is_empty xs ≡ false → is_empty (xs ++ ys) ≡ false
is_empty-append [] ys h = cc
is_empty-append (x ∷ xs) ys h = refl

length-pos : (xs : Bytes) → is_empty xs ≡ false → 0 < length xs
length-pos [] h = absurd (cc)
length-pos (x ∷ xs) h = omega arith

module _ (f : Frame) (more : Bytes) where
  abbrev grown : Frame
  grown = record f { buf = f.buf ++ more }

  Grow-first_byte : Grow (first_byte_round f) more (first_byte_round grown)
  unfolding first_byte_round
  Grow-first_byte =
      ground (arith, is_empty-append f.buf more, length-pos f.buf, get_or-append f.buf more 0 0)

  Grow-second_byte :
      (limit : ℕ) → Grow (second_byte_round limit f) more (second_byte_round limit grown)
  unfolding second_byte_round
  Grow-second_byte limit = ground (arith, length-append f.buf more, get_or-append f.buf more 1 0)

  Grow-masking_key : Grow (masking_key_round f) more (masking_key_round grown)
  unfolding masking_key_round
  Grow-masking_key = ground (arith, length-append f.buf more)

  Grow-extended_len :
      (limit : ℕ) → Grow (extended_len_round limit f) more (extended_len_round limit grown)
  unfolding extended_len_round
  Grow-extended_len limit = ground (
    arith,
    length-append f.buf more,
    get_or-append f.buf more 2 0,
    get_or-append f.buf more 3 0,
    slice-append f.buf more 2 10,
  )

  Grow-load : Grow (load_round f) more (load_round grown)
  unfolding load_round
  Grow-load =
      let frame_len = add_usize f.payload_index f.payload_len in
      ground (
        arith,
        length-append f.buf more,
        take-append f.buf more frame_len,
        drop-append f.buf more frame_len,
      )

-- A round that has its bytes does the same when more of them stand behind; what it does not use
-- goes into the surplus.
pub Grow-round_in :
    (s : ParserState) (limit : ℕ) (f : Frame) (more : Bytes)
    → Grow (round_in s limit f) more (round_in s limit (record f { buf = f.buf ++ more }))
unfolding round_in
Grow-round_in parse_first_byte_where_fin_and_opcode limit f more = Grow-first_byte f more
Grow-round_in parse_second_byte_where_mask_and_payload_len limit f more =
    Grow-second_byte f more limit
Grow-round_in parse_extended_payload_len limit f more = Grow-extended_len f more limit
Grow-round_in parse_masking_key limit f more = Grow-masking_key f more
Grow-round_in load_payload_data limit f more = Grow-load f more

-- One round, by the state that it starts in.
module _ (n limit : ℕ) (f : Frame) {q : Parser} where
  pub run_first :
      first_byte_round f ≡ again q
      → run (suc n) limit (record { state = parse_first_byte_where_fin_and_opcode; frame = f })
        ≡ run n limit q
  unfolding run round_in
  run_first e = rw (run, e)

  pub run_second :
      second_byte_round limit f ≡ again q
      → run
          (suc n)
          limit
          (record { state = parse_second_byte_where_mask_and_payload_len; frame = f })
        ≡ run n limit q
  unfolding run round_in
  run_second e = rw (run, e)

  pub run_extended :
      extended_len_round limit f ≡ again q
      → run (suc n) limit (record { state = parse_extended_payload_len; frame = f }) ≡ run n limit q
  unfolding run round_in
  run_extended e = rw (run, e)
