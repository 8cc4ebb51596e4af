-- ===== src/Websocket/Chunks.antt =====
-- `Parser::parse_yet` on a stream that arrives in pieces.
use anweb.Prelude.{ℕ, zero, suc, ◌≤◌, ◌≡◌, arith, ◌++◌, append_assoc, Bytes}
use anweb.Websocket.{Parser, round_in, Parsed, got, partial, failed, running, run, parse_yet, feed}
use anweb.Websocket.Rounds.{
  rounds_left, round_in-Falls, round_case, is_again, is_need_more, is_loaded, is_refused, run_fuel,
  Grow-round_in, rounds_left-le, rounds_left-pos,
}

-- What the caller has once `more` follows: a parser that waits reads on, and a finished call
-- keeps its outcome, with `more` behind the surplus.
abbrev pub resume : Parsed → Bytes → ℕ → Parsed
resume (got q f surplus) more limit = got q f (surplus ++ more)
resume (partial q) more limit = parse_yet q more limit
resume (failed e) more limit = failed e
resume running more limit = running

run-feed :
    (n limit : ℕ) (p : Parser) (more : Bytes)
    → rounds_left p.state ≤ n
    → run n limit (feed p more) ≡ resume (run n limit p) more limit
unfolding run
run-feed zero limit p more h = absurd (omega (arith, rounds_left-pos p.state))
run-feed (suc n) limit p more h = elim (round_case (round_in p.state limit p.frame)) [
  | is_again q e ↦
      let falls : suc (rounds_left q.state) ≤ rounds_left p.state =
        rw e at (round_in-Falls p.state limit p.frame) in
      let on = rw e at (Grow-round_in p.state limit p.frame more) in
      rw (e, run, on) (run-feed n limit q more (omega arith))
  | is_need_more e ↦
      rw (e, run)
        (unfold parse_yet in run_fuel (suc n) 5 limit (feed p more) h (rounds_left-le p.state))
  | is_loaded q f surplus e ↦
      let on = rw e at (Grow-round_in p.state limit p.frame more) in rw (e, run, on)
  | is_refused e x ↦ let on = rw x at (Grow-round_in p.state limit p.frame more) in rw (x, run, on)
]

-- Where the stream is cut does not matter: from any state of the parser, a buffer that arrives in
-- two pieces gives what the whole buffer gives. The same frame is found, with the second piece
-- behind the surplus; the same error is reported; or the parser that waits goes on to the outcome
-- on the whole.
pub parse_yet-append :
    (p : Parser) (first more : Bytes) (limit : ℕ)
    → parse_yet p (first ++ more) limit ≡ resume (parse_yet p first limit) more limit
unfolding parse_yet
parse_yet-append p first more limit =
    rw (← append_assoc p.frame.buf first more)
      (run-feed 5 limit (feed p first) more (rounds_left-le p.state))
