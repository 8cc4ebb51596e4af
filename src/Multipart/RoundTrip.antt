-- ===== src/Multipart/RoundTrip.antt =====
-- The parts that are printed are the parts that `push` reads.
use anweb.Prelude.{
  ℕ, zero, suc, ◌+◌, ◌*◌, ◌≤◌, ◌<◌, ◌≡◌, refl, arith, none, List, [], ◌∷◌, ◌++◌, length,
  length-append, Bytes,
}
use anweb.Multipart.{
  MultipartParser, find_first_boundary, disposition, read_data, round, run, push, pushed,
  position_of, dashes, crlf, empty_line, last_part,
}
use anweb.Multipart.Rounds.{
  Part, IsPrintable, EachPrintable, print_parts, events_of, first_dash, first_boundary_round-found,
  first_boundary_round-closing, data_round-found, data_round-closing, disposition_round-first,
  disposition_round-next,
}

module _ (boundary rest : Bytes) where
  abbrev reading : Bytes → MultipartParser
  reading bytes = record { state = read_data; buf = bytes; boundary = boundary }

  -- The parser behind the closing boundary.
  abbrev pub at_end : MultipartParser
  at_end = record { state = disposition; buf = []; boundary = boundary }

  -- The data of p and the parts behind it.
  run-parts :
      (fuel : ℕ) (p : Part) (ps : List Part)
      → IsPrintable p
      → EachPrintable ps
      → length ps * 2 < fuel
      → run fuel (reading (p.bytes ++ print_parts boundary ps rest))
        ≡ pushed at_end (last_part p.bytes ++ events_of ps)
  unfolding run round
  run-parts zero p ps h each more = absurd (omega (arith, more))
  run-parts (suc fuel) p [] h each more =
      rw (run, data_round-closing boundary p.bytes rest h.no_dashes) refl
  run-parts (suc zero) p (q ∷ ps) h each more = absurd (omega (arith, more))
  run-parts (suc (suc fuel)) p (q ∷ ps) h (one, each) more =
      let behind = q.bytes ++ print_parts boundary ps rest in
      let step = data_round-found boundary p.bytes (q.raw ++ (empty_line ++ behind)) h.no_dashes in
      let lines = disposition_round-next boundary q behind one in
      let later = run-parts fuel q ps one each (omega (arith, more)) in
      rw (run, step, lines, later) refl

  length-print_parts : (ps : List Part) → length ps * 2 + 2 ≤ length (print_parts boundary ps rest)
  length-print_parts [] = omega arith
  length-print_parts (p ∷ ps) =
      let behind = p.bytes ++ print_parts boundary ps rest in
      omega (
        arith,
        length-append boundary (crlf ++ (p.raw ++ (empty_line ++ behind))),
        length-append p.raw (empty_line ++ behind),
        length-append p.bytes (print_parts boundary ps rest),
        length-print_parts ps,
      )

  -- A parser at the start of a content.
  abbrev pub at_start : Bytes → MultipartParser
  at_start bytes = record { state = find_first_boundary; buf = bytes; boundary = boundary }

  run-first :
      (fuel : ℕ) (before : Bytes) (ps : List Part)
      → position_of dashes (before ++ first_dash) ≡ none
      → EachPrintable ps
      → length ps * 2 < fuel
      → run fuel (at_start (before ++ print_parts boundary ps rest)) ≡ pushed at_end (events_of ps)
  unfolding run round
  run-first zero before ps plain each more = absurd (omega (arith, more))
  run-first (suc fuel) before [] plain each more =
      rw (run, first_boundary_round-closing boundary before rest plain) refl
  run-first (suc zero) before (p ∷ ps) plain each more = absurd (omega (arith, more))
  run-first (suc (suc fuel)) before (p ∷ ps) plain (one, each) more =
      let behind = p.bytes ++ print_parts boundary ps rest in
      let step =
        first_boundary_round-found boundary before (p.raw ++ (empty_line ++ behind)) plain in
      let lines = disposition_round-first boundary p behind one in
      let later = run-parts fuel p ps one each (omega (arith, more)) in
      rw (run, step, lines, later) refl

  -- A content of parts in one piece: a new parser gives the lines of each part and its data, where it
  -- is not empty, in their order, and then that all is received, whatever stands behind. The bytes in
  -- front and the data of each part hold no two dashes and do not end in a dash; the lines of a part
  -- are not empty, hold no empty line and neither begin nor end with a line end.
  pub push-print_parts :
      (before : Bytes) (ps : List Part)
      → position_of dashes (before ++ first_dash) ≡ none
      → EachPrintable ps
      → push (at_start []) (before ++ print_parts boundary ps rest) ≡ pushed at_end (events_of ps)
  unfolding push
  push-print_parts before ps plain each =
      run-first (suc (length (before ++ print_parts boundary ps rest))) before ps plain each
        (omega (arith, length-append before (print_parts boundary ps rest), length-print_parts ps))
