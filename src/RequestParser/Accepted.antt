-- ===== src/RequestParser/Accepted.antt =====
-- Every request that `Parser::push` hands out is within the limits, and is cut off the stream.
use anweb.Prelude.{
  ℕ, ◌+◌, ◌≤◌, ◌≡◌, refl, ap, ◌∙◌, arith, Option, [], ◌∷◌, ◌++◌, length, Bytes, take-append-drop,
}
use anweb.Request.{RequestData}
use anweb.RequestParser.{
  Settings, Parser, Scanned, ended, ran_out, stopped, crashed, ready, new_parser, scan, push,
  finish, step_in,
}
use anweb.RequestParser.Steps.{step_in-Follows, Behind}
use anweb.RequestParser.Chunks.{step_case, is_next, is_found_end, is_refused, is_panicked}
use anweb.RequestParser.Limits.{IsU16, IsWithin, Progress, step_in-Keeps}

module _ (settings : Settings) (percent_decode : Bytes → Option Bytes) (u16 : IsU16 settings) where
  abbrev EndsWithin : Bytes → Scanned → Type 0
  EndsWithin raw (ended q n) = IsWithin settings q.request × (q.request.raw ≡ raw)
  EndsWithin raw _ = Unit

  scan-EndsWithin :
      (rest raw : Bytes) (i : ℕ) (p : Parser)
      → Behind p.parse_state i
      → p.request.raw ≡ raw
      → i + length rest ≤ length raw
      → IsWithin settings p.request
      → Progress settings p.request p.parse_state i
      → EndsWithin raw (scan settings percent_decode i rest p)
  unfolding scan
  scan-EndsWithin [] raw i p h same fits within progress = tt
  scan-EndsWithin (ch ∷ rest) raw i p h same fits within progress =
      let follows = step_in-Follows settings percent_decode i ch p p.parse_state refl h in
      let keeps =
        step_in-Keeps settings percent_decode i ch p u16 within (omega (arith, ap length same))
          p.parse_state refl progress in
      elim (step_case (step_in settings percent_decode p.parse_state i ch p)) [
        | is_next q e ↦
            let on = rw e at follows in
            let kept = rw e at keeps in
            rw (e, scan)
              (scan-EndsWithin rest raw (i + 1) q on.1 (on.0 ∙ same) (omega arith) kept.0 kept.1)
        | is_found_end n e ↦ rw (e, scan) (within, same)
        | is_refused e x ↦ rw (x, scan) tt
        | is_panicked e ↦ rw (e, scan) tt
      ]

  -- A request that is read from the start of a stream keeps every limit of the settings: the
  -- method, the path and the query are not longer than allowed, there are no more headers than
  -- allowed, and each has a name and a value that are not empty and not longer than allowed. What
  -- it takes of the stream, with the surplus behind it, is the stream. The limits must be 16-bit
  -- numbers, as their type says.
  pub push-IsWithin :
      (buf : Bytes) {q : Parser} {r : RequestData} {surplus : Bytes}
      → push settings percent_decode new_parser buf ≡ ready q r surplus
      → IsWithin settings r × (r.raw ++ surplus ≡ buf)
  unfolding push finish
  push-IsWithin buf {q} {r} {surplus} e =
      by_end
        (scan settings percent_decode 0 buf
          (record new_parser { request = record new_parser.request { raw = buf } }))
        (scan-EndsWithin buf buf 0
          (record new_parser { request = record new_parser.request { raw = buf } }) tt refl
          (omega arith)
          (record {
            method_within = omega arith;
            path_within = omega arith;
            query_within = omega arith;
            count_within = omega arith;
            each_fits = tt;
          })
          (omega arith))
        e
    where
      by_end :
          (s : Scanned)
          → EndsWithin buf s
          → finish settings percent_decode s ≡ ready q r surplus
          → IsWithin settings r × (r.raw ++ surplus ≡ buf)
      by_end (ended p n) w x = ground (arith, take-append-drop n p.request.raw)
      by_end (ran_out p) w x = absurd (cc)
      by_end (stopped e) w x = absurd (cc)
      by_end crashed w x = absurd (cc)
