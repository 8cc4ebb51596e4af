-- ===== src/RequestParser/Chunks.antt =====
-- `Parser::push` on a stream that arrives in pieces.
use anweb.Prelude.{
  ℕ, ◌+◌, ◌≤◌, ◌≡◌, refl, sym, ap, ◌∙◌, arith, Option, [], ◌∷◌, ◌++◌, append_assoc, length, Bytes,
  length-append, take-append, drop-append,
}
use anweb.Request.{RequestError}
use anweb.RequestParser.{
  Settings, Parser, Step, next, found_end, refused, panicked, step_in, Scanned, ended, ran_out,
  stopped, crashed, Pushed, ready, waiting, failed, panic, new_parser, scan, feed, push, finish,
}
use anweb.RequestParser.Steps.{Behind, step_in-grow, step_in-Follows}

-- A parser between two calls: its indices lie in the buffer.
abbrev pub IsWaiting : Parser → Type 0
IsWaiting p = Behind p.parse_state (length p.request.raw)

-- A step, with the equation that says which it is.
pub data StepCase (r : Step) : Type 0 where
  is_next : (q : Parser) → r ≡ next q → StepCase r
  is_found_end : (n : ℕ) → r ≡ found_end n → StepCase r
  is_refused : (e : RequestError) → r ≡ refused e → StepCase r
  is_panicked : r ≡ panicked → StepCase r

pub step_case : (r : Step) → StepCase r
step_case (next q) = is_next q refl
step_case (found_end n) = is_found_end n refl
step_case (refused e) = is_refused e refl
step_case panicked = is_panicked refl

module _ (settings : Settings) (percent_decode : Bytes → Option Bytes) where
  abbrev fed : Parser → Bytes → Parser
  fed = feed settings percent_decode

  -- What the caller has once `more` follows.
  abbrev pub resume : Pushed → Bytes → Pushed
  resume (ready q r surplus) more = ready q r (surplus ++ more)
  resume (waiting q) more = push settings percent_decode q more
  resume (failed e) more = failed e
  resume panic more = panic

  abbrev grow_scanned : Scanned → Bytes → Scanned
  grow_scanned (ended q n) more = ended (fed q more) n
  grow_scanned (ran_out q) more = ran_out (fed q more)
  grow_scanned (stopped e) more = stopped e
  grow_scanned crashed more = crashed

  -- What the loop leaves: at the end of the bytes the indices lie in the buffer, which is the same.
  abbrev pub Leaves : Bytes → ℕ → Scanned → Type 0
  Leaves raw i (ended q n) = (q.request.raw ≡ raw) × (n ≤ length raw) × (1 ≤ n)
  Leaves raw i (ran_out q) = (q.request.raw ≡ raw) × Behind q.parse_state i
  Leaves raw i _ = Unit

  pub scan-Leaves :
      (rest raw : Bytes) (i end : ℕ) (p : Parser)
      → Behind p.parse_state i
      → p.request.raw ≡ raw
      → i + length rest ≡ end
      → end ≤ length raw
      → Leaves raw end (scan settings percent_decode i rest p)
  unfolding scan
  scan-Leaves [] raw i end p h same k fits =
      let here : i ≡ end = omega arith in (same, rw (← here) h)
  scan-Leaves (ch ∷ rest) raw i end p h same k fits =
      let follows = step_in-Follows settings percent_decode i ch p p.parse_state refl h in
      elim (step_case (step_in settings percent_decode p.parse_state i ch p)) [
        | is_next q e ↦
            let on = rw e at follows in
            rw (e, scan) (scan-Leaves rest raw (i + 1) end q on.1 (on.0 ∙ same) (omega arith) fits)
        | is_found_end n e ↦
            let at_end = rw e at follows in rw (e, scan) (same, omega arith, omega arith)
        | is_refused e x ↦ rw (x, scan) tt
        | is_panicked e ↦ rw (e, scan) tt
      ]

  scan-fed :
      (rest : Bytes) (i : ℕ) (p : Parser) (more : Bytes)
      → Behind p.parse_state i
      → i + length rest ≤ length p.request.raw
      → scan settings percent_decode i rest (fed p more)
        ≡ grow_scanned (scan settings percent_decode i rest p) more
  unfolding scan
  scan-fed [] i p more h k = refl
  scan-fed (ch ∷ rest) i p more h k =
      let follows = step_in-Follows settings percent_decode i ch p p.parse_state refl h in
      let grows = step_in-grow settings percent_decode i ch p more (omega arith) p.parse_state h in
      elim (step_case (step_in settings percent_decode p.parse_state i ch p)) [
        | is_next q e ↦
            let on = rw e at follows in
            rw (scan, grows, e) (scan-fed rest (i + 1) q more on.1 (omega (arith, ap length on.0)))
        | is_found_end n e ↦ rw (scan, grows, e)
        | is_refused e x ↦ rw (scan, grows, x)
        | is_panicked e ↦ rw (scan, grows, e)
      ]

  -- The bytes behind the first ones are looked at only if those ran out.
  abbrev go_on : Scanned → ℕ → Bytes → Scanned
  go_on (ran_out q) i rest = scan settings percent_decode i rest q
  go_on s i rest = s

  scan-append :
      (first rest : Bytes) (i end : ℕ) (p : Parser)
      → i + length first ≡ end
      → scan settings percent_decode i (first ++ rest) p
        ≡ go_on (scan settings percent_decode i first p) end rest
  unfolding scan
  scan-append [] rest i end p k =
      let here : i ≡ end = omega arith in ap (λ (n : ℕ). scan settings percent_decode n rest p) here
  scan-append (ch ∷ first) rest i end p k =
      elim (step_case (step_in settings percent_decode p.parse_state i ch p)) [
        | is_next q e ↦ rw (e, scan) (scan-append first rest (i + 1) end q (omega arith))
        | is_found_end n e ↦ rw (e, scan)
        | is_refused e x ↦ rw (x, scan)
        | is_panicked e ↦ rw (e, scan)
      ]

  finish_grown :
      (s : Scanned) (raw : Bytes) (more : Bytes)
      → Leaves raw (length raw) s
      → finish settings percent_decode (go_on (grow_scanned s more) (length raw) more)
        ≡ resume (finish settings percent_decode s) more
  unfolding finish push
  finish_grown (ended q n) raw more h =
      let fits : n ≤ length q.request.raw = rw h.0 h.1 in
      rw (take-append q.request.raw more n fits, drop-append q.request.raw more n fits)
  finish_grown (ran_out q) raw more h = rw (ap length h.0)
  finish_grown (stopped e) raw more h = refl
  finish_grown crashed raw more h = refl

  -- Where the stream is cut does not matter: a parser that waits between two calls gives on a
  -- buffer in two pieces what it gives on the whole. The same request is handed out with the
  -- second piece behind the surplus, the same error or panic is met, or the parser that waits goes
  -- on to the outcome on the whole.
  pub push-append :
      (p : Parser) (first more : Bytes)
      → IsWaiting p
      → push settings percent_decode p (first ++ more)
        ≡ resume (push settings percent_decode p first) more
  unfolding push
  push-append p first more h =
      let raw = p.request.raw ++ first in
      let start = length p.request.raw in
      let end : start + length first ≡ length raw = sym (length-append p.request.raw first) in
      let split = scan-append first more start (length raw) (fed p (first ++ more)) end in
      let grown = scan-fed first start (fed p first) more h (omega arith) in
      let leaves =
        scan-Leaves first raw start (length raw) (fed p first) h refl end (omega arith) in
      ap (finish settings percent_decode) (
        split
        ∙ ap (λ s. go_on s (length raw) more)
            (ap
                (λ b.
                  scan settings percent_decode start first
                    (record p { request = record p.request { raw = b } }))
                (sym (append_assoc p.request.raw first more))
              ∙ grown))
      ∙ finish_grown (scan settings percent_decode start first (fed p first)) raw more leaves

  abbrev pub WaitingOr : Pushed → Type 0
  WaitingOr (ready q r surplus) = (q ≡ new_parser) × IsWaiting q
  WaitingOr (waiting q) = IsWaiting q
  WaitingOr (failed e) = Unit
  WaitingOr panic = Unit

  -- Every parser that `push` leaves behind waits; the one behind a request is new.
  pub push-IsWaiting :
      (p : Parser) (buf : Bytes) → IsWaiting p → WaitingOr (push settings percent_decode p buf)
  unfolding push finish
  push-IsWaiting p buf h =
      let raw = p.request.raw ++ buf in
      by_end raw (scan settings percent_decode (length p.request.raw) buf (fed p buf)) (
        scan-Leaves buf raw (length p.request.raw) (length raw) (fed p buf) h refl
          (sym (length-append p.request.raw buf)) (omega arith))
    where
      by_end :
          (raw : Bytes) (s : Scanned)
          → Leaves raw (length raw) s
          → WaitingOr (finish settings percent_decode s)
      by_end raw (ended q n) l = (refl, tt)
      by_end raw (ran_out q) l = rw (ap length l.0) (l.1)
      by_end raw (stopped e) l = tt
      by_end raw crashed l = tt
