-- ===== src/WebSession/Termination.antt =====
-- The recursion of `process_data` ends: what is at hand gets less with each call.
use anweb.Prelude.{
  ℕ, zero, suc, ◌+◌, ◌*◌, ◌%◌, ◌^◌, ◌≤◌, ◌<◌, ◌≡◌, ◌≢◌, refl, arith, Bool, true, false, Option,
  Option-cases, none, List, [], ◌∷◌, if◌then◌else◌, Bytes, Bool-cases, inl, inr, is_empty, ltb,
  length,
}
use anweb.Request.{pipelining_requests_limit}
use anweb.RequestParser
use anweb.RequestParser.Chunks.{push-IsWaiting}
use anweb.RequestParser.Consumes.{push-IsShorter}
use anweb.Websocket
use anweb.Websocket.{is_close}
use anweb.Websocket.Consumes.{parse_yet-Sound}
use anweb.WebSession.{
  WebSession, HttpState, State, http, websocket, Call, http_error, websocket_error, Reply, Next,
  stop, go_on, panicked, Settings, Processed, finished, crashed, out_of_fuel, ReadResult, read,
  would_block, read_failed, read_error, new_web_session, on_websocket_read, parse_request,
  process_in, process_once, process_data, read_stream, upgrade, count_anew, enough, buffered,
}
use anweb.WebSession.Callbacks.{
  next_case, is_stop, is_go_on, is_panicked, call_http_callback-Asked,
  call_websocket_callback-Asked,
}
use anweb.WebSession.Events.{Readiness, is_readable, is_writable, handle, handle_all}
use anweb.WebSession.Writable.{send_yet-Keeps, tell_poll_error-Asked}
use anweb.WebSession.Progress.{
  IsKept, held, measure, IsLess, held-le, refused-IsLess, read_content_part-IsLess,
  websocket_parsed-IsLess, request_pushed-IsLess, upgrade-IsKept,
}

module _ (app : List Call → Reply) (settings : Settings) (percent_decode : Bytes → Option Bytes)
    (small : settings.websocket_payload_limit + 14 < 2 ^ 64) where
  abbrev limit : ℕ
  limit = settings.websocket_payload_limit

  parse_request-IsLess :
      (m : ℕ) (bytes : Bytes) (h : HttpState) (w : WebSession)
      → IsKept app limit small (http h)
      → (buffered (http h) + length bytes) * 2 ≤ m
      → IsLess app limit small m (parse_request app settings percent_decode bytes h w)
  unfolding parse_request
  parse_request-IsLess m bytes h w k fits =
      let parse = settings.parse_http_request_settings in
      let count = (h.pipelining_http_requests_count + 1) % 2 ^ 16 in
      let counted = record h { pipelining_http_requests_count = count } in
      let pushed = RequestParser.push parse percent_decode h.request_parser bytes in
      elim (Bool-cases (ltb parse.pipelining_requests count)) [
        | inl many ↦
            rw (parse_request, many)
              (refused-IsLess app limit small m pipelining_requests_limit
                (record w { state = http counted }) k)
        | inr few ↦
            rw (parse_request, few)
              (request_pushed-IsLess app limit small parse percent_decode
                (buffered (http h) + length bytes) m pushed counted w
                (push-IsShorter parse percent_decode h.request_parser bytes k.0)
                (push-IsWaiting parse percent_decode h.request_parser bytes k.0) k fits)
      ]

  process_in-IsLess :
      (s : State) (bytes : Bytes) (w : WebSession)
      → w.state ≡ s
      → IsKept app limit small s
      → IsLess app limit small
          ((buffered s + length bytes) * 2 + held app limit small w)
          (process_in app settings percent_decode s bytes w)
  unfolding process_in on_websocket_read
  process_in-IsLess (http h) bytes w same k = elim (Option-cases w.content_callback) [
    | inl unset ↦
        rw (process_in, unset)
          (parse_request-IsLess ((buffered (http h) + length bytes) * 2 + 0) bytes h w k
            (omega arith))
    | inr (r, set) ↦ rw (process_in, set) (read_content_part-IsLess app limit small bytes h r w k)
  ]
  process_in-IsLess (websocket p) bytes w same k =
      websocket_parsed-IsLess app limit small (buffered (websocket p) + length bytes)
        ((buffered (websocket p) + length bytes) * 2 + held app limit small w)
        (Websocket.parse_yet p bytes limit) w (parse_yet-Sound limit small p bytes k) (rw same k)
        (omega arith)

  IsLess-mono :
      (m n : ℕ) (next : Next)
      → IsLess app limit small m next
      → m ≤ n
      → IsLess app limit small n next
  IsLess-mono m n (stop w) l h = l
  IsLess-mono m n (go_on surplus w) l h = (l.0, omega (arith, l.1))
  IsLess-mono m n panicked l h = tt

  process_once-IsLess :
      (bytes : Bytes) (w : WebSession)
      → IsKept app limit small w.state
      → IsLess app limit small
          (measure app limit small bytes w)
          (process_once app settings percent_decode bytes w)
  unfolding process_once
  process_once-IsLess bytes w k =
      let m = measure app limit small bytes w in
      let (kept, size) = upgrade-IsKept app limit small w.state w refl k in
      stop_or m w.tcp_session.need_close w _ k (
        IsLess-mono ((buffered (upgrade w) + length bytes) * 2 + held app limit small w) m _
          (process_in-IsLess (upgrade w) bytes (record w { state = upgrade w }) refl kept)
          (omega (arith, size)))
    where
      stop_or :
          (m : ℕ) (t : Bool) (w : WebSession) (n : Next)
          → IsKept app limit small w.state
          → IsLess app limit small m n
          → IsLess app limit small m (if t then stop w else n)
      stop_or m true w n k l = k
      stop_or m false w n k l = l

  -- The call has ended, in a session that may read again or in a panic.
  abbrev IsEnded : Processed → Type 0
  IsEnded (finished w) = IsKept app limit small w.state
  IsEnded crashed = Unit
  IsEnded out_of_fuel = ⊥

  process_data-IsEnded :
      (fuel : ℕ) (bytes : Bytes) (w : WebSession)
      → IsKept app limit small w.state
      → measure app limit small bytes w < fuel
      → IsEnded (process_data app settings percent_decode fuel bytes w)
  unfolding process_data
  process_data-IsEnded zero bytes w k h = omega (arith, h)
  process_data-IsEnded (suc fuel) bytes w k h =
      let once = process_once-IsLess bytes w k in
      elim (next_case (process_once app settings percent_decode bytes w)) [
        | is_stop w' e ↦ rw (process_data, e) (rw e at once)
        | is_go_on surplus w' e ↦
            let less : IsLess app limit small (measure app limit small bytes w) (go_on surplus w') =
              rw e at once in
            rw (process_data, e)
              (process_data-IsEnded fuel surplus w' less.0 (omega (arith, less.1)))
        | is_panicked e ↦ rw (process_data, e) tt
      ]

  count_anew-IsKept : (s : State) → IsKept app limit small s → IsKept app limit small (count_anew s)
  count_anew-IsKept (http h) k = k
  count_anew-IsKept (websocket p) k = k

  IsEnded-if : (t : Bool) (p q : Processed) → IsEnded p → IsEnded q → IsEnded (if t then p else q)
  IsEnded-if true p q h k = h
  IsEnded-if false p q h k = k

  IsKept-if :
      (t : Bool) (w1 w2 : WebSession) (s : State)
      → w1.state ≡ s
      → w2.state ≡ s
      → IsKept app limit small s
      → IsKept app limit small (if t then w1 else w2).state
  IsKept-if true w1 w2 s p q k = rw p k
  IsKept-if false w1 w2 s p q k = rw q k

  read_stream-IsEnded :
      (got : ReadResult) (w : WebSession)
      → IsKept app limit small w.state
      → IsEnded (read_stream app settings percent_decode got w)
  unfolding read_stream
  read_stream-IsEnded (read bytes) w k =
      let anew = record w { state = count_anew w.state } in
      let kept = count_anew-IsKept w.state k in
      IsEnded-if (is_empty bytes) _ _ kept (
        process_data-IsEnded (enough bytes anew) bytes anew kept
          (omega (arith, held-le app limit small anew)))
  read_stream-IsEnded would_block w k = count_anew-IsKept w.state k
  read_stream-IsEnded read_failed w k =
      let anew = record w { state = count_anew w.state } in
      let c1 = http_error read_error in
      let c2 = websocket_error read_error in
      IsKept-if w.tcp_session.is_http_mode _ _ (count_anew w.state)
        (call_http_callback-Asked app (λ d. 0) (λ d q. refl) c1 none anew).same_state
        (call_websocket_callback-Asked app (λ d. 0) c2 anew).same_state
        (count_anew-IsKept w.state k)

  handle-IsEnded :
      (ready : Readiness) (w : WebSession)
      → IsKept app limit small w.state
      → IsEnded (handle app settings percent_decode ready w)
  unfolding handle
  handle-IsEnded (is_readable got) w k = read_stream-IsEnded got w k
  handle-IsEnded (is_writable results registered) w k =
      send_yet-Keeps app (λ v. IsKept app limit small v.state) (λ s v h closes. h)
        (λ v h. rw (tell_poll_error-Asked app (λ d. 0) (λ b r. refl) refl refl v).same_state h)
        results registered w k

  then_handled :
      (more : List Readiness) (first : Processed)
      → IsEnded first
      → ((w : WebSession)
          → IsKept app limit small w.state
          → IsEnded (handle_all app settings percent_decode more w))
      → IsEnded (elim first [
        | finished w' ↦ handle_all app settings percent_decode more w'
        | crashed ↦ crashed
        | out_of_fuel ↦ out_of_fuel
      ])
  then_handled more (finished w') h rest = rest w' h
  then_handled more crashed h rest = tt
  then_handled more out_of_fuel h rest = h

  handle_all-IsEnded :
      (events : List Readiness) (w : WebSession)
      → IsKept app limit small w.state
      → IsEnded (handle_all app settings percent_decode events w)
  handle_all-IsEnded [] w k = k
  handle_all-IsEnded (ready ∷ more) w k =
      then_handled more (handle app settings percent_decode ready w) (handle-IsEnded ready w k)
        (handle_all-IsEnded more)

  -- However often a new session becomes readable and writable, whatever it reads and whatever the
  -- callbacks do, every call of `process_data` calls itself only so often that the fuel given is never used up, if the limit on the
  -- payload of a frame is small enough for its length and head to fit in 64 bits.
  pub handle_all-ne-out_of_fuel :
      (events : List Readiness)
      → handle_all app settings percent_decode events new_web_session ≢ out_of_fuel
  handle_all-ne-out_of_fuel events e =
      let ended : IsEnded out_of_fuel =
        rw e at (handle_all-IsEnded events new_web_session (tt, omega arith)) in
      ended
