-- ===== src/WebSession/Failures.antt =====
-- What an error of reading or parsing leads to: a session that has reported one is closed, and its
-- bytes no longer matter.
use anweb.Prelude.{
  ℕ, zero, suc, ◌+◌, ◌-◌, ◌%◌, ◌^◌, ◌<◌, ◌≡◌, refl, sym, ap, arith, Bool, true, false, Option,
  Option-cases, none, some, List, [], ◌∷◌, ◌++◌, if◌then◌else◌, ◌==◌, Bytes, Bool-cases, inl, inr,
  ◌⊎◌, is_empty, ltb, leb, min, length, take, drop, not, ◌&&◌,
}
use anweb.Request.{RequestData, content_len_or_zero}
use anweb.RequestParser
use anweb.Websocket
use anweb.Websocket.{is_close}
use anweb.WebSession.{
  read_error, poll_register_error, parse_request_error, parse_frame_error, WebSession, HttpState,
  State, http, websocket, Call, request, http_error, content, received, websocket_error, Reply,
  Next, stop, go_on, panicked, Settings, Processed, finished, crashed, out_of_fuel, ReadResult,
  read, would_block, read_failed, new_web_session, call_content, call_http_callback,
  call_websocket_callback, after_request, begin_content, process_received_request, leave_http,
  read_content_part, on_websocket_read, parse_request, process_in, process_once, process_data,
  read_stream, upgrade, set_content_len, count_anew, enough, begin_if_set, after_content,
  websocket_parsed, request_pushed,
}
use anweb.TcpSession.{Session}
use anweb.WebSession.Events.{
  Readiness, is_readable, is_writable, tell_poll_error, handle, handle_all,
}
use anweb.WebSession.Writable.{send_yet-Keeps, tell_poll_error-Asked}
use anweb.WebSession.Callbacks.{
  IsClosed, next_case, is_stop, is_go_on, is_panicked, weigh, call_content-Asked,
  call_http_callback-Asked, call_websocket_callback-Asked,
}

-- A failed registration with the poll leaves the session open where it stops to write: it does not
-- count here.
abbrev pub is_error : Call → ℕ
is_error (request r) = 0
is_error (http_error read_error) = 1
is_error (http_error poll_register_error) = 0
is_error (http_error (parse_request_error e)) = 1
is_error (content b r) = 0
is_error (received f) = 0
is_error (websocket_error read_error) = 1
is_error (websocket_error poll_register_error) = 0
is_error (websocket_error (parse_frame_error e)) = 1

-- The errors of reading and of parsing that the callbacks have been told.
abbrev pub errors : WebSession → ℕ
errors w = weigh is_error w.calls

-- A session has had no such error, or is closed.
abbrev pub IsFine : WebSession → Type 0
IsFine w = (errors w ≡ 0) ⊎ IsClosed w

abbrev AreFine : Next → Type 0
AreFine (stop w) = IsFine w
AreFine (go_on surplus w) = IsFine w
AreFine panicked = Unit

next_if : (t : Bool) (m n : Next) → AreFine m → AreFine n → AreFine (if t then m else n)
next_if true m n p q = p
next_if false m n p q = q

leave_http-calls : (w : WebSession) → (leave_http w).calls ≡ w.calls
unfolding leave_http
leave_http-calls w = ground arith

after_request-AreFine :
    (surplus : Bytes) (w : WebSession) → errors w ≡ 0 → AreFine (after_request surplus w)
unfolding after_request
after_request-AreFine surplus w h =
    let fine : IsFine (leave_http w) =
      inl (omega (arith, ap (weigh is_error) (leave_http-calls w))) in
    next_if (not (is_empty surplus) && not (leave_http w).tcp_session.need_close) _ _ fine fine

closed_or :
    (t : Bool) (w : WebSession) (n : Next)
    → t ≡ true
    → IsClosed w
    → AreFine (if t then stop w else n)
closed_or true w n e closed = inr closed
closed_or false w n e closed = ground arith

module _ (app : List Call → Reply) where
  begin_content-AreFine :
      (n : ℕ) (r : Option RequestData) (surplus : Bytes) (w : WebSession)
      → errors w ≡ 0
      → AreFine (begin_content app n r surplus w)
  unfolding begin_content
  begin_content-AreFine n r surplus w h =
      let held = record w { content_callback = some none } in
      let called = call_content app [] r held in
      let a = call_content-Asked app is_error (λ b q. refl) [] r held in
      let still : errors called ≡ 0 = omega (arith, a.weight) in
      next_if (n == 0) _ _
        (next_if (app (w.calls ++ content [] r ∷ [])).fails _ _ (inl still)
          (after_request-AreFine surplus (set_content_len n called) still))
        (after_request-AreFine surplus (set_content_len n w) h)

  begin_if_set-AreFine :
      (set : Option (Option RequestData)) (n : ℕ) (surplus : Bytes) (w : WebSession)
      → errors w ≡ 0
      → AreFine (begin_if_set app set n surplus w)
  unfolding begin_if_set
  begin_if_set-AreFine none n surplus w h = after_request-AreFine surplus w h
  begin_if_set-AreFine (some r) n surplus w h = begin_content-AreFine n r surplus w h

  process_received_request-AreFine :
      (r : RequestData) (surplus : Bytes) (w : WebSession)
      → errors w ≡ 0
      → AreFine (process_received_request app r surplus w)
  unfolding process_received_request
  process_received_request-AreFine r surplus w h =
      let asked = call_http_callback app (request r) (some r) w in
      let a = call_http_callback-Asked app is_error (λ c q. refl) (request r) (some r) w in
      begin_if_set-AreFine asked.content_callback (content_len_or_zero r) surplus asked
        (omega (arith, a.weight))

  read_content_part-AreFine :
      (bytes : Bytes) (h : HttpState) (r : Option RequestData) (w : WebSession)
      → errors w ≡ 0
      → AreFine (read_content_part app bytes h r w)
  unfolding read_content_part after_content
  read_content_part-AreFine bytes h r w none_yet =
      let mid = min (h.content_len - h.already_read_content_len) (length bytes) in
      let already = h.already_read_content_len + mid in
      let complete = leb h.content_len already in
      let held = record w {
        state = http (record h { already_read_content_len = already });
        content_callback = some (if complete then none else r);
      } in
      let part = take mid bytes in
      let given = if complete then r else none in
      let a = call_content-Asked app is_error (λ b q. refl) part given held in
      let still : errors (call_content app part given held) ≡ 0 = omega (arith, a.weight) in
      next_if (ltb h.content_len h.already_read_content_len) _ _ tt (
        next_if (call_content app part given held).tcp_session.need_close _ _ (inl still) (
          next_if complete _ _ (next_if (is_empty (drop mid bytes)) _ _ (inl still) (inl still))
            (inl still)))

  websocket_parsed-AreFine :
      (got : Websocket.Parsed) (w : WebSession)
      → errors w ≡ 0
      → AreFine (websocket_parsed app got w)
  unfolding websocket_parsed
  websocket_parsed-AreFine (Websocket.got q f surplus) w h =
      let now = record w { state = websocket q } in
      let a = call_websocket_callback-Asked app is_error (received f) now in
      let still : errors (call_websocket_callback app (received f) now) ≡ 0 =
        omega (arith, a.weight) in
      next_if (is_close f) _ _ (inr refl) (next_if (is_empty surplus) _ _ (inl still) (inl still))
  websocket_parsed-AreFine (Websocket.partial q) w h = inl h
  websocket_parsed-AreFine (Websocket.failed e) w h = inr refl
  websocket_parsed-AreFine Websocket.running w h = tt

  request_pushed-AreFine :
      (outcome : RequestParser.Pushed) (h : HttpState) (w : WebSession)
      → errors w ≡ 0
      → AreFine (request_pushed app outcome h w)
  unfolding request_pushed
  request_pushed-AreFine (RequestParser.ready p r surplus) h w none_yet =
      process_received_request-AreFine r surplus
        (record w { state = http (record h { request_parser = p }) }) none_yet
  request_pushed-AreFine (RequestParser.waiting p) h w none_yet = inl none_yet
  request_pushed-AreFine (RequestParser.failed e) h w none_yet = inr refl
  request_pushed-AreFine RequestParser.panic h w none_yet = tt

module _ (app : List Call → Reply) (settings : Settings)
    (percent_decode : Bytes → Option Bytes) where
  parse_request-AreFine :
      (bytes : Bytes) (h : HttpState) (w : WebSession)
      → errors w ≡ 0
      → AreFine (parse_request app settings percent_decode bytes h w)
  unfolding parse_request
  parse_request-AreFine bytes h w none_yet =
      let parse = settings.parse_http_request_settings in
      let count = (h.pipelining_http_requests_count + 1) % 2 ^ 16 in
      let counted = record h { pipelining_http_requests_count = count } in
      elim (Bool-cases (ltb parse.pipelining_requests count)) [
        | inl many ↦ rw (parse_request, many) (inr refl)
        | inr few ↦
            rw (parse_request, few)
              (request_pushed-AreFine app
                (RequestParser.push parse percent_decode h.request_parser bytes) counted w none_yet)
      ]

  process_in-AreFine :
      (s : State) (bytes : Bytes) (w : WebSession)
      → errors w ≡ 0
      → AreFine (process_in app settings percent_decode s bytes w)
  unfolding process_in on_websocket_read
  process_in-AreFine (http h) bytes w none_yet = elim (Option-cases w.content_callback) [
    | inl unset ↦ rw (process_in, unset) (parse_request-AreFine bytes h w none_yet)
    | inr (r, set) ↦ rw (process_in, set) (read_content_part-AreFine app bytes h r w none_yet)
  ]
  process_in-AreFine (websocket p) bytes w none_yet =
      websocket_parsed-AreFine app (Websocket.parse_yet p bytes settings.websocket_payload_limit) w
        none_yet

  process_once-AreFine :
      (bytes : Bytes) (w : WebSession)
      → IsFine w
      → AreFine (process_once app settings percent_decode bytes w)
  unfolding process_once
  process_once-AreFine bytes w (inl none_yet) =
      next_if w.tcp_session.need_close _ _ (inl none_yet)
        (process_in-AreFine (upgrade w) bytes (record w { state = upgrade w }) none_yet)
  process_once-AreFine bytes w (inr closed) = closed_or w.tcp_session.need_close w _ closed closed

  abbrev IsFineEnd : Processed → Type 0
  IsFineEnd (finished w) = IsFine w
  IsFineEnd crashed = Unit
  IsFineEnd out_of_fuel = Unit

  process_data-IsFineEnd :
      (fuel : ℕ) (bytes : Bytes) (w : WebSession)
      → IsFine w
      → IsFineEnd (process_data app settings percent_decode fuel bytes w)
  unfolding process_data
  process_data-IsFineEnd zero bytes w h = tt
  process_data-IsFineEnd (suc fuel) bytes w h =
      let once = process_once-AreFine bytes w h in
      elim (next_case (process_once app settings percent_decode bytes w)) [
        | is_stop w' e ↦ rw (process_data, e) (rw e at once)
        | is_go_on surplus w' e ↦
            let fine : IsFine w' = rw e at once in
            rw (process_data, e) (process_data-IsFineEnd fuel surplus w' fine)
        | is_panicked e ↦ rw (process_data, e) tt
      ]

  read_stream-IsFineEnd :
      (got : ReadResult) (w : WebSession)
      → IsFine w
      → IsFineEnd (read_stream app settings percent_decode got w)
  unfolding read_stream
  read_stream-IsFineEnd (read bytes) w h =
      let anew = record w { state = count_anew w.state } in
      end_if (is_empty bytes) _ _ (inr refl)
        (process_data-IsFineEnd (enough bytes anew) bytes anew h)
    where
      end_if :
          (t : Bool) (p q : Processed) → IsFineEnd p → IsFineEnd q → IsFineEnd (if t then p else q)
      end_if true p q a b = a
      end_if false p q a b = b
  read_stream-IsFineEnd would_block w h = h
  read_stream-IsFineEnd read_failed w h = inr refl

  handle-IsFineEnd :
      (ready : Readiness) (w : WebSession)
      → IsFine w
      → IsFineEnd (handle app settings percent_decode ready w)
  unfolding handle
  handle-IsFineEnd (is_readable got) w h = read_stream-IsFineEnd got w h
  handle-IsFineEnd (is_writable results registered) w h =
      send_yet-Keeps app IsFine moved told results registered w h
    where
      moved :
          (s : Session) (w : WebSession)
          → IsFine w
          → (IsClosed w → s.need_close ≡ true)
          → IsFine (record w { tcp_session = s })
      moved s w (inl none_yet) closes = inl none_yet
      moved s w (inr closed) closes = inr (closes closed)

      told : (w : WebSession) → IsFine w → IsFine (tell_poll_error app w)
      told w h =
          let a = tell_poll_error-Asked app is_error (λ b r. refl) refl refl w in
          elim h [
            | inl none_yet ↦ inl (omega (arith, a.weight, none_yet))
            | inr closed ↦ inr (a.closed closed)
          ]

  then_fine :
      (more : List Readiness) (first : Processed)
      → IsFineEnd first
      → ((w : WebSession) → IsFine w → IsFineEnd (handle_all app settings percent_decode more w))
      → IsFineEnd (elim first [
        | finished w' ↦ handle_all app settings percent_decode more w'
        | crashed ↦ crashed
        | out_of_fuel ↦ out_of_fuel
      ])
  then_fine more (finished w') h rest = rest w' h
  then_fine more crashed h rest = tt
  then_fine more out_of_fuel h rest = tt

  handle_all-IsFineEnd :
      (events : List Readiness) (w : WebSession)
      → IsFine w
      → IsFineEnd (handle_all app settings percent_decode events w)
  handle_all-IsFineEnd [] w h = h
  handle_all-IsFineEnd (ready ∷ more) w h =
      then_fine more (handle app settings percent_decode ready w) (handle-IsFineEnd ready w h)
        (handle_all-IsFineEnd more)

  -- The bytes that come change neither the calls of the callbacks nor the TCP session.
  abbrev pub AreIgnored : WebSession → Processed → Type 0
  AreIgnored w (finished w') = (w'.calls ≡ w.calls) × (w'.tcp_session ≡ w.tcp_session)
  AreIgnored w crashed = ⊥
  AreIgnored w out_of_fuel = ⊥

  ignored_if :
      (t : Bool) (w : WebSession) (p q : Processed)
      → AreIgnored w p
      → AreIgnored w q
      → AreIgnored w (if t then p else q)
  ignored_if true w p q h k = h
  ignored_if false w p q h k = k

  stops : (t : Bool) (w : WebSession) (n : Next) → t ≡ true → (if t then stop w else n) ≡ stop w
  stops true w n e = refl
  stops false w n e = ground arith

  closed_once :
      (bytes : Bytes) (w : WebSession)
      → IsClosed w
      → process_once app settings percent_decode bytes w ≡ stop w
  unfolding process_once
  closed_once bytes w closed = stops w.tcp_session.need_close w _ closed

  closed_data :
      (fuel : ℕ) (bytes : Bytes) (w : WebSession)
      → IsClosed w
      → 0 < fuel
      → process_data app settings percent_decode fuel bytes w ≡ finished w
  unfolding process_data
  closed_data zero bytes w closed h = absurd (omega (arith, h))
  closed_data (suc fuel) bytes w closed h = rw (process_data, closed_once bytes w closed) refl

  closed-AreIgnored :
      (bytes : Bytes) (w : WebSession)
      → IsClosed w
      → AreIgnored w (read_stream app settings percent_decode (read bytes) w)
  unfolding read_stream
  closed-AreIgnored bytes w closed =
      let anew = record w { state = count_anew w.state } in
      ignored_if (is_empty bytes) w _ _
        (refl, ap (λ b. record w.tcp_session { need_close = b }) (sym closed))
        (rw (closed_data (enough bytes anew) bytes anew closed (omega arith)) (refl, refl))

  -- A new session that has become readable and writable any number of times, with any bytes, an end of
  -- the stream or an error, either has told its callbacks of no error of reading or parsing (of a
  -- failed registration with the poll it may have), or is closed and ignores the bytes that still
  -- come: they change neither the calls of the callbacks nor the TCP session, whatever the callbacks
  -- do.
  pub handle_all-errors :
      (events : List Readiness) (bytes : Bytes) (w : WebSession)
      → handle_all app settings percent_decode events new_web_session ≡ finished w
      → (errors w ≡ 0)
        ⊎ (IsClosed w × AreIgnored w (read_stream app settings percent_decode (read bytes) w))
  handle_all-errors events bytes w e =
      let fine : IsFine w = rw e at (handle_all-IsFineEnd events new_web_session (inl refl)) in
      elim fine [
        | inl none_yet ↦ inl none_yet
        | inr closed ↦ inr (closed, closed-AreIgnored bytes w closed)
      ]
