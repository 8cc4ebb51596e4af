-- ===== src/WebSession.antt =====
-- src/web_session.rs: what a session does with the bytes that it reads, and `Request::read_content`
-- of src/request.rs. The user's callbacks are a parameter: what they do with a call is a function of
-- all the calls so far. A callback that takes a lock which its caller holds is left out, and so is
-- `read_content` in a callback for contents, which for an empty content takes none.
pub mod Callbacks
mod Events
mod Pipelining
mod Progress
mod Termination
mod Writable
mod Failures
pub mod Contents
pub mod Delivery
mod Data
mod Tests
pub use Data.*
use anweb.Prelude.{
  ℕ, zero, suc, ◌+◌, ◌-◌, ◌*◌, ◌%◌, ◌^◌, min, Bool, true, false, ◌&&◌, not, Option, none, some,
  List, [], ◌∷◌, ◌++◌, ltb, leb, ◌==◌, if◌then◌else◌, length, take, drop, is_empty, Bytes,
}
use anweb.Request.{RequestData, RequestError, pipelining_requests_limit, content_len_or_zero}
use anweb.RequestParser
use anweb.Websocket
use anweb.Websocket.{Frame, ParseFrameError, is_close}
use anweb.TcpSession.{
  Session, Operation, send, send_arc, writable_event, close_asked, close_after_send_asked, operate,
  close, new_session,
}

abbrev pub close_session : WebSession → WebSession
close_session w = record w { tcp_session = close w.tcp_session }

abbrev pub with_state : State → WebSession → WebSession
with_state s w = record w { state = s }

abbrev pub surplus_next : Bytes → WebSession → Next
surplus_next surplus w = if is_empty surplus then stop w else go_on surplus w

-- `http.content_len = content_len; http.already_read_content_len = 0`
abbrev pub content_len_set : ℕ → State → State
content_len_set n (http h) = http (record h { content_len = n; already_read_content_len = 0 })
content_len_set n (websocket p) = websocket p

abbrev pub set_content_len : ℕ → WebSession → WebSession
set_content_len n w = record w { state = content_len_set n w.state }

-- The session leaves the HTTP mode once the callback for frames is set.
unfoldable pub leave_http : WebSession → WebSession
leave_http w =
    if w.websocket_callback
    then record w {
      http_request_callback = false;
      tcp_session = record w.tcp_session { is_http_mode = false };
    }
    else w

-- The end of `process_received_request`.
unfoldable pub after_request : Bytes → WebSession → Next
unfolding leave_http
after_request surplus w =
    let left = leave_http w in
    if not (is_empty surplus) && not left.tcp_session.need_close
    then go_on surplus left
    else stop left

-- The session becomes a websocket where the callback for frames is set.
abbrev pub upgrade : WebSession → State
upgrade w = elim w.state [
  | http h ↦ if w.websocket_callback then websocket Websocket.new_parser else http h
  | websocket p ↦ websocket p
]

-- What a callback does with the TCP session. `send_yet` is the event loop's alone.
unfoldable pub act : Operation → Session → Session
act (send bytes res_callback result registered) s =
    operate (send bytes res_callback result registered) s
act (send_arc bytes res_callback result registered) s =
    operate (send_arc bytes res_callback result registered) s
act (writable_event results registered callback_fails) s = s
act close_asked s = operate close_asked s
act close_after_send_asked s = operate close_after_send_asked s

module _ (app : List Call → Reply) where
  abbrev told : Call → WebSession → WebSession
  told call w = record w { calls = w.calls ++ call ∷ [] }

  abbrev fails_close : Bool → WebSession → WebSession
  fails_close fails w = if fails then close_session w else w

  -- What a callback for contents or frames does with the session.
  pub perform : List Action → WebSession → WebSession
  perform [] w = w
  perform (operation op ∷ rest) w = perform rest (record w { tcp_session = act op w.tcp_session })
  perform (read_content ∷ rest) w = perform rest w
  perform (on_frame ∷ rest) w = perform rest (record w { websocket_callback = true })

  -- The callback for contents is called, and the session is closed where that fails.
  pub call_content : Bytes → Option RequestData → WebSession → WebSession
  unfolding perform
  call_content data_part complete w =
      let now = told (content data_part complete) w in
      let reply = app now.calls in fails_close reply.fails (perform reply.actions now)

  -- What a callback for requests does: `read_content` takes the request.
  unfoldable pub perform_http : List Action → Option RequestData → WebSession → WebSession
  unfolding call_content
  perform_http [] r w = w
  perform_http (operation op ∷ rest) r w =
      perform_http rest r (record w { tcp_session = act op w.tcp_session })
  perform_http (on_frame ∷ rest) r w = perform_http rest r (record w { websocket_callback = true })
  perform_http (read_content ∷ rest) none w = perform_http rest none w
  perform_http (read_content ∷ rest) (some r) w = perform_http rest none (
      if content_len_or_zero r == 0
      then call_content [] (some r) w
      else record w { content_callback = some (some r) })

  -- `TcpSession::call_http_callback`
  unfoldable pub call_http_callback : Call → Option RequestData → WebSession → WebSession
  unfolding perform_http
  call_http_callback call r w =
      let now = told call w in
      let reply = app now.calls in
      if w.http_request_callback
      then fails_close reply.fails (perform_http reply.actions r now)
      else w

  -- `TcpSession::call_websocket_callback`
  pub call_websocket_callback : Call → WebSession → WebSession
  unfolding perform
  call_websocket_callback call w =
      let now = told call w in
      let reply = app now.calls in
      if w.websocket_callback then fails_close reply.fails (perform reply.actions now) else w

  -- The callback for contents is set: its part of `process_received_request`.
  pub begin_content : ℕ → Option RequestData → Bytes → WebSession → Next
  unfolding call_content after_request
  begin_content n r surplus w =
      let called = call_content [] r (record w { content_callback = some none }) in
      let refused = (app (w.calls ++ content [] r ∷ [])).fails in
      if n == 0
      then (if refused then stop called else after_request surplus (set_content_len n called))
      else after_request surplus (set_content_len n w)

  unfoldable pub begin_if_set : Option (Option RequestData) → ℕ → Bytes → WebSession → Next
  unfolding begin_content after_request
  begin_if_set none n surplus w = after_request surplus w
  begin_if_set (some r) n surplus w = begin_content n r surplus w

  unfoldable pub process_received_request : RequestData → Bytes → WebSession → Next
  unfolding call_http_callback begin_if_set
  process_received_request r surplus w =
      let asked = call_http_callback (request r) (some r) w in
      begin_if_set asked.content_callback (content_len_or_zero r) surplus asked

  abbrev pub refuse_request : RequestError → WebSession → Next
  refuse_request e w =
      stop (close_session (call_http_callback (http_error (parse_request_error e)) none w))

  -- `WebSession::read_content`, behind the call of the callback.
  pub after_content : Bytes → HttpState → Bool → WebSession → Next
  after_content surplus h complete w =
      if w.tcp_session.need_close
      then stop w
      else if complete
      then surplus_next surplus (record w {
        state = http (record h { content_len = 0; already_read_content_len = 0 });
        content_callback = none;
      })
      else stop w

  -- `WebSession::read_content`, where the callback for contents holds r.
  pub read_content_part : Bytes → HttpState → Option RequestData → WebSession → Next
  unfolding call_content after_content
  read_content_part bytes h r w =
      let mid = min (h.content_len - h.already_read_content_len) (length bytes) in
      let already = h.already_read_content_len + mid in
      let complete = leb h.content_len already in
      let held = record w {
        state = http (record h { already_read_content_len = already });
        content_callback = some (if complete then none else r);
      } in
      if ltb h.content_len h.already_read_content_len
      then panicked
      else after_content (drop mid bytes) h complete
          (call_content (take mid bytes) (if complete then r else none) held)

  -- The outcome of `parse_yet`, in `WebSession::on_websocket_read`.
  pub websocket_parsed : Websocket.Parsed → WebSession → Next
  unfolding call_websocket_callback is_close
  websocket_parsed (Websocket.got q f surplus) w =
      let called = call_websocket_callback (received f) (record w { state = websocket q }) in
      if is_close f then stop (close_session called) else surplus_next surplus called
  websocket_parsed (Websocket.partial q) w = stop (record w { state = websocket q })
  websocket_parsed (Websocket.failed e) w =
      stop (close_session (call_websocket_callback (websocket_error (parse_frame_error e)) w))
  websocket_parsed Websocket.running w = panicked

  -- The outcome of `push`, in `WebSession::parse_request`.
  pub request_pushed : RequestParser.Pushed → HttpState → WebSession → Next
  unfolding process_received_request call_http_callback
  request_pushed (RequestParser.ready p r surplus) h w =
      process_received_request r surplus
        (record w { state = http (record h { request_parser = p }) })
  request_pushed (RequestParser.waiting p) h w =
      stop (record w { state = http (record h { request_parser = p }) })
  request_pushed (RequestParser.failed e) h w = refuse_request e (record w { state = http h })
  request_pushed RequestParser.panic h w = panicked

  module _ (settings : Settings) where
    -- `WebSession::on_websocket_read`
    pub on_websocket_read : Bytes → Websocket.Parser → WebSession → Next
    unfolding websocket_parsed
    on_websocket_read bytes p w =
        websocket_parsed (Websocket.parse_yet p bytes settings.websocket_payload_limit) w

    module _ (percent_decode : Bytes → Option Bytes) where
      abbrev parse : RequestParser.Settings
      parse = settings.parse_http_request_settings

      -- `WebSession::parse_request`
      pub parse_request : Bytes → HttpState → WebSession → Next
      unfolding request_pushed call_http_callback
      parse_request bytes h w =
          let count = (h.pipelining_http_requests_count + 1) % 2 ^ 16 in
          let counted = record h { pipelining_http_requests_count = count } in
          elim (ltb parse.pipelining_requests count) [
            | true ↦ refuse_request pipelining_requests_limit (record w { state = http counted })
            | false ↦
                request_pushed (RequestParser.push parse percent_decode h.request_parser bytes)
                  counted w
          ]

      -- The rest of `process_data`, in the state given.
      pub process_in : State → Bytes → WebSession → Next
      unfolding parse_request read_content_part on_websocket_read
      process_in (http h) bytes w = elim w.content_callback [
        | none ↦ parse_request bytes h w
        | some r ↦ read_content_part bytes h r w
      ]
      process_in (websocket p) bytes w = on_websocket_read bytes p w

      -- One call of `WebSession::process_data`, up to the call of itself.
      pub process_once : Bytes → WebSession → Next
      unfolding process_in
      process_once bytes w =
          if w.tcp_session.need_close
          then stop w
          else process_in (upgrade w) bytes (record w { state = upgrade w })

-- The bytes that a parser keeps.
abbrev pub buffered : State → ℕ
buffered (http h) = length h.request_parser.request.raw
buffered (websocket p) = length p.frame.buf

abbrev pub count_anew : State → State
count_anew (http h) = http (record h { pipelining_http_requests_count = 0 })
count_anew (websocket p) = websocket p

-- Twice the bytes at hand, and one round for the callback for contents.
abbrev pub enough : Bytes → WebSession → ℕ
enough bytes w = (buffered w.state + length bytes) * 2 + 2

module _ (app : List Call → Reply) (settings : Settings)
    (percent_decode : Bytes → Option Bytes) where
  -- `WebSession::process_data`
  unfoldable pub process_data : ℕ → Bytes → WebSession → Processed
  unfolding process_once
  process_data zero bytes w = out_of_fuel
  process_data (suc fuel) bytes w = elim (process_once app settings percent_decode bytes w) [
    | stop w' ↦ finished w'
    | go_on surplus w' ↦ process_data fuel surplus w'
    | panicked ↦ crashed
  ]

  -- `WebSession::read_stream`
  unfoldable pub read_stream : ReadResult → WebSession → Processed
  unfolding process_data call_http_callback call_websocket_callback
  read_stream (read bytes) w =
      let anew = record w { state = count_anew w.state } in
      if is_empty bytes
      then finished (close_session anew)
      else process_data (enough bytes anew) bytes anew
  read_stream would_block w = finished (record w { state = count_anew w.state })
  read_stream read_failed w =
      let anew = record w { state = count_anew w.state } in
      finished (
        close_session (
          if w.tcp_session.is_http_mode
          then call_http_callback app (http_error read_error) none anew
          else call_websocket_callback app (websocket_error read_error) anew))
