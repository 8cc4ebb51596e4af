-- ===== src/WebSession/Pipelining.antt =====
-- The limit on the requests that one read may bring.
use anweb.Prelude.{
  ℕ, zero, suc, ◌+◌, ◌-◌, ◌%◌, ◌^◌, ◌≤◌, ◌<◌, ◌≡◌, refl, ap, arith, Bool, Option-cases, true, false,
  Option, none, some, List, [], if◌then◌else◌, Bytes, Bool-cases, inl, inr, is_empty, ltb, leb, min,
  length, take, drop,
}
use anweb.Request.{RequestData, RequestError, content_len_or_zero, pipelining_requests_limit}
use anweb.RequestParser
use anweb.Websocket
use anweb.Websocket.{is_close}
use anweb.WebSession.{
  WebSession, HttpState, State, http, websocket, Call, request, http_error, content, received,
  websocket_error, Reply, Next, stop, go_on, panicked, Settings, Processed, finished, crashed,
  out_of_fuel, read, call_content, call_http_callback, call_websocket_callback, after_request,
  begin_content, process_received_request, leave_http, read_content_part, on_websocket_read,
  parse_request, process_in, process_once, process_data, read_stream, upgrade, content_len_set,
  set_content_len, count_anew, enough, refuse_request, parse_request_error, parse_frame_error,
  begin_if_set, close_session, surplus_next, after_content, websocket_parsed, request_pushed,
}
use anweb.WebSession.Callbacks.{
  next_case, is_stop, is_go_on, is_panicked, weigh, call_content-Asked, call_http_callback-Asked,
  call_websocket_callback-Asked,
}

abbrev pub is_request : Call → ℕ
is_request (request r) = 1
is_request (http_error e) = 0
is_request (content b r) = 0
is_request (received f) = 0
is_request (websocket_error e) = 0

-- The requests that the callback has been given.
abbrev pub requests : WebSession → ℕ
requests w = weigh is_request w.calls

module _ (app : List Call → Reply) (limit : ℕ) where
  -- The requests that the count still leaves.
  abbrev budget : State → ℕ
  budget (http h) = limit - h.pipelining_http_requests_count
  budget (websocket p) = 0

  abbrev IsCounted : State → Type 0
  IsCounted (http h) = h.pipelining_http_requests_count ≤ limit
  IsCounted (websocket p) = Unit

  -- The requests so far and the ones to come are at most b.
  abbrev IsBounded : ℕ → Next → Type 0
  IsBounded b (stop w) = requests w + budget w.state ≤ b
  IsBounded b (go_on surplus w) = (requests w + budget w.state ≤ b) × IsCounted w.state
  IsBounded b panicked = Unit

  after_request-IsBounded :
      (b : ℕ) (surplus : Bytes) (w : WebSession)
      → requests w + budget w.state ≤ b
      → IsCounted w.state
      → IsBounded b (after_request surplus w)
  unfolding after_request leave_http
  after_request-IsBounded b surplus w h k = ground arith

  budget-content_len_set : (n : ℕ) (s : State) → budget (content_len_set n s) ≡ budget s
  budget-content_len_set n (http h) = refl
  budget-content_len_set n (websocket p) = refl

  content_len_set-IsCounted : (n : ℕ) (s : State) → IsCounted s → IsCounted (content_len_set n s)
  content_len_set-IsCounted n (http h) k = k
  content_len_set-IsCounted n (websocket p) k = k

  begin_content-IsBounded :
      (b n : ℕ) (r : Option RequestData) (surplus : Bytes) (w : WebSession)
      → requests w + budget w.state ≤ b
      → IsCounted w.state
      → IsBounded b (begin_content app n r surplus w)
  unfolding begin_content
  begin_content-IsBounded b n r surplus w h k =
      let held = record w { content_callback = some none } in
      let called = call_content app [] r held in
      let a = call_content-Asked app is_request (λ c q. refl) [] r held in
      let same = ap budget a.same_state in
      let counted : IsCounted called.state = rw a.same_state k in
      let weight = a.weight in
      ground (
        arith,
        after_request-IsBounded b surplus (set_content_len n called),
        after_request-IsBounded b surplus (set_content_len n w),
        budget-content_len_set n called.state,
        budget-content_len_set n w.state,
        content_len_set-IsCounted n called.state,
        content_len_set-IsCounted n w.state,
      )

  begin_if_set-IsBounded :
      (set : Option (Option RequestData)) (b n : ℕ) (surplus : Bytes) (w : WebSession)
      → requests w + budget w.state ≤ b
      → IsCounted w.state
      → IsBounded b (begin_if_set app set n surplus w)
  unfolding begin_if_set
  begin_if_set-IsBounded none b n surplus w h k = after_request-IsBounded b surplus w h k
  begin_if_set-IsBounded (some r) b n surplus w h k = begin_content-IsBounded b n r surplus w h k

  process_received_request-IsBounded :
      (b : ℕ) (r : RequestData) (surplus : Bytes) (w : WebSession)
      → requests w + 1 + budget w.state ≤ b
      → IsCounted w.state
      → IsBounded b (process_received_request app r surplus w)
  unfolding process_received_request
  process_received_request-IsBounded b r surplus w h k =
      let asked = call_http_callback app (request r) (some r) w in
      let a = call_http_callback-Asked app is_request (λ c q. refl) (request r) (some r) w in
      begin_if_set-IsBounded asked.content_callback b (content_len_or_zero r) surplus asked
        (omega (arith, ap budget a.same_state, a.weight)) (rw a.same_state k)

  refused-IsBounded :
      (b : ℕ) (e : RequestError) (w : WebSession)
      → requests w + budget w.state ≤ b
      → IsBounded b (refuse_request app e w)
  refused-IsBounded b e w h =
      let c = http_error (parse_request_error e) in
      let a = call_http_callback-Asked app is_request (λ d q. refl) c none w in
      omega (arith, ap budget a.same_state, a.weight)

  after_content-IsBounded :
      (b : ℕ) (surplus : Bytes) (h : HttpState) (complete : Bool) (w : WebSession)
      → requests w + budget (http h) ≤ b
      → budget w.state ≡ budget (http h)
      → IsCounted (http h)
      → IsBounded b (after_content app surplus h complete w)
  unfolding after_content
  after_content-IsBounded b surplus h complete w total same k = ground arith

  panicked_or :
      (b : ℕ) (t : Bool) (n : Next) → IsBounded b n → IsBounded b (if t then panicked else n)
  panicked_or b true n h = tt
  panicked_or b false n h = h

  stop_or :
      (b : ℕ) (t : Bool) (w : WebSession) (n : Next)
      → requests w + budget w.state ≤ b
      → IsBounded b n
      → IsBounded b (if t then stop w else n)
  stop_or b true w n total h = total
  stop_or b false w n total h = h

  closing_or :
      (b : ℕ) (t : Bool) (w : WebSession) (surplus : Bytes)
      → requests w + budget w.state ≤ b
      → IsCounted w.state
      → IsBounded b (if t then stop (close_session w) else surplus_next surplus w)
  closing_or b t w surplus h k = ground arith

  read_content_part-IsBounded :
      (b : ℕ) (bytes : Bytes) (h : HttpState) (r : Option RequestData) (w : WebSession)
      → requests w + budget (http h) ≤ b
      → IsCounted (http h)
      → IsBounded b (read_content_part app bytes h r w)
  unfolding read_content_part
  read_content_part-IsBounded b bytes h r w total k =
      let mid = min (h.content_len - h.already_read_content_len) (length bytes) in
      let already = h.already_read_content_len + mid in
      let complete = leb h.content_len already in
      let held = record w {
        state = http (record h { already_read_content_len = already });
        content_callback = some (if complete then none else r);
      } in
      let a =
        call_content-Asked app is_request (λ c d. refl) (take mid bytes)
          (if complete then r else none) held in
      panicked_or b (ltb h.content_len h.already_read_content_len) _ (
        after_content-IsBounded b (drop mid bytes) h complete _ (omega (arith, a.weight))
          (ap budget a.same_state) k)

  websocket_parsed-IsBounded :
      (b : ℕ) (got : Websocket.Parsed) (w : WebSession)
      → requests w ≤ b
      → budget w.state ≡ 0
      → IsBounded b (websocket_parsed app got w)
  unfolding websocket_parsed
  websocket_parsed-IsBounded b (Websocket.got q f surplus) w h none_left =
      let now = record w { state = websocket q } in
      let a = call_websocket_callback-Asked app is_request (received f) now in
      let called = call_websocket_callback app (received f) now in
      let counted : IsCounted called.state = rw a.same_state tt in
      let same = ap budget a.same_state in
      let weight = a.weight in closing_or b (is_close f) called surplus (omega arith) counted
  websocket_parsed-IsBounded b (Websocket.partial q) w h none_left = omega arith
  websocket_parsed-IsBounded b (Websocket.failed e) w h none_left =
      let c = websocket_error (parse_frame_error e) in
      let a = call_websocket_callback-Asked app is_request c w in
      omega (arith, a.weight, ap budget a.same_state)
  websocket_parsed-IsBounded b Websocket.running w h none_left = tt

  request_pushed-IsBounded :
      (b : ℕ) (outcome : RequestParser.Pushed) (h : HttpState) (w : WebSession)
      → requests w + 1 + budget (http h) ≤ b
      → IsCounted (http h)
      → IsBounded b (request_pushed app outcome h w)
  unfolding request_pushed
  request_pushed-IsBounded b (RequestParser.ready p r surplus) h w total k =
      process_received_request-IsBounded b r surplus
        (record w { state = http (record h { request_parser = p }) }) total k
  request_pushed-IsBounded b (RequestParser.waiting p) h w total k = omega arith
  request_pushed-IsBounded b (RequestParser.failed e) h w total k =
      refused-IsBounded b e (record w { state = http h }) (omega arith)
  request_pushed-IsBounded b RequestParser.panic h w total k = tt

module _ (app : List Call → Reply) (settings : Settings) (percent_decode : Bytes → Option Bytes)
    (small : settings.parse_http_request_settings.pipelining_requests < 65535) where
  abbrev limit : ℕ
  limit = settings.parse_http_request_settings.pipelining_requests

  parse_request-IsBounded :
      (b : ℕ) (bytes : Bytes) (h : HttpState) (w : WebSession)
      → requests w + budget app limit (http h) ≤ b
      → IsCounted app limit (http h)
      → IsBounded app limit b (parse_request app settings percent_decode bytes h w)
  unfolding parse_request
  parse_request-IsBounded b bytes h w total k =
      let count = (h.pipelining_http_requests_count + 1) % 2 ^ 16 in
      let counted = record h { pipelining_http_requests_count = count } in
      let pushed =
        RequestParser.push settings.parse_http_request_settings percent_decode h.request_parser
          bytes in
      elim (Bool-cases (ltb limit count)) [
        | inl many ↦
            rw (parse_request, many)
              (refused-IsBounded app limit b pipelining_requests_limit
                (record w { state = http counted }) (ground arith))
        | inr few ↦
            rw (parse_request, few)
              (request_pushed-IsBounded app limit b pushed counted w (ground arith) (ground arith))
      ]

  process_in-IsBounded :
      (b : ℕ) (s : State) (bytes : Bytes) (w : WebSession)
      → requests w + budget app limit s ≤ b
      → IsCounted app limit s
      → w.state ≡ s
      → IsBounded app limit b (process_in app settings percent_decode s bytes w)
  unfolding process_in on_websocket_read
  process_in-IsBounded b (http h) bytes w total k same = elim (Option-cases w.content_callback) [
    | inl unset ↦ rw (process_in, unset) (parse_request-IsBounded b bytes h w total k)
    | inr (r, set) ↦
        rw (process_in, set) (read_content_part-IsBounded app limit b bytes h r w total k)
  ]
  process_in-IsBounded b (websocket p) bytes w total k same =
      websocket_parsed-IsBounded app limit b
        (Websocket.parse_yet p bytes settings.websocket_payload_limit) w (omega arith)
        (ap (budget app limit) same)

  upgrade-budget :
      (s : State) (w : WebSession)
      → w.state ≡ s
      → IsCounted app limit s
      → (budget app limit (upgrade w) ≤ budget app limit s) × IsCounted app limit (upgrade w)
  upgrade-budget (http h) w same k = rw same (ground arith)
  upgrade-budget (websocket p) w same k = rw same (ground arith)

  process_once-IsBounded :
      (b : ℕ) (bytes : Bytes) (w : WebSession)
      → requests w + budget app limit w.state ≤ b
      → IsCounted app limit w.state
      → IsBounded app limit b (process_once app settings percent_decode bytes w)
  unfolding process_once
  process_once-IsBounded b bytes w total k =
      let (less, counted) = upgrade-budget w.state w refl k in
      let inside =
        process_in-IsBounded b (upgrade w) bytes (record w { state = upgrade w })
          (omega (arith, less)) counted refl in
      stop_or app limit b w.tcp_session.need_close w _ total inside

  abbrev IsDone : ℕ → Processed → Type 0
  IsDone b (finished w) = requests w + budget app limit w.state ≤ b
  IsDone b crashed = Unit
  IsDone b out_of_fuel = Unit

  process_data-IsDone :
      (fuel b : ℕ) (bytes : Bytes) (w : WebSession)
      → requests w + budget app limit w.state ≤ b
      → IsCounted app limit w.state
      → IsDone b (process_data app settings percent_decode fuel bytes w)
  unfolding process_data
  process_data-IsDone zero b bytes w total k = tt
  process_data-IsDone (suc fuel) b bytes w total k =
      let once = process_once-IsBounded b bytes w total k in
      elim (next_case (process_once app settings percent_decode bytes w)) [
        | is_stop w' e ↦ rw (process_data, e) (rw e at once)
        | is_go_on surplus w' e ↦
            let bounded : IsBounded app limit b (go_on surplus w') = rw e at once in
            rw (process_data, e) (process_data-IsDone fuel b surplus w' bounded.0 bounded.1)
        | is_panicked e ↦ rw (process_data, e) tt
      ]

  anew_budget :
      (s : State) (calls b : ℕ) → calls + limit ≤ b → calls + budget app limit (count_anew s) ≤ b
  anew_budget (http h) calls b fits = omega arith
  anew_budget (websocket p) calls b fits = omega arith

  anew-IsCounted : (s : State) → IsCounted app limit (count_anew s)
  anew-IsCounted (http h) = omega arith
  anew-IsCounted (websocket p) = tt

  IsDone-if :
      (b : ℕ) (t : Bool) (p q : Processed) → IsDone b p → IsDone b q → IsDone b (if t then p else q)
  IsDone-if b true p q h k = h
  IsDone-if b false p q h k = k

  read_stream-IsDone :
      (bytes : Bytes) (w : WebSession)
      → IsDone (requests w + limit) (read_stream app settings percent_decode (read bytes) w)
  unfolding read_stream
  read_stream-IsDone bytes w =
      let anew = record w { state = count_anew w.state } in
      let fits = anew_budget w.state (requests w) (requests w + limit) (omega arith) in
      IsDone-if (requests w + limit) (is_empty bytes) _ _ fits (
        process_data-IsDone (enough bytes anew) (requests w + limit) bytes anew fits
          (anew-IsCounted w.state))

  -- One read brings the callback at most as many requests as the limit on pipelining, from any
  -- session and on any bytes, if the limit is below 65535.
  pub read_stream-requests :
      (bytes : Bytes) (w w' : WebSession)
      → read_stream app settings percent_decode (read bytes) w ≡ finished w'
      → requests w' ≤ requests w + limit
  read_stream-requests bytes w w' e =
      let done : IsDone (requests w + limit) (finished w') = rw e at (read_stream-IsDone bytes w) in
      omega arith
