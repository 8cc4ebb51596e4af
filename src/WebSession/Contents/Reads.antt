-- ===== src/WebSession/Contents/Reads.antt =====
-- The calls that a session makes over all that happens to it are in the order that `Told` allows.
use anweb.Prelude.{
  ℕ, zero, suc, ◌+◌, ◌%◌, ◌^◌, ◌≡◌, refl, arith, Bool, true, false, Option, none, some, List, [],
  ◌∷◌, if◌then◌else◌, Bytes, Bool-cases, inl, inr, is_empty, ltb,
}
use anweb.Request.{RequestData, pipelining_requests_limit}
use anweb.RequestParser
use anweb.Websocket
use anweb.Websocket.{is_close}
use anweb.WebSession.{
  WebSession, HttpState, State, http, websocket, Call, websocket_error, Reply, Settings, Processed,
  finished, crashed, out_of_fuel, ReadResult, read, would_block, read_failed, read_error,
  new_web_session, on_websocket_read, parse_request, process_in, process_once, process_data,
  read_stream, upgrade, count_anew, enough, parse_request_error, close_session,
}
use anweb.WebSession.Callbacks.{next_case, is_stop, is_go_on, is_panicked}
use anweb.WebSession.Contents.{
  Stage, idle, Told, nothing, frame_broken, Informed, AreInformed, call_http_callback-Informed,
}
use anweb.WebSession.Events.{Readiness, is_readable, is_writable, handle, handle_all}
use anweb.WebSession.Contents.Polled.{send_yet-Informed}
use anweb.WebSession.Contents.Parts.{
  next_case_if, FitsOpen-same, count_anew-Informed, upgrade-Informed, unset-Informed,
  request_pushed-Informed, read_content_part-Informed, call_websocket_callback-Told,
  websocket_parsed-Informed,
}

module _ (app : List Call → Reply) (settings : Settings)
    (percent_decode : Bytes → Option Bytes) where
  parse_request-Informed :
      (bytes : Bytes) (h : HttpState) (w : WebSession)
      → Informed w
      → w.content_callback ≡ none
      → AreInformed (parse_request app settings percent_decode bytes h w)
  unfolding parse_request
  parse_request-Informed bytes h w i unset =
      let parse = settings.parse_http_request_settings in
      let count = (h.pipelining_http_requests_count + 1) % 2 ^ 16 in
      let counted = record h { pipelining_http_requests_count = count } in
      let now = record w { state = http counted } in
      elim (Bool-cases (ltb parse.pipelining_requests count)) [
        | inl many ↦
            rw (parse_request, many)
              (call_http_callback-Informed app (parse_request_error pipelining_requests_limit) now
                (unset-Informed now i.stage i.told unset))
        | inr few ↦
            rw (parse_request, few)
              (request_pushed-Informed app
                (RequestParser.push parse percent_decode h.request_parser bytes) counted w i unset)
      ]

  -- In the state s, with the callback for contents c.
  process_in-Informed :
      (s : State) (c : Option (Option RequestData)) (bytes : Bytes) (w : WebSession)
      → Informed w
      → w.tcp_session.need_close ≡ false
      → w.state ≡ s
      → w.content_callback ≡ c
      → AreInformed (process_in app settings percent_decode s bytes w)
  unfolding process_in on_websocket_read
  process_in-Informed (http h) none bytes w i is_open same unset =
      let goal = parse_request-Informed bytes h w i unset in rw (process_in, unset) goal
  process_in-Informed (http h) (some x) bytes w i is_open same set = elim i.fits [
    | inl closed ↦ absurd (ground (arith, closed, is_open))
    | inr f ↦
        let fits = FitsOpen-same w.content_callback (some x) w.state (http h) i.stage set same f in
        rw (process_in, set) (read_content_part-Informed app x bytes h w i.stage i.told fits)
  ]
  process_in-Informed (websocket p) c bytes w i is_open same e =
      websocket_parsed-Informed app (Websocket.parse_yet p bytes settings.websocket_payload_limit) w
        i

  process_once-Informed :
      (bytes : Bytes) (w : WebSession)
      → Informed w
      → AreInformed (process_once app settings percent_decode bytes w)
  unfolding process_once
  process_once-Informed bytes w i =
      next_case_if w.tcp_session.need_close _ _ (λ closed. i)
        (λ is_open.
          process_in-Informed (upgrade w) w.content_callback bytes (record w { state = upgrade w })
            (upgrade-Informed w i) is_open refl refl)

  abbrev IsInformedEnd : Processed → Type 0
  IsInformedEnd (finished w) = Informed w
  IsInformedEnd crashed = Unit
  IsInformedEnd out_of_fuel = Unit

  process_data-Informed :
      (fuel : ℕ) (bytes : Bytes) (w : WebSession)
      → Informed w
      → IsInformedEnd (process_data app settings percent_decode fuel bytes w)
  unfolding process_data
  process_data-Informed zero bytes w i = tt
  process_data-Informed (suc fuel) bytes w i =
      let once = process_once-Informed bytes w i in
      elim (next_case (process_once app settings percent_decode bytes w)) [
        | is_stop w' e ↦ rw (process_data, e) (rw e at once)
        | is_go_on surplus w' e ↦
            let next : Informed w' = rw e at once in
            rw (process_data, e) (process_data-Informed fuel surplus w' next)
        | is_panicked e ↦ rw (process_data, e) tt
      ]

  read_stream-Informed :
      (got : ReadResult) (w : WebSession)
      → Informed w
      → IsInformedEnd (read_stream app settings percent_decode got w)
  unfolding read_stream
  read_stream-Informed (read bytes) w i =
      let anew = record w { state = count_anew w.state } in
      let told = count_anew-Informed w i in
      end_if (is_empty bytes) _ _ (record { stage = i.stage; told = i.told; fits = inl refl })
        (process_data-Informed (enough bytes anew) bytes anew told)
    where
      end_if :
          (t : Bool) (p q : Processed)
          → IsInformedEnd p
          → IsInformedEnd q
          → IsInformedEnd (if t then p else q)
      end_if true p q a b = a
      end_if false p q a b = b
  read_stream-Informed would_block w i = count_anew-Informed w i
  read_stream-Informed read_failed w i =
      let anew = record w { state = count_anew w.state } in
      closed_if w.tcp_session.is_http_mode _ _
        (call_http_callback-Informed app read_error anew (count_anew-Informed w i))
        (record {
          stage = i.stage;
          told =
              call_websocket_callback-Told app (websocket_error read_error) anew i.stage i.told
                (frame_broken w.calls i.stage read_error i.told);
          fits = inl refl;
        })
    where
      closed_if :
          (t : Bool) (u v : WebSession)
          → Informed (close_session u)
          → Informed (close_session v)
          → Informed (close_session (if t then u else v))
      closed_if true u v p q = p
      closed_if false u v p q = q

  handle-Informed :
      (ready : Readiness) (w : WebSession)
      → Informed w
      → IsInformedEnd (handle app settings percent_decode ready w)
  unfolding handle
  handle-Informed (is_readable got) w i = read_stream-Informed got w i
  handle-Informed (is_writable results registered) w i =
      send_yet-Informed app results registered w i

  then-Informed :
      (more : List Readiness) (first : Processed)
      → IsInformedEnd first
      → ((w : WebSession)
          → Informed w
          → IsInformedEnd (handle_all app settings percent_decode more w))
      → IsInformedEnd (elim first [
        | finished w' ↦ handle_all app settings percent_decode more w'
        | crashed ↦ crashed
        | out_of_fuel ↦ out_of_fuel
      ])
  then-Informed more (finished w') h rest = rest w' h
  then-Informed more crashed h rest = tt
  then-Informed more out_of_fuel h rest = tt

  handle_all-Informed :
      (events : List Readiness) (w : WebSession)
      → Informed w
      → IsInformedEnd (handle_all app settings percent_decode events w)
  handle_all-Informed [] w i = i
  handle_all-Informed (ready ∷ more) w i =
      then-Informed more (handle app settings percent_decode ready w) (handle-Informed ready w i)
        (handle_all-Informed more)

  -- The calls of a new session that has become readable and writable any number of times are in the
  -- order of `Told`, whatever it reads and whatever the callbacks do (one for contents that reads a
  -- content again is left out): every part of a content comes behind its request, only the last part
  -- brings the request again, and up to there the parts have the length of the content together.
  pub handle_all-Told :
      (events : List Readiness) (w : WebSession)
      → handle_all app settings percent_decode events new_web_session ≡ finished w
      → (s : Stage) × Told w.calls s
  handle_all-Told events w e =
      let i : Informed w = rw e at (
        handle_all-Informed events new_web_session
          (record { stage = idle; told = nothing; fits = inr tt })) in
      (i.stage, i.told)
