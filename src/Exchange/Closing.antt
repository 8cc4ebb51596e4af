-- ===== src/Exchange/Closing.antt =====
-- A request that is answered with a response that closes: what stands behind it is not read.
use anweb.Prelude.{
  ℕ, zero, suc, ◌^◌, ◌≡◌, ◌≤◌, ◌<◌, refl, sym, ap, ◌∙◌, arith, Bool, true, false, Option, some,
  List, [], ◌∷◌, ◌++◌, if◌then◌else◌, map, Bytes, ltb, length, take, is_empty, not, ◌&&◌,
  append-nil, take-append-drop,
}
use anweb.Request.{RequestData, content_len_or_zero}
use anweb.RequestParser.Printed.{Head, IsPrintable, print_head, parsed}
use anweb.Response.{Response, response_data, need_close_after_response}
use anweb.TcpSession.{Operation, new_session, operate, try_send, write_now, wrote, sent}
use anweb.TcpSession.Order.{drop_all}
use anweb.WebSession.{
  WebSession, Call, request, http_error, content, received, websocket_error, Reply, operation, Next,
  stop, Settings, Processed, finished, crashed, out_of_fuel, read, new_web_session,
  process_received_request, call_http_callback, perform_http, act, begin_if_set, after_request,
  leave_http, process_once, process_data, read_stream, enough,
}
use anweb.WebSession.Callbacks.{IsClosed}
use anweb.WebSession.Delivery.{waiting, process_once-head, print_head-some}
use anweb.Exchange.{respond}

-- Callbacks that do with every request what `answer` says, and nothing else.
abbrev pub answering : (RequestData → List Operation) → List Call → Reply
answering answer [] = record { actions = []; fails = false }
answering answer (request r ∷ []) = record { actions = map operation (answer r); fails = false }
answering answer (http_error e ∷ []) = record { actions = []; fails = false }
answering answer (content b r ∷ []) = record { actions = []; fails = false }
answering answer (received f ∷ []) = record { actions = []; fails = false }
answering answer (websocket_error e ∷ []) = record { actions = []; fails = false }
answering answer (c ∷ d ∷ cs) = answering answer (d ∷ cs)

-- The session is closed, the callbacks were told of r alone, and the socket has these bytes.
abbrev pub IsAnswered : RequestData → Bytes → Processed → Type 0
IsAnswered r bytes (finished w) =
    (w.calls ≡ request r ∷ []) × ((w.tcp_session.written ≡ bytes) × IsClosed w)
IsAnswered r bytes crashed = ⊥
IsAnswered r bytes out_of_fuel = ⊥

take_all : (xs : Bytes) (n : ℕ) → length xs ≤ n → take n xs ≡ xs
take_all xs n h =
    sym (append-nil (take n xs))
    ∙ ap (λ b. take n xs ++ b) (sym (drop_all xs n h))
    ∙ take-append-drop n xs

module _ (settings : Settings) (percent_decode : Bytes → Option Bytes)
    (name_u16 : settings.parse_http_request_settings.header_name_len < 2 ^ 16)
    (value_u16 : settings.parse_http_request_settings.header_value_len < 2 ^ 16)
    (count_u16 : settings.parse_http_request_settings.pipelining_requests < 2 ^ 16) (date : Bytes)
    (handler : RequestData → Response) (n : ℕ) where
  abbrev app : List Call → Reply
  app = answering (λ r. respond date (handler r) 0 (wrote n) true)

  -- The session behind the answer.
  abbrev answered : RequestData → WebSession
  answered r = record (waiting 1 (request r ∷ [])) {
    tcp_session = record new_session {
      is_http_mode = true;
      need_close = true;
      need_close_after_sending = true;
      written = take n (response_data date (handler r));
      events = sent 0 ∷ [];
    };
  }

  asked-answered :
      (r : RequestData)
      → need_close_after_response (handler r) ≡ true
      → length (response_data date (handler r)) ≤ n
      → call_http_callback app (request r) (some r) (waiting 1 []) ≡ answered r
  unfolding call_http_callback perform_http act operate try_send write_now respond
  asked-answered r closes fits =
      let all : ltb n (length (response_data date (handler r))) ≡ false = ground (arith, fits) in
      rw (closes, all) refl

  received-answered :
      (r : RequestData) (rest : Bytes)
      → need_close_after_response (handler r) ≡ true
      → length (response_data date (handler r)) ≤ n
      → process_received_request app r rest (waiting 1 []) ≡ stop (answered r)
  unfolding process_received_request begin_if_set after_request leave_http
  received-answered r rest closes fits =
      ap (λ w. begin_if_set app w.content_callback (content_len_or_zero r) rest w)
        (asked-answered r closes fits)
      ∙ ignored (not (is_empty rest)) _
    where
      ignored :
          (t : Bool) (m : Next) → (if t && false then m else stop (answered r)) ≡ stop (answered r)
      ignored true m = refl
      ignored false m = refl

  stop_data :
      (fuel : ℕ) (bytes : Bytes) (w w' : WebSession)
      → 0 < fuel
      → process_once app settings percent_decode bytes w ≡ stop w'
      → process_data app settings percent_decode fuel bytes w ≡ finished w'
  unfolding process_data
  stop_data zero bytes w w' h e = absurd (omega (arith, h))
  stop_data (suc fuel) bytes w w' h e = rw (process_data, e) refl

  -- A new session whose callback answers every request with a response that does not keep the
  -- connection, on a socket that takes it at once: of one read, the callback is told of the first
  -- request alone, whatever stands behind its head, be it more requests; the socket has this
  -- response and nothing else, and the session is closed.
  pub read_stream-IsAnswered :
      (head : Head) (rest : Bytes)
      → IsPrintable settings.parse_http_request_settings head
      → 0 < settings.parse_http_request_settings.pipelining_requests
      → need_close_after_response (handler (parsed percent_decode head)) ≡ true
      → length (response_data date (handler (parsed percent_decode head))) ≤ n
      → IsAnswered
          (parsed percent_decode head)
          (response_data date (handler (parsed percent_decode head)))
          (read_stream app settings percent_decode (read (print_head head rest)) new_web_session)
  unfolding read_stream
  read_stream-IsAnswered head rest printable room closes fits =
      let r = parsed percent_decode head in
      let bytes = print_head head rest in
      let once =
        process_once-head settings percent_decode name_u16 value_u16 count_u16 app 0 [] head rest
          printable room
        ∙ received-answered r rest closes fits in
      let done =
        stop_data (enough bytes new_web_session) bytes new_web_session (answered r) (omega arith)
          once in
      rw
        (
          read_stream,
          print_head-some settings percent_decode name_u16 value_u16 count_u16 head rest,
          done,
        )
        (refl, (take_all (response_data date (handler r)) n fits, refl))
