-- ===== src/Exchange/Tests.antt =====
-- Answers at concrete requests, and the theorems at them.
use anweb.Prelude.{
  ◌≡◌, ◌≤◌, refl, arith, take, true, Option, none, some, List, [], ◌∷◌, ◌++◌, Bytes, codes,
  bytes_eq, length, ltb, not,
}
use anweb.Request.{RequestData, new_request, has_post_form, header_value}
use anweb.RequestParser.Printed.{parsed, print_head}
use anweb.RequestParser.Tests.{get_head, get_head-IsPrintable}
use anweb.Response.{Response, new_response, set_close, response_data, need_close_after_response}
use anweb.TcpSession.{new_session, operate_all, wrote, send}
use anweb.Websocket
use anweb.WebSession
use anweb.WebSession.{read_stream, read, new_web_session}
use anweb.Exchange.{respond, accept_websocket, form, form_of, reads_content}
use anweb.Query.{QueryNameValue}
use anweb.Exchange.Forms.{in_parts, form-print_query}
use anweb.Exchange.Responses.{IsIdle, IsSent, respond-IsSent}
use anweb.Exchange.Closing.{IsAnswered, answering, read_stream-IsAnswered}

abbrev closing_response : RequestData → Response
closing_response r = set_close (new_response 303 r)

new_session-IsIdle : IsIdle new_session
new_session-IsIdle = record { nothing_waits = refl; open_still = refl; not_asked = refl }

respond-IsSent_example :
    IsSent new_session
      (operate_all
        (respond (codes "now") (closing_response new_request) 0 (wrote 7) true)
        new_session)
      (response_data (codes "now") (closing_response new_request))
      (not (ltb 7 (length (response_data (codes "now") (closing_response new_request)))))
      (need_close_after_response (closing_response new_request))
respond-IsSent_example =
    respond-IsSent (codes "now") (closing_response new_request) 0 7 new_session new_session-IsIdle

abbrev plain : Bytes → Option Bytes
plain b = some b

closes : need_close_after_response (closing_response (parsed plain get_head)) ≡ true
unfolding need_close_after_response
closes = refl

fits : length (response_data (codes "now") (closing_response (parsed plain get_head))) ≤ 500
unfolding response_data
fits = omega arith

-- The handshake, with two functions in place of SHA-1 and base64, and without a key.
handshake :
    accept_websocket
      (λ b. take 3 b)
      (λ b. b)
      (codes "now")
      ((1, codes "hi") ∷ [])
      (record new_request {
        headers = record { name = codes "Sec-WebSocket-Key"; value = codes "dGhl" } ∷ [];
      })
      (wrote 500)
      true
    ≡ some (
        send
          (codes
              "HTTP/1.1 101 Switching Protocols\r\nUpgrade: websocket\r\nConnection: Upgrade\r\nSec-WebSocket-Accept: dGh\r\nDate: now\r\n\r\n"
            ++ (Websocket.frame 1 (codes "hi") ++ []))
          0
          (wrote 500)
          true
        ∷ [])
unfolding accept_websocket header_value bytes_eq
handshake = refl

no_key : accept_websocket (λ b. b) (λ b. b) (codes "now") [] new_request (wrote 500) true ≡ none
unfolding accept_websocket header_value bytes_eq
no_key = refl

read_stream-IsAnswered_example :
    IsAnswered
      (parsed plain get_head)
      (response_data (codes "now") (closing_response (parsed plain get_head)))
      (read_stream
        (answering (λ r. respond (codes "now") (closing_response r) 0 (wrote 500) true))
        WebSession.default_settings
        plain
        (read (print_head get_head (codes "GET / HTTP/1.1\r\n\r\n")))
        new_web_session)
read_stream-IsAnswered_example =
    read_stream-IsAnswered WebSession.default_settings plain (omega arith) (omega arith)
      (omega arith) (codes "now") closing_response 500 get_head (codes "GET / HTTP/1.1\r\n\r\n")
      get_head-IsPrintable (omega arith) closes fits

abbrev form_request : RequestData
form_request = record new_request {
  content_len = some 7;
  headers =
      record { name = codes "Content-Type"; value = codes "application/x-www-form-urlencoded" }
      ∷ [];
}

form_posted : has_post_form form_request ≡ true
unfolding has_post_form header_value bytes_eq
form_posted = refl

abbrev two_fields : List QueryNameValue
two_fields =
    record { name = codes "a"; value = codes "1" }
    ∷ record { name = codes "b"; value = codes "2" }
    ∷ []

form-print_query_example :
    (form form_request ≡ reads_content)
    × (form_of [] (in_parts (codes "a=1" ∷ codes "&" ∷ []) (codes "b=2") form_request)
        ≡ some two_fields)
form-print_query_example =
    form-print_query form_request (codes "a=1" ∷ codes "&" ∷ []) (codes "b=2") two_fields
      form_posted refl refl
