-- ===== src/Exchange.antt =====
-- What a handler does with the TCP session of its request: `Response::try_send` of src/response.rs,
-- `Websocket::try_send` of src/websocket.rs, the websocket handshake and `Request::form` of src/request.rs, the answer of
-- src/redirect_server.rs.
mod Responses
mod Closing
mod Forms
mod Tests
use anweb.Prelude.{
  ℕ, Bool, true, false, Option, none, some, List, [], ◌∷◌, ◌++◌, if◌then◌else◌, Bytes, codes,
}
use anweb.Request.{RequestData, header_value, has_post_form}
use anweb.Response.{
  Response, new_response, set_location, set_close, set_text, response_data,
  need_close_after_response,
}
use anweb.TcpSession.{WriteResult, Operation, send, close_after_send_asked}
use anweb.Websocket
use anweb.Query.{QueryNameValue, parse_query}

-- `Response::try_send`
pub respond : Bytes → Response → ℕ → WriteResult → Bool → List Operation
unfolding response_data need_close_after_response
respond date r res_callback result registered =
    (if need_close_after_response r then close_after_send_asked ∷ [] else [])
    ++ send (response_data date r) res_callback result registered ∷ []

-- `Websocket::try_send`
pub send_frame : ℕ → Bytes → ℕ → WriteResult → Bool → List Operation
send_frame opcode payload res_callback result registered =
    send (Websocket.frame opcode payload) res_callback result registered ∷ []

-- The answer of the redirect server to every request.
pub redirect : Bytes → Bytes → RequestData → ℕ → WriteResult → Bool → List Operation
unfolding respond
redirect date path request res_callback result registered =
    respond date (set_close (set_location (new_response 303 request) path)) res_callback result
      registered

abbrev pub magic_string_for_handshake : Bytes
magic_string_for_handshake = codes "258EAFA5-E914-47DA-95CA-C5AB0DC85B11"

-- `accept_key`, with SHA-1 and base64 given.
pub accept_key : (Bytes → Bytes) → (Bytes → Bytes) → Bytes → Bytes
accept_key sha1 base64 sec_websocket_key =
    base64 (sha1 (sec_websocket_key ++ magic_string_for_handshake))

abbrev pub protocol_line : Option Bytes → Bytes
protocol_line none = []
protocol_line (some protocol) = codes "Sec-WebSocket-Protocol: " ++ (protocol ++ codes "\r\n")

-- The response of the handshake.
pub handshake_data : Bytes → Bytes → Option Bytes → Bytes
handshake_data date accept protocol =
    codes
      "HTTP/1.1 101 Switching Protocols\r\nUpgrade: websocket\r\nConnection: Upgrade\r\nSec-WebSocket-Accept: "
    ++ (accept
        ++ (codes "\r\n"
            ++ (protocol_line protocol ++ (codes "Date: " ++ (date ++ codes "\r\n\r\n")))))

abbrev pub frames_data : List (ℕ × Bytes) → Bytes
frames_data [] = []
frames_data ((opcode, payload) ∷ rest) = Websocket.frame opcode payload ++ frames_data rest

-- `Request::accept_websocket_and_send_extra_frames`; none where the request has no key.
pub accept_websocket :
    (Bytes → Bytes)
    → (Bytes → Bytes)
    → Bytes
    → List (ℕ × Bytes)
    → RequestData
    → WriteResult
    → Bool
    → Option (List Operation)
unfolding accept_key handshake_data header_value
accept_websocket sha1 base64 date extra_frames request result registered =
    elim (header_value request (codes "Sec-WebSocket-Key")) [
      | none ↦ none
      | some key ↦ some (
          send
            (handshake_data date (accept_key sha1 base64 key)
                (header_value request (codes "Sec-WebSocket-Protocol"))
              ++ frames_data extra_frames)
            0 result registered
          ∷ [])
    ]

-- `Request::form` reads the content, or refuses with a response.
pub data FormStart : Type 0 where
  reads_content : FormStart
  refused : Response → FormStart

-- `Request::form`
pub form : RequestData → FormStart
unfolding has_post_form
form request =
    if has_post_form request
    then reads_content
    else refused (set_close (set_text (new_response 422 request) (codes "Wrong form")))

-- The closure of `Request::form`, over the parts of the content that it is given: the form that it gives
-- to its callback, once a part brings the request.
pub form_of : Bytes → List (Bytes × Option RequestData) → Option (List QueryNameValue)
unfolding parse_query
form_of content [] = none
form_of content ((part, none) ∷ rest) = form_of (content ++ part) rest
form_of content ((part, some request) ∷ rest) = some (parse_query (content ++ part))
