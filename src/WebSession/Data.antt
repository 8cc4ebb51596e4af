-- ===== src/WebSession/Data.antt =====
-- src/web_session.rs: the state of a session, its calls of the user's callbacks, and the settings.
use anweb.Prelude.{ℕ, Bool, true, false, Option, none, List, [], Bytes}
use anweb.Request.{RequestData, RequestError}
use anweb.RequestParser
use anweb.Websocket
use anweb.Websocket.{Frame, ParseFrameError, is_close}
use anweb.TcpSession.{Session, Operation, new_session}

pub data HttpError : Type 0 where
  read_error poll_register_error : HttpError
  parse_request_error : RequestError → HttpError

pub data WebsocketError : Type 0 where
  read_error poll_register_error : WebsocketError
  parse_frame_error : ParseFrameError → WebsocketError

-- A call of a callback: of the one for requests, for contents (with the request when the content is
-- complete), or for frames.
pub data Call : Type 0 where
  request : RequestData → Call
  http_error : HttpError → Call
  content : Bytes → Option RequestData → Call
  received : Frame → Call
  websocket_error : WebsocketError → Call

-- What a callback does: with the TCP session, with the request at hand (`Request::read_content`), or
-- with the websocket of the session (`Websocket::on_frame`).
pub data Action : Type 0 where
  operation : Operation → Action
  read_content on_frame : Action

pub record Reply : Type 0 where
  pub actions : List Action
  pub fails : Bool

pub record HttpState : Type 0 where
  pub request_parser : RequestParser.Parser
  pub content_len : ℕ
  pub already_read_content_len : ℕ
  pub pipelining_http_requests_count : ℕ

pub data State : Type 0 where
  http : HttpState → State
  websocket : Websocket.Parser → State

-- The session with its callbacks: whether the ones for requests and for frames are set, and the
-- request that the one for contents holds. `calls` are the calls so far.
pub record WebSession : Type 0 where
  pub tcp_session : Session
  pub state : State
  pub http_request_callback : Bool
  pub content_callback : Option (Option RequestData)
  pub websocket_callback : Bool
  pub calls : List Call

abbrev pub new_http_state : HttpState
new_http_state = record {
  request_parser = RequestParser.new_parser;
  content_len = 0;
  already_read_content_len = 0;
  pipelining_http_requests_count = 0;
}

-- `WebSession::new`, when `to_http` has set the callback for requests.
abbrev pub new_web_session : WebSession
new_web_session = record {
  tcp_session = record new_session { is_http_mode = true };
  state = http new_http_state;
  http_request_callback = true;
  content_callback = none;
  websocket_callback = false;
  calls = [];
}

pub record Settings : Type 0 where
  pub parse_http_request_settings : RequestParser.Settings
  pub websocket_payload_limit : ℕ

-- `Settings::default`
abbrev pub default_settings : Settings
default_settings = record {
  parse_http_request_settings = RequestParser.default_settings;
  websocket_payload_limit = 16000000;
}

-- What one call of `process_data` leads to: it returns, it calls itself with the surplus, or it
-- panics.
pub data Next : Type 0 where
  stop : WebSession → Next
  go_on : Bytes → WebSession → Next
  panicked : Next

-- What `process_data` comes to; `out_of_fuel` is a recursion cut off.
pub data Processed : Type 0 where
  finished : WebSession → Processed
  crashed out_of_fuel : Processed

-- What `InnerTcpSession::read_stream` returns: the bytes read, none at the end of the stream.
pub data ReadResult : Type 0 where
  read : Bytes → ReadResult
  would_block read_failed : ReadResult
