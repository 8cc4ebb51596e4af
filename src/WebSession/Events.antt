-- ===== src/WebSession/Events.antt =====
-- What the event loop of src/worker.rs does with a session: `WebSession::read_stream` where its
-- socket is readable, and `TcpSession::send_yet` of src/tcp_session.rs where it is writable, with the
-- callbacks that it tells of a failed registration.
use anweb.Prelude.{Bool, Option, none, List, [], ◌∷◌, if◌then◌else◌, is_empty, Bytes}
use anweb.TcpSession
use anweb.TcpSession.{WriteResult, attempted, write_surpluses, with_interest, readable}
use anweb.WebSession.{
  WebSession, http_error, websocket_error, poll_register_error, Call, Reply, Settings, ReadResult,
  Processed, finished, crashed, out_of_fuel, close_session, call_http_callback,
  call_websocket_callback, read_stream,
}

module _ (app : List Call → Reply) where
  -- `PollRegisterError`, told to the callback of the session's mode.
  abbrev pub tell_poll_error : WebSession → WebSession
  tell_poll_error w =
      if w.tcp_session.is_http_mode
      then call_http_callback app (http_error poll_register_error) none w
      else call_websocket_callback app (websocket_error poll_register_error) w

  abbrev pub with_tcp_session : TcpSession.Session → WebSession → WebSession
  with_tcp_session s w = record w { tcp_session = s }

  -- Registered for reading again, or the error is told.
  abbrev pub to_reading : Bool → WebSession → WebSession
  to_reading registered w =
      if registered
      then with_tcp_session (with_interest readable w.tcp_session) w
      else tell_poll_error w

  abbrev close_if_asked : WebSession → WebSession
  close_if_asked w = if w.tcp_session.need_close_after_sending then close_session w else w

  -- `TcpSession::send_yet`, with the callbacks of the session.
  unfoldable pub send_yet : List WriteResult → Bool → WebSession → WebSession
  unfolding call_http_callback call_websocket_callback attempted write_surpluses
  send_yet results registered w =
      let s = w.tcp_session in
      let after = attempted (write_surpluses s.surpluses_to_write results) s in
      if is_empty s.surpluses_to_write
      then (if registered
          then with_tcp_session (with_interest readable s) w
          else close_session (tell_poll_error w))
      else if is_empty after.surpluses_to_write
      then close_if_asked (to_reading registered (with_tcp_session after w))
      else with_tcp_session after w

-- The readiness of a socket, with what its read returns, or with what its writes return and whether
-- the poll accepts a registration.
pub data Readiness : Type 0 where
  is_readable : ReadResult → Readiness
  is_writable : List WriteResult → Bool → Readiness

module _ (app : List Call → Reply) (settings : Settings)
    (percent_decode : Bytes → Option Bytes) where
  unfoldable pub handle : Readiness → WebSession → Processed
  unfolding read_stream send_yet
  handle (is_readable got) w = read_stream app settings percent_decode got w
  handle (is_writable results registered) w = finished (send_yet app results registered w)

  -- What happens to a session, one event after another; a panic ends it.
  abbrev pub handle_all : List Readiness → WebSession → Processed
  handle_all [] w = finished w
  handle_all (ready ∷ more) w = elim (handle ready w) [
    | finished w' ↦ handle_all more w'
    | crashed ↦ crashed
    | out_of_fuel ↦ out_of_fuel
  ]
