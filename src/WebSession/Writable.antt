-- ===== src/WebSession/Writable.antt =====
-- What `TcpSession::send_yet` keeps of a session, whatever the callbacks do that it tells of an error.
use anweb.Prelude.{
  ℕ, ◌≡◌, refl, arith, Bool, true, false, Option, none, List, if◌then◌else◌, is_empty, Bytes,
}
use anweb.Request.{RequestData}
use anweb.TcpSession
use anweb.TcpSession.{Session, WriteResult, attempted, write_surpluses, with_interest, readable}
use anweb.TcpSession.Run.{attempted_closed}
use anweb.WebSession.{
  WebSession, http_error, websocket_error, poll_register_error, content, Call, Reply, close_session,
}
use anweb.WebSession.Callbacks.{
  IsClosed, Asked, call_http_callback-Asked, call_websocket_callback-Asked,
}
use anweb.WebSession.Events.{tell_poll_error, to_reading, with_tcp_session, send_yet}

module _ (app : List Call → Reply) where
  module _ (Keeps : WebSession → Type 0)
      (moved : (s : Session) (w : WebSession)
        → Keeps w
        → (IsClosed w → s.need_close ≡ true)
        → Keeps (with_tcp_session app s w))
      (told : (w : WebSession) → Keeps w → Keeps (tell_poll_error app w)) where
    Keeps-if : (t : Bool) (u v : WebSession) → Keeps u → Keeps v → Keeps (if t then u else v)
    Keeps-if true u v p q = p
    Keeps-if false u v p q = q

    -- What a move of the TCP session that leaves it closed keeps, and a call with an error.
    pub send_yet-Keeps :
        (results : List WriteResult) (registered : Bool) (w : WebSession)
        → Keeps w
        → Keeps (send_yet app results registered w)
    unfolding send_yet
    send_yet-Keeps results registered w k =
        let s = w.tcp_session in
        let after = attempted (write_surpluses s.surpluses_to_write results) s in
        let sent =
          moved after w k (attempted_closed (write_surpluses s.surpluses_to_write results) s) in
        let now = with_tcp_session app after w in
        let read_again =
          Keeps-if registered _ _ (moved (with_interest readable after) now sent (λ h. h))
            (told now sent) in
        Keeps-if (is_empty s.surpluses_to_write) _ _
          (Keeps-if registered _ _ (moved (with_interest readable s) w k (λ h. h))
            (closed-Keeps (tell_poll_error app w) (told w k)))
          (Keeps-if (is_empty after.surpluses_to_write) _ _
            (Keeps-if (to_reading app registered now).tcp_session.need_close_after_sending _ _
              (closed-Keeps (to_reading app registered now) read_again) read_again)
            sent)
      where
        closed-Keeps : (w : WebSession) → Keeps w → Keeps (close_session w)
        closed-Keeps w k = moved (record w.tcp_session { need_close = true }) w k (λ h. refl)

  module _ (g : Call → ℕ) (no_contents : (b : Bytes) (r : Option RequestData) → g (content b r) ≡ 0)
      (no_http : g (http_error poll_register_error) ≡ 0)
      (no_websocket : g (websocket_error poll_register_error) ≡ 0) where
    pub tell_poll_error-Asked : (w : WebSession) → Asked g 0 w (tell_poll_error app w)
    tell_poll_error-Asked w =
        asked_if w.tcp_session.is_http_mode _ _
          (rw no_http at
            (call_http_callback-Asked app g no_contents (http_error poll_register_error) none w))
          (rw no_websocket at
            (call_websocket_callback-Asked app g (websocket_error poll_register_error) w))
      where
        asked_if :
            (t : Bool) (u v : WebSession)
            → Asked g 0 w u
            → Asked g 0 w v
            → Asked g 0 w (if t then u else v)
        asked_if true u v p q = p
        asked_if false u v p q = q

-- Where the poll accepts the registration, the session sends what its TCP session alone would send.
send_yet-registered :
    (app : List Call → Reply) (results : List WriteResult) (callback_fails : Bool) (w : WebSession)
    → (send_yet app results true w).tcp_session
      ≡ TcpSession.send_yet results true callback_fails w.tcp_session
unfolding send_yet TcpSession.send_yet TcpSession.all_sent
send_yet-registered app results callback_fails w = ground arith
