-- ===== src/WebSession/Contents/Polled.antt =====
-- Where `send_yet` tells a callback of a failed registration, the calls stay in the order of `Told`.
use anweb.Prelude.{
  ◌≡◌, refl, Bool, true, false, Option, none, List, [], ◌∷◌, ◌++◌, if◌then◌else◌, inl, inr,
}
use anweb.Request.{RequestData}
use anweb.TcpSession.{Session, WriteResult}
use anweb.WebSession.{
  WebSession, HttpError, WebsocketError, http_error, websocket_error, Call, Reply, perform,
  perform_http, call_http_callback, call_websocket_callback,
}
use anweb.WebSession.Callbacks.{IsClosed, perform-Unmoved}
use anweb.WebSession.Events.{tell_poll_error, send_yet}
use anweb.WebSession.Writable.{send_yet-Keeps, tell_poll_error-Asked}
use anweb.WebSession.Contents.{
  Stage, Told, broken, frame_broken, Informed, Unmoved-Informed, perform_http-Unmoved,
}

-- The calls are in order, and the callback for contents is the one given.
abbrev IsToldOf : Option (Option RequestData) → Stage → WebSession → Type 0
IsToldOf held s w = Told w.calls s × (w.content_callback ≡ held)

IsToldOf-if :
    (held : Option (Option RequestData)) (s : Stage) (t : Bool) (u v : WebSession)
    → IsToldOf held s u
    → IsToldOf held s v
    → IsToldOf held s (if t then u else v)
IsToldOf-if held s true u v p q = p
IsToldOf-if held s false u v p q = q

module _ (app : List Call → Reply) (w : WebSession) (s : Stage) (told : Told w.calls s) where
  call_http_callback-IsToldOf :
      (e : HttpError) → IsToldOf w.content_callback s (call_http_callback app (http_error e) none w)
  unfolding call_http_callback
  call_http_callback-IsToldOf e =
      let now = record w { calls = w.calls ++ http_error e ∷ [] } in
      let reply = app now.calls in
      let u = perform_http-Unmoved app reply.actions now in
      let done : IsToldOf w.content_callback s (perform_http app reply.actions none now) =
        (rw u.same_calls (broken w.calls s e told), u.same_content) in
      IsToldOf-if _ s w.http_request_callback _ _ (IsToldOf-if _ s reply.fails _ _ done done)
        (told, refl)

  call_websocket_callback-IsToldOf :
      (e : WebsocketError)
      → IsToldOf w.content_callback s (call_websocket_callback app (websocket_error e) w)
  unfolding call_websocket_callback
  call_websocket_callback-IsToldOf e =
      let now = record w { calls = w.calls ++ websocket_error e ∷ [] } in
      let reply = app now.calls in
      let u = perform-Unmoved app reply.actions now in
      let done : IsToldOf w.content_callback s (perform app reply.actions now) =
        (rw u.same_calls (frame_broken w.calls s e told), u.same_content) in
      IsToldOf-if _ s w.websocket_callback _ _ (IsToldOf-if _ s reply.fails _ _ done done)
        (told, refl)

  tell_poll_error-IsToldOf : IsToldOf w.content_callback s (tell_poll_error app w)
  tell_poll_error-IsToldOf =
      IsToldOf-if _ s w.tcp_session.is_http_mode _ _ (call_http_callback-IsToldOf _)
        (call_websocket_callback-IsToldOf _)

module _ (app : List Call → Reply) where
  tell_poll_error-Informed : (w : WebSession) → Informed w → Informed (tell_poll_error app w)
  tell_poll_error-Informed w i =
      let (told, same) = tell_poll_error-IsToldOf app w i.stage i.told in
      let a = tell_poll_error-Asked app (λ d. 0) (λ b r. refl) refl refl w in
      record {
        stage = i.stage;
        told = told;
        fits = elim i.fits [
          | inl closed ↦ inl (a.closed closed)
          | inr f ↦ inr (rw (same, a.same_state) f)
        ];
      }

  pub send_yet-Informed :
      (results : List WriteResult) (registered : Bool) (w : WebSession)
      → Informed w
      → Informed (send_yet app results registered w)
  send_yet-Informed results registered w i =
      send_yet-Keeps app Informed moved tell_poll_error-Informed results registered w i
    where
      moved :
          (s : Session) (w : WebSession)
          → Informed w
          → (IsClosed w → s.need_close ≡ true)
          → Informed (record w { tcp_session = s })
      moved s w i closes =
          Unmoved-Informed w (record w { tcp_session = s })
            (record {
              same_state = refl;
              same_calls = refl;
              same_content = refl;
              same_http = refl;
              closed = closes;
            })
            i
