-- ===== src/WebSession/Contents.antt =====
-- The order in which the callbacks are told of requests and of their contents.
pub mod Parts
mod Polled
pub mod Reads
use anweb.Prelude.{
  ℕ, zero, suc, ◌+◌, ◌-◌, ◌%◌, ◌^◌, ◌≤◌, ◌<◌, ◌≡◌, refl, sym, ap, ◌∙◌, arith, Bool, true, false,
  Option, Option-cases, none, some, List, [], ◌∷◌, ◌++◌, if◌then◌else◌, ◌==◌, Bytes, Bool-cases,
  inl, inr, ◌⊎◌, is_empty, ltb, leb, min, length, take, drop, not, ◌&&◌, length-take,
}
use anweb.Request.{RequestData, RequestError, content_len_or_zero, pipelining_requests_limit}
use anweb.RequestParser
use anweb.Websocket
use anweb.Websocket.{is_close}
use anweb.WebSession.{
  WebSession, HttpError, WebsocketError, HttpState, State, http, websocket, Call, request,
  http_error, content, received, websocket_error, Reply, Action, operation, read_content, on_frame,
  Next, stop, go_on, panicked, Settings, Processed, finished, crashed, out_of_fuel, ReadResult,
  read, would_block, read_failed, read_error, new_web_session, call_content, perform_http, perform,
  call_http_callback, call_websocket_callback, after_request, begin_content,
  process_received_request, leave_http, read_content_part, on_websocket_read, parse_request,
  process_in, process_once, process_data, read_stream, upgrade, content_len_set, set_content_len,
  count_anew, enough, refuse_request, parse_request_error, parse_frame_error, begin_if_set,
  close_session, surplus_next, after_content, websocket_parsed, request_pushed,
}
use anweb.WebSession.Callbacks.{
  IsClosed, Unmoved, next_case, is_stop, is_go_on, is_panicked, perform-Unmoved,
  call_content-Unmoved, act_closed,
}

-- Between two requests, or behind a request of whose content so many bytes have come.
pub data Stage : Type 0 where
  idle : Stage
  reading : RequestData → ℕ → Stage

-- The calls that may be made, and the stage that they lead to: the parts of a content come behind its
-- request, they have its length together, and the last one alone brings the request.
pub data Told : List Call → Stage → Type 0 where
  nothing : Told [] idle
  asked :
      (cs : List Call) (s : Stage) (r : RequestData)
      → Told cs s
      → Told (cs ++ request r ∷ []) (reading r 0)
  part :
      (cs : List Call) (r : RequestData) (n : ℕ) (b : Bytes)
      → Told cs (reading r n)
      → n + length b < content_len_or_zero r
      → Told (cs ++ content b none ∷ []) (reading r (n + length b))
  whole :
      (cs : List Call) (r : RequestData) (n : ℕ) (b : Bytes)
      → Told cs (reading r n)
      → n + length b ≡ content_len_or_zero r
      → Told (cs ++ content b (some r) ∷ []) idle
  frame :
      (cs : List Call) (s : Stage) (f : Websocket.Frame)
      → Told cs s
      → Told (cs ++ received f ∷ []) s
  broken :
      (cs : List Call) (s : Stage) (e : HttpError) → Told cs s → Told (cs ++ http_error e ∷ []) s
  frame_broken :
      (cs : List Call) (s : Stage) (e : WebsocketError)
      → Told cs s
      → Told (cs ++ websocket_error e ∷ []) s

-- What an open session knows of the content that it reads.
abbrev pub FitsOpen : Option (Option RequestData) → State → Stage → Type 0
FitsOpen none st s = Unit
FitsOpen (some r) (websocket p) s = Unit
FitsOpen (some none) (http h) s = ⊥
FitsOpen (some (some r)) (http h) s =
    (s ≡ reading r h.already_read_content_len)
    × ((h.content_len ≡ content_len_or_zero r) × (h.already_read_content_len < h.content_len))

abbrev pub Fits : WebSession → Stage → Type 0
Fits w s = IsClosed w ⊎ FitsOpen w.content_callback w.state s

pub record Informed (w : WebSession) : Type 0 where
  pub stage : Stage
  pub told : Told w.calls stage
  pub fits : Fits w stage

abbrev pub AreInformed : Next → Type 0
AreInformed (stop w) = Informed w
AreInformed (go_on surplus w) = Informed w
AreInformed panicked = Unit

pub next_if :
    (t : Bool) (m n : Next) → AreInformed m → AreInformed n → AreInformed (if t then m else n)
next_if true m n p q = p
next_if false m n p q = q

pub Unmoved-Informed : (w w' : WebSession) → Unmoved w w' → Informed w → Informed w'
Unmoved-Informed w w' u i = record {
  stage = i.stage;
  told = rw u.same_calls i.told;
  fits = elim i.fits [
    | inl closed ↦ inl (u.closed closed)
    | inr f ↦ inr (rw (u.same_content, u.same_state) f)
  ];
}

pub Told_if :
    (t : Bool) (w w' : WebSession) (s : Stage)
    → Told w.calls s
    → Told w'.calls s
    → Told (if t then w else w').calls s
Told_if true w w' s p q = p
Told_if false w w' s p q = q

-- How a callback for requests leaves the content of its request: set to be read, or not.
abbrev pub Settled : RequestData → WebSession → Type 0
Settled r w =
    (Informed w × (w.content_callback ≡ none))
    ⊎ (Told w.calls (reading r 0)
        × ((w.content_callback ≡ some (some r)) × (0 < content_len_or_zero r)))

Settled-if :
    (t : Bool) (r : RequestData) (w w' : WebSession)
    → Settled r w
    → Settled r w'
    → Settled r (if t then w else w')
Settled-if true r w w' p q = p
Settled-if false r w w' p q = q

Settled-case :
    (t : Bool) (r : RequestData) (w w' : WebSession)
    → (t ≡ true → Settled r w)
    → (t ≡ false → Settled r w')
    → Settled r (if t then w else w')
Settled-case true r w w' p q = p refl
Settled-case false r w w' p q = q refl

Unmoved-Settled : (r : RequestData) (w w' : WebSession) → Unmoved w w' → Settled r w → Settled r w'
Unmoved-Settled r w w' u (inl (i, none_set)) =
    inl (Unmoved-Informed w w' u i, u.same_content ∙ none_set)
Unmoved-Settled r w w' u (inr (told, (set, more))) =
    inr (rw u.same_calls told, (u.same_content ∙ set, more))

close_session-Unmoved : (w : WebSession) → Unmoved w (close_session w)
close_session-Unmoved w = record {
  same_state = refl;
  same_calls = refl;
  same_content = refl;
  same_http = refl;
  closed = λ h. refl;
}

-- A callback with its request given to none of its calls.
module _ (app : List Call → Reply) where
  pub perform_http-Unmoved :
      (acts : List Action) (w : WebSession) → Unmoved w (perform_http app acts none w)
  unfolding perform_http
  perform_http-Unmoved [] w = record {
    same_state = refl;
    same_calls = refl;
    same_content = refl;
    same_http = refl;
    closed = λ h. h;
  }
  perform_http-Unmoved (operation op ∷ acts) w =
      let u = perform_http-Unmoved acts _ in
      record {
        same_state = u.same_state;
        same_calls = u.same_calls;
        same_content = u.same_content;
        same_http = u.same_http;
        closed = λ h. u.closed (act_closed op w.tcp_session h);
      }
  perform_http-Unmoved (read_content ∷ acts) w = perform_http-Unmoved acts w
  perform_http-Unmoved (on_frame ∷ acts) w =
      let u = perform_http-Unmoved acts _ in
      record {
        same_state = u.same_state;
        same_calls = u.same_calls;
        same_content = u.same_content;
        same_http = u.same_http;
        closed = u.closed;
      }

  perform_http-Settled :
      (acts : List Action) (r : RequestData) (w : WebSession)
      → Told w.calls (reading r 0)
      → w.content_callback ≡ none
      → Settled r (perform_http app acts (some r) w)
  unfolding perform_http
  perform_http-Settled [] r w told unset =
      inl (record { stage = reading r 0; told = told; fits = inr (rw unset tt) }, unset)
  perform_http-Settled (operation op ∷ acts) r w told unset =
      perform_http-Settled acts r _ told unset
  perform_http-Settled (on_frame ∷ acts) r w told unset = perform_http-Settled acts r _ told unset
  perform_http-Settled (read_content ∷ acts) r w told unset =
      let now = record w { calls = w.calls ++ content [] (some r) ∷ [] } in
      let held = record w { content_callback = some (some r) } in
      Unmoved-Settled r
        (if content_len_or_zero r == 0 then call_content app [] (some r) w else held) _
        (perform_http-Unmoved acts _)
        (Settled-case (content_len_or_zero r == 0) r (call_content app [] (some r) w) held
          (λ e. Unmoved-Settled r now _ (call_content-Unmoved app [] (some r) w) (
            inl (
              record {
                stage = idle;
                told = whole w.calls r 0 [] told (ground (arith, e));
                fits = inr (rw unset tt);
              },
              unset,
            )))
          (λ e. inr (told, (refl, ground (arith, e)))))

  -- The callback for requests, told of r.
  pub call_http_callback-Settled :
      (r : RequestData) (w : WebSession)
      → Informed w
      → w.content_callback ≡ none
      → Settled r (call_http_callback app (request r) (some r) w)
  unfolding call_http_callback
  call_http_callback-Settled r w i unset =
      let now = record w { calls = w.calls ++ request r ∷ [] } in
      let reply = app now.calls in
      let done = perform_http app reply.actions (some r) now in
      let settled =
        perform_http-Settled reply.actions r now (asked w.calls i.stage r i.told) unset in
      Settled-if w.http_request_callback r _ _
        (Settled-if reply.fails r _ _
          (Unmoved-Settled r done _ (close_session-Unmoved done) settled) settled)
        (inl (i, unset))

  -- Told of an error, and closed.
  pub call_http_callback-Informed :
      (e : HttpError) (w : WebSession)
      → Informed w
      → Informed (close_session (call_http_callback app (http_error e) none w))
  unfolding call_http_callback
  call_http_callback-Informed e w i =
      let now = record w { calls = w.calls ++ http_error e ∷ [] } in
      let reply = app now.calls in
      let done = perform_http app reply.actions none now in
      let same = (perform_http-Unmoved reply.actions now).same_calls in
      let told_done : Told done.calls i.stage = rw same (broken w.calls i.stage e i.told) in
      record {
        stage = i.stage;
        told =
            Told_if w.http_request_callback _ _ i.stage
              (Told_if reply.fails _ _ i.stage told_done told_done) i.told;
        fits = inl refl;
      }
