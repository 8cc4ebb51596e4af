-- ===== src/WebSession/Contents/Parts.antt =====
-- Each part of `process_data` keeps the calls of a session in the order that `Told` allows.
use anweb.Prelude.{
  ℕ, ◌+◌, ◌-◌, ◌≤◌, ◌<◌, ◌≡◌, refl, ap, arith, Bool, true, false, Option, none, some, List, [], ◌∷◌,
  ◌++◌, if◌then◌else◌, ◌==◌, Bytes, Bool-cases, inl, inr, is_empty, ltb, leb, min, length, take,
  drop, not, ◌&&◌, length-take,
}
use anweb.Request.{RequestData, content_len_or_zero}
use anweb.RequestParser
use anweb.Websocket
use anweb.Websocket.{is_close}
use anweb.WebSession.{
  WebSession, HttpState, State, http, websocket, Call, request, content, received, websocket_error,
  Reply, Next, stop, call_content, perform, call_http_callback, call_websocket_callback,
  after_request, begin_content, process_received_request, leave_http, read_content_part, upgrade,
  content_len_set, set_content_len, count_anew, parse_request_error, parse_frame_error,
  begin_if_set, after_content, websocket_parsed, request_pushed,
}
use anweb.WebSession.Callbacks.{perform-Unmoved, call_content-Unmoved}
use anweb.WebSession.Callbacks.{call_websocket_callback-Asked}
use anweb.WebSession.Contents.{
  Stage, idle, reading, Told, part, whole, frame, frame_broken, FitsOpen, Informed, AreInformed,
  next_if, Unmoved-Informed, Told_if, Settled, call_http_callback-Settled,
  call_http_callback-Informed,
}

pub next_case_if :
    (t : Bool) (m n : Next)
    → (t ≡ true → AreInformed m)
    → (t ≡ false → AreInformed n)
    → AreInformed (if t then m else n)
next_case_if true m n p q = p refl
next_case_if false m n p q = q refl

websocket-FitsOpen :
    (c : Option (Option RequestData)) (p : Websocket.Parser) (s : Stage)
    → FitsOpen c (websocket p) s
websocket-FitsOpen none p s = tt
websocket-FitsOpen (some r) p s = tt

pub FitsOpen-same :
    (c d : Option (Option RequestData)) (u v : State) (s : Stage)
    → c ≡ d
    → u ≡ v
    → FitsOpen c u s
    → FitsOpen d v s
FitsOpen-same c d u v s p q f = rw⁻¹ (p, q) f

count_anew-FitsOpen :
    (c : Option (Option RequestData)) (st : State) (s : Stage)
    → FitsOpen c st s
    → FitsOpen c (count_anew st) s
count_anew-FitsOpen none st s f = tt
count_anew-FitsOpen (some r) (websocket p) s f = tt
count_anew-FitsOpen (some none) (http h) s f = f
count_anew-FitsOpen (some (some r)) (http h) s f = f

pub count_anew-Informed :
    (w : WebSession) → Informed w → Informed (record w { state = count_anew w.state })
count_anew-Informed w i = record {
  stage = i.stage;
  told = i.told;
  fits = elim i.fits [
    | inl closed ↦ inl closed
    | inr f ↦ inr (count_anew-FitsOpen w.content_callback w.state i.stage f)
  ];
}

upgrade-FitsOpen :
    (st : State) (s : Stage) (w : WebSession)
    → w.state ≡ st
    → FitsOpen w.content_callback st s
    → FitsOpen w.content_callback (upgrade w) s
upgrade-FitsOpen (http h) s w same f = elim (Bool-cases w.websocket_callback) [
  | inl set ↦ rw (same, set) (websocket-FitsOpen w.content_callback Websocket.new_parser s)
  | inr unset ↦ rw (same, unset) f
]
upgrade-FitsOpen (websocket p) s w same f = rw same f

pub upgrade-Informed : (w : WebSession) → Informed w → Informed (record w { state = upgrade w })
upgrade-Informed w i = record {
  stage = i.stage;
  told = i.told;
  fits = elim i.fits [
    | inl closed ↦ inl closed
    | inr f ↦ inr (upgrade-FitsOpen w.state i.stage w refl f)
  ];
}

-- No callback for contents is set: nothing is known of the stage.
pub unset-Informed :
    (w : WebSession) (s : Stage) → Told w.calls s → w.content_callback ≡ none → Informed w
unset-Informed w s told unset = record { stage = s; told = told; fits = inr (rw unset tt) }

leave_http-Informed : (w : WebSession) → Informed w → Informed (leave_http w)
unfolding leave_http
leave_http-Informed w i =
    by_callback w.websocket_callback _ w (record { stage = i.stage; told = i.told; fits = i.fits })
      i
  where
    by_callback :
        (t : Bool) (u v : WebSession) → Informed u → Informed v → Informed (if t then u else v)
    by_callback true u v p q = p
    by_callback false u v p q = q

after_request-Informed :
    (surplus : Bytes) (w : WebSession) → Informed w → AreInformed (after_request surplus w)
unfolding after_request
after_request-Informed surplus w i =
    let left = leave_http-Informed w i in
    next_if (not (is_empty surplus) && not (leave_http w).tcp_session.need_close) _ _ left left

content_begun :
    (r : RequestData) (st : State)
    → 0 < content_len_or_zero r
    → FitsOpen (some (some r)) (content_len_set (content_len_or_zero r) st) (reading r 0)
content_begun r (http h) more = (refl, (refl, more))
content_begun r (websocket p) more = tt

module _ (app : List Call → Reply) where
  begin_if_set-Informed :
      (c : Option (Option RequestData)) (r : RequestData) (surplus : Bytes) (w : WebSession)
      → Settled r w
      → w.content_callback ≡ c
      → AreInformed (begin_if_set app c (content_len_or_zero r) surplus w)
  unfolding begin_if_set begin_content
  begin_if_set-Informed none r surplus w (inl (i, unset)) same = after_request-Informed surplus w i
  begin_if_set-Informed none r surplus w (inr (told, (set, more))) same =
      absurd (ground (arith, set, same))
  begin_if_set-Informed (some x) r surplus w (inl (i, unset)) same =
      absurd (ground (arith, unset, same))
  begin_if_set-Informed (some x) r surplus w (inr (told, (set, more))) same =
      let n = content_len_or_zero r in
      let begun = set_content_len n w in
      let i : Informed begun = record {
        stage = reading r 0;
        told = told;
        fits = inr (rw set (content_begun r w.state more));
      } in
      next_case_if (n == 0) _ _ (λ e. absurd (ground (arith, e, more)))
        (λ e. after_request-Informed surplus begun i)

  process_received_request-Informed :
      (r : RequestData) (surplus : Bytes) (w : WebSession)
      → Informed w
      → w.content_callback ≡ none
      → AreInformed (process_received_request app r surplus w)
  unfolding process_received_request
  process_received_request-Informed r surplus w i unset =
      begin_if_set-Informed _ r surplus (call_http_callback app (request r) (some r) w)
        (call_http_callback-Settled app r w i unset) refl

  pub request_pushed-Informed :
      (outcome : RequestParser.Pushed) (h : HttpState) (w : WebSession)
      → Informed w
      → w.content_callback ≡ none
      → AreInformed (request_pushed app outcome h w)
  unfolding request_pushed
  request_pushed-Informed (RequestParser.ready p r surplus) h w i unset =
      let now = record w { state = http (record h { request_parser = p }) } in
      process_received_request-Informed r surplus now (unset-Informed now i.stage i.told unset)
        unset
  request_pushed-Informed (RequestParser.waiting p) h w i unset =
      unset-Informed (record w { state = http (record h { request_parser = p }) }) i.stage i.told
        unset
  request_pushed-Informed (RequestParser.failed e) h w i unset =
      let now = record w { state = http h } in
      call_http_callback-Informed app (parse_request_error e) now
        (unset-Informed now i.stage i.told unset)
  request_pushed-Informed RequestParser.panic h w i unset = tt

  -- A part of the content of r is told; what is left of the bytes is surplus.
  after_content-Informed :
      (complete : Bool) (already : ℕ) (bytes surplus : Bytes) (h : HttpState) (r : RequestData)
      (w : WebSession)
      → Told w.calls (reading r h.already_read_content_len)
      → h.content_len ≡ content_len_or_zero r
      → h.already_read_content_len + length bytes ≡ already
      → already ≤ h.content_len
      → leb h.content_len already ≡ complete
      → AreInformed (
          after_content app surplus h complete (
            call_content app bytes (if complete then some r else none) (record w {
              state = http (record h { already_read_content_len = already });
              content_callback = some (if complete then none else some r);
            })))
  unfolding after_content
  after_content-Informed true already bytes surplus h r w told len sum le e =
      let held = record w {
        state = http (record h { already_read_content_len = already });
        content_callback = some none;
      } in
      let u = call_content-Unmoved app bytes (some r) held in
      let called = call_content app bytes (some r) held in
      let told_all : Told called.calls idle =
        rw u.same_calls
          (whole w.calls r h.already_read_content_len bytes told (ground (arith, e))) in
      let cleared = record called {
        state = http (record h { content_len = 0; already_read_content_len = 0 });
        content_callback = none;
      } in
      let i = unset-Informed cleared idle told_all refl in
      next_case_if called.tcp_session.need_close _ _
        (λ closed. record { stage = idle; told = told_all; fits = inl closed })
        (λ open_still. next_if (is_empty surplus) _ _ i i)
  after_content-Informed false already bytes surplus h r w told len sum le e =
      let held = record w {
        state = http (record h { already_read_content_len = already });
        content_callback = some (some r);
      } in
      let u = call_content-Unmoved app bytes none held in
      let n = h.already_read_content_len in
      let more : n + length bytes < content_len_or_zero r = ground (arith, e, len, sum) in
      let told_part : Told (w.calls ++ content bytes none ∷ []) (reading r (n + length bytes)) =
        part w.calls r n bytes told more in
      let i = Unmoved-Informed _ _ u (record {
        stage = reading r (n + length bytes);
        told = told_part;
        fits = inr (ap (reading r) sum, (len, omega (arith, more, len, sum)));
      }) in
      let called = call_content app bytes none held in
      next_if called.tcp_session.need_close (stop called) (stop called) i i

  pub read_content_part-Informed :
      (x : Option RequestData) (bytes : Bytes) (h : HttpState) (w : WebSession) (s : Stage)
      → Told w.calls s
      → FitsOpen (some x) (http h) s
      → AreInformed (read_content_part app bytes h x w)
  unfolding read_content_part
  read_content_part-Informed none bytes h w s told f = absurd f
  read_content_part-Informed (some r) bytes h w s told (same, (len, less)) =
      let mid = min (h.content_len - h.already_read_content_len) (length bytes) in
      let size : length (take mid bytes) ≡ mid = ground (arith, length-take mid bytes) in
      let already = h.already_read_content_len + mid in
      next_if (ltb h.content_len h.already_read_content_len) _ _ tt (
        after_content-Informed (leb h.content_len already) already (take mid bytes) (drop mid bytes)
          h r w (rw⁻¹ same told) len (omega (arith, size)) (ground (arith, less)) refl)

  -- Told of a frame or of an error.
  pub call_websocket_callback-Told :
      (c : Call) (w : WebSession) (s : Stage)
      → Told w.calls s
      → Told (w.calls ++ c ∷ []) s
      → Told (call_websocket_callback app c w).calls s
  unfolding call_websocket_callback
  call_websocket_callback-Told c w s before after =
      let now = record w { calls = w.calls ++ c ∷ [] } in
      let reply = app now.calls in
      let done = perform app reply.actions now in
      let told_done : Told done.calls s =
        rw (perform-Unmoved app reply.actions now).same_calls after in
      Told_if w.websocket_callback _ _ s (Told_if reply.fails _ _ s told_done told_done) before

  websocket-Informed :
      (w : WebSession) (p : Websocket.Parser) (s : Stage)
      → w.state ≡ websocket p
      → Told w.calls s
      → Informed w
  websocket-Informed w p s same told = record {
    stage = s;
    told = told;
    fits = inr (rw same (websocket-FitsOpen w.content_callback p s));
  }

  pub websocket_parsed-Informed :
      (got : Websocket.Parsed) (w : WebSession)
      → Informed w
      → AreInformed (websocket_parsed app got w)
  unfolding websocket_parsed
  websocket_parsed-Informed (Websocket.got q f surplus) w i =
      let now = record w { state = websocket q } in
      let called = call_websocket_callback app (received f) now in
      let told =
        call_websocket_callback-Told (received f) now i.stage i.told
          (frame w.calls i.stage f i.told) in
      let a = call_websocket_callback-Asked app (λ c. 0) (received f) now in
      let done = websocket-Informed called q i.stage a.same_state told in
      next_if (is_close f) _ _ (record { stage = i.stage; told = told; fits = inl refl })
        (next_if (is_empty surplus) _ _ done done)
  websocket_parsed-Informed (Websocket.partial q) w i =
      websocket-Informed (record w { state = websocket q }) q i.stage refl i.told
  websocket_parsed-Informed (Websocket.failed e) w i =
      let c = parse_frame_error e in
      record {
        stage = i.stage;
        told =
            call_websocket_callback-Told (websocket_error c) w i.stage i.told
              (frame_broken w.calls i.stage c i.told);
        fits = inl refl;
      }
  websocket_parsed-Informed Websocket.running w i = tt
