-- ===== src/WebSession/Callbacks.antt =====
-- What the user's callbacks leave of a session, whatever they do: its state, and that it is to be
-- closed once that is asked for.
use anweb.Prelude.{
  ℕ, ◌+◌, ◌≤◌, ◌≡◌, refl, ap, ◌∙◌, arith, Bool, true, false, Option, none, some, List, [], ◌∷◌,
  ◌++◌, if◌then◌else◌, ◌==◌, Bytes, Bool-cases, inl, inr,
}
use anweb.Request.{RequestData, content_len_or_zero}
use anweb.TcpSession.{
  Session, Operation, send, send_arc, writable_event, close_asked, close_after_send_asked,
}
use anweb.TcpSession.Run.{operate_closed}
use anweb.WebSession.{
  WebSession, Call, content, Reply, act, Action, operation, read_content, on_frame, perform,
  call_content, perform_http, call_http_callback, call_websocket_callback, close_session, Next,
  stop, go_on, panicked,
}

abbrev pub IsClosed : WebSession → Type 0
IsClosed w = w.tcp_session.need_close ≡ true

pub act_closed : (op : Operation) (s : Session) → s.need_close ≡ true → (act op s).need_close ≡ true
unfolding act
act_closed (send bytes res_callback result registered) s h = operate_closed _ s h
act_closed (send_arc bytes res_callback result registered) s h = operate_closed _ s h
act_closed (writable_event results registered callback_fails) s h = h
act_closed close_asked s h = operate_closed close_asked s h
act_closed close_after_send_asked s h = operate_closed close_after_send_asked s h

-- What a callback cannot touch.
pub record Unmoved (w w' : WebSession) : Type 0 where
  pub same_state : w'.state ≡ w.state
  pub same_calls : w'.calls ≡ w.calls
  pub same_content : w'.content_callback ≡ w.content_callback
  pub same_http : w'.http_request_callback ≡ w.http_request_callback
  pub closed : IsClosed w → IsClosed w'

Unmoved-refl : (w : WebSession) → Unmoved w w
Unmoved-refl w = record {
  same_state = refl;
  same_calls = refl;
  same_content = refl;
  same_http = refl;
  closed = λ h. h;
}

-- To split on a computed `Next` and keep the equation.
pub data NextCase (n : Next) : Type 0 where
  is_stop : (w : WebSession) → n ≡ stop w → NextCase n
  is_go_on : (surplus : Bytes) (w : WebSession) → n ≡ go_on surplus w → NextCase n
  is_panicked : n ≡ panicked → NextCase n

pub next_case : (n : Next) → NextCase n
next_case (stop w) = is_stop w refl
next_case (go_on surplus w) = is_go_on surplus w refl
next_case panicked = is_panicked refl

-- Of calls, how many count, each with its weight.
abbrev pub weigh : (Call → ℕ) → List Call → ℕ
weigh g [] = 0
weigh g (c ∷ cs) = g c + weigh g cs

pub weigh-append : (g : Call → ℕ) (xs ys : List Call) → weigh g (xs ++ ys) ≡ weigh g xs + weigh g ys
weigh-append g [] ys = omega arith
weigh-append g (x ∷ xs) ys = omega (arith, weigh-append g xs ys)

-- What the callbacks leave of a session, where the calls that g counts grow by n at most.
pub record Asked (g : Call → ℕ) (n : ℕ) (w w' : WebSession) : Type 0 where
  pub same_state : w'.state ≡ w.state
  pub weight : weigh g w'.calls ≤ weigh g w.calls + n
  pub same_http : w'.http_request_callback ≡ w.http_request_callback
  pub closed : IsClosed w → IsClosed w'

pub Unmoved-Asked : (g : Call → ℕ) (w w' : WebSession) → Unmoved w w' → Asked g 0 w w'
Unmoved-Asked g w w' u = record {
  same_state = u.same_state;
  weight = omega (arith, ap (weigh g) u.same_calls);
  same_http = u.same_http;
  closed = u.closed;
}

Asked-trans :
    (g : Call → ℕ) (n m : ℕ) (u v w : WebSession)
    → Asked g n u v
    → Asked g m v w
    → Asked g (n + m) u w
Asked-trans g n m u v w p q = record {
  same_state = q.same_state ∙ p.same_state;
  weight = omega (arith, p.weight, q.weight);
  same_http = q.same_http ∙ p.same_http;
  closed = λ h. q.closed (p.closed h);
}

Asked-weaken :
    (g : Call → ℕ) (n m : ℕ) (w w' : WebSession) → Asked g n w w' → n ≤ m → Asked g m w w'
Asked-weaken g n m w w' a h = record {
  same_state = a.same_state;
  weight = omega (arith, a.weight);
  same_http = a.same_http;
  closed = a.closed;
}

Asked-if :
    (g : Call → ℕ) (n : ℕ) (b : Bool) (w w' : WebSession)
    → Asked g n w w'
    → Asked g n w (if b then w' else w)
Asked-if g n true w w' a = a
Asked-if g n false w w' a =
    Asked-weaken g 0 n w w (Unmoved-Asked g w w (Unmoved-refl w)) (omega arith)

-- A call that is noted.
told_lem :
    (g : Call → ℕ) (c : Call) (w : WebSession)
    → Asked g (g c) w (record w { calls = w.calls ++ c ∷ [] })
told_lem g c w = record {
  same_state = refl;
  weight = omega (arith, weigh-append g w.calls (c ∷ []));
  same_http = refl;
  closed = λ h. h;
}

fails_close_lem :
    (g : Call → ℕ) (fails : Bool) (w : WebSession)
    → Asked g 0 w (if fails then close_session w else w)
fails_close_lem g true w = record {
  same_state = refl;
  weight = omega arith;
  same_http = refl;
  closed = λ h. refl;
}
fails_close_lem g false w = Unmoved-Asked g w w (Unmoved-refl w)

module _ (app : List Call → Reply) where
  pub perform-Unmoved : (acts : List Action) (w : WebSession) → Unmoved w (perform app acts w)
  unfolding perform
  perform-Unmoved [] w = Unmoved-refl w
  perform-Unmoved (operation op ∷ acts) w =
      let u = perform-Unmoved acts _ in
      record {
        same_state = u.same_state;
        same_calls = u.same_calls;
        same_content = u.same_content;
        same_http = u.same_http;
        closed = λ h. u.closed (act_closed op w.tcp_session h);
      }
  perform-Unmoved (read_content ∷ acts) w = perform-Unmoved acts w
  perform-Unmoved (on_frame ∷ acts) w =
      let u = perform-Unmoved acts _ in
      record {
        same_state = u.same_state;
        same_calls = u.same_calls;
        same_content = u.same_content;
        same_http = u.same_http;
        closed = u.closed;
      }

  -- The callback for contents is told its part, and nothing else.
  pub call_content-Unmoved :
      (bytes : Bytes) (r : Option RequestData) (w : WebSession)
      → Unmoved (record w { calls = w.calls ++ content bytes r ∷ [] }) (call_content app bytes r w)
  unfolding call_content
  call_content-Unmoved bytes r w =
      let now = record w { calls = w.calls ++ content bytes r ∷ [] } in
      let reply = app now.calls in
      let u = perform-Unmoved reply.actions now in
      record {
        same_state = ground (arith, u.same_state);
        same_calls = ground (arith, u.same_calls);
        same_content = ground (arith, u.same_content);
        same_http = ground (arith, u.same_http);
        closed = λ h. ground (arith, u.closed h);
      }

  module _ (g : Call → ℕ)
      (no_contents : (b : Bytes) (r : Option RequestData) → g (content b r) ≡ 0) where
    pub call_content-Asked :
        (bytes : Bytes) (r : Option RequestData) (w : WebSession)
        → Asked g 0 w (call_content app bytes r w)
    call_content-Asked bytes r w =
        let now = record w { calls = w.calls ++ content bytes r ∷ [] } in
        let nothing = no_contents bytes r in
        let both =
          Asked-trans g (g (content bytes r)) 0 w now _ (told_lem g (content bytes r) w)
            (Unmoved-Asked g now _ (call_content-Unmoved bytes r w)) in
        rw nothing at both

    pub perform_http-Asked :
        (acts : List Action) (r : Option RequestData) (w : WebSession)
        → Asked g 0 w (perform_http app acts r w)
    unfolding perform_http
    perform_http-Asked [] r w = Unmoved-Asked g w w (Unmoved-refl w)
    perform_http-Asked (operation op ∷ acts) r w =
        let next = record w { tcp_session = act op w.tcp_session } in
        Asked-trans g 0 0 w next _
          (record {
            same_state = refl;
            weight = omega arith;
            same_http = refl;
            closed = act_closed op w.tcp_session;
          })
          (perform_http-Asked acts r next)
    perform_http-Asked (on_frame ∷ acts) r w =
        let next = record w { websocket_callback = true } in
        Asked-trans g 0 0 w next _
          (record { same_state = refl; weight = omega arith; same_http = refl; closed = λ h. h })
          (perform_http-Asked acts r next)
    perform_http-Asked (read_content ∷ acts) none w = perform_http-Asked acts none w
    perform_http-Asked (read_content ∷ acts) (some r) w =
        let held = record w { content_callback = some (some r) } in
        elim (Bool-cases (content_len_or_zero r == 0)) [
          | inl no_content ↦ rw no_content (
              Asked-trans g 0 0 w _ _ (call_content-Asked [] (some r) w)
                (perform_http-Asked acts none _))
          | inr more ↦ rw more (
              Asked-trans g 0 0 w held _
                (record {
                  same_state = refl;
                  weight = omega arith;
                  same_http = refl;
                  closed = λ h. h;
                })
                (perform_http-Asked acts none held))
        ]

    -- The callback for requests or errors.
    pub call_http_callback-Asked :
        (c : Call) (r : Option RequestData) (w : WebSession)
        → Asked g (g c) w (call_http_callback app c r w)
    unfolding call_http_callback
    call_http_callback-Asked c r w =
        let now = record w { calls = w.calls ++ c ∷ [] } in
        let reply = app now.calls in
        let done = perform_http app reply.actions r now in
        Asked-if g (g c) w.http_request_callback w _ (
          Asked-weaken g (g c + (0 + 0)) (g c) w _
            (Asked-trans g (g c) (0 + 0) w now _ (told_lem g c w) (
              Asked-trans g 0 0 now done _ (perform_http-Asked reply.actions r now)
                (fails_close_lem g reply.fails done)))
            (omega arith))

  -- The callback for frames.
  pub call_websocket_callback-Asked :
      (g : Call → ℕ) (c : Call) (w : WebSession) → Asked g (g c) w (call_websocket_callback app c w)
  unfolding call_websocket_callback
  call_websocket_callback-Asked g c w =
      let now = record w { calls = w.calls ++ c ∷ [] } in
      let reply = app now.calls in
      let done = perform app reply.actions now in
      Asked-if g (g c) w.websocket_callback w _ (
        Asked-weaken g (g c + (0 + 0)) (g c) w _
          (Asked-trans g (g c) (0 + 0) w now _ (told_lem g c w) (
            Asked-trans g 0 0 now done _
              (Unmoved-Asked g now done (perform-Unmoved reply.actions now))
              (fails_close_lem g reply.fails done)))
          (omega arith))
