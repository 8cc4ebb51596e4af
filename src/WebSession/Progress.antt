-- ===== src/WebSession/Progress.antt =====
-- Each call of `process_data` has fewer bytes at hand than the one before, or gives the callback for
-- contents back: by parts.
use anweb.Prelude.{
  ℕ, ◌+◌, ◌-◌, ◌*◌, ◌^◌, ◌≤◌, ◌<◌, ◌≡◌, refl, ap, ◌∙◌, arith, Bool, true, false, Option, none, some,
  List, [], ◌∷◌, ◌++◌, if◌then◌else◌, ◌==◌, Bytes, Bool-cases, inl, inr, ltb, leb, min, length,
  take, drop, length-drop,
}
use anweb.Request.{RequestData, RequestError, content_len_or_zero}
use anweb.RequestParser
use anweb.RequestParser.Chunks.{IsWaiting, WaitingOr}
use anweb.RequestParser.Consumes.{IsShorter}
use anweb.Websocket
use anweb.Websocket.{is_close}
use anweb.Websocket.Consumes.{IsSound, ParsedSound}
use anweb.WebSession.{
  WebSession, HttpState, State, http, websocket, Call, request, http_error, content, received,
  websocket_error, Reply, Next, stop, go_on, panicked, call_content, call_http_callback,
  call_websocket_callback, after_request, begin_content, process_received_request, leave_http,
  read_content_part, upgrade, content_len_set, set_content_len, refuse_request, parse_request_error,
  parse_frame_error, begin_if_set, close_session, surplus_next, after_content, websocket_parsed,
  request_pushed, buffered,
}
use anweb.WebSession.Callbacks.{
  call_content-Unmoved, call_http_callback-Asked, call_websocket_callback-Asked,
}

module _ (app : List Call → Reply) (limit : ℕ) (small : limit + 14 < 2 ^ 64) where
  -- A state between two reads: the parser waits, and the content read is within its length.
  abbrev pub IsKept : State → Type 0
  IsKept (http h) = IsWaiting h.request_parser × (h.already_read_content_len ≤ h.content_len)
  IsKept (websocket p) = IsSound limit small p

  abbrev pub held : WebSession → ℕ
  held w = elim w.content_callback [ none ↦ 0 | some r ↦ 1 ]

  -- Twice the bytes at hand, and one for a callback for contents that is set.
  abbrev pub measure : Bytes → WebSession → ℕ
  measure bytes w = (buffered w.state + length bytes) * 2 + held w

  -- The next call has less, below m.
  abbrev pub IsLess : ℕ → Next → Type 0
  IsLess m (stop w) = IsKept w.state
  IsLess m (go_on surplus w) = IsKept w.state × (measure surplus w < m)
  IsLess m panicked = Unit

  pub held-le : (w : WebSession) → held w ≤ 1
  held-le w = ground arith

  after_request-IsLess :
      (m : ℕ) (surplus : Bytes) (w : WebSession)
      → IsKept w.state
      → (buffered w.state + length surplus) * 2 + 1 < m
      → IsLess m (after_request surplus w)
  unfolding after_request leave_http
  after_request-IsLess m surplus w h k = ground (arith, held-le w)

  content_len_set-IsKept : (n : ℕ) (s : State) → IsKept s → IsKept (content_len_set n s)
  content_len_set-IsKept n (http h) k = (k.0, omega arith)
  content_len_set-IsKept n (websocket p) k = k

  buffered-content_len_set : (n : ℕ) (s : State) → buffered (content_len_set n s) ≡ buffered s
  buffered-content_len_set n (http h) = refl
  buffered-content_len_set n (websocket p) = refl

  begin_content-IsLess :
      (m n : ℕ) (r : Option RequestData) (surplus : Bytes) (w : WebSession)
      → IsKept w.state
      → (buffered w.state + length surplus) * 2 + 1 < m
      → IsLess m (begin_content app n r surplus w)
  unfolding begin_content
  begin_content-IsLess m n r surplus w h k =
      let cleared = record w { content_callback = some none } in
      let called = call_content app [] r cleared in
      let same : called.state ≡ w.state = (call_content-Unmoved app [] r cleared).same_state in
      let kept : IsKept called.state = rw same h in
      let size = ap buffered same in
      let size1 = buffered-content_len_set n called.state in
      let size2 = buffered-content_len_set n w.state in
      if_or m (n == 0) _ _
        (if_or m (app (w.calls ++ content [] r ∷ [])).fails _ _ kept (
          after_request-IsLess m surplus (set_content_len n called)
            (content_len_set-IsKept n called.state kept) (omega arith)))
        (after_request-IsLess m surplus (set_content_len n w) (content_len_set-IsKept n w.state h)
          (omega arith))
    where
      if_or :
          (m : ℕ) (t : Bool) (n1 n2 : Next)
          → IsLess m n1
          → IsLess m n2
          → IsLess m (if t then n1 else n2)
      if_or m true n1 n2 p q = p
      if_or m false n1 n2 p q = q

  begin_if_set-IsLess :
      (set : Option (Option RequestData)) (m n : ℕ) (surplus : Bytes) (w : WebSession)
      → IsKept w.state
      → (buffered w.state + length surplus) * 2 + 1 < m
      → IsLess m (begin_if_set app set n surplus w)
  unfolding begin_if_set
  begin_if_set-IsLess none m n surplus w h k = after_request-IsLess m surplus w h k
  begin_if_set-IsLess (some r) m n surplus w h k = begin_content-IsLess m n r surplus w h k

  process_received_request-IsLess :
      (m : ℕ) (r : RequestData) (surplus : Bytes) (w : WebSession)
      → IsKept w.state
      → (buffered w.state + length surplus) * 2 + 1 < m
      → IsLess m (process_received_request app r surplus w)
  unfolding process_received_request
  process_received_request-IsLess m r surplus w h k =
      let asked = call_http_callback app (request r) (some r) w in
      let same =
        (call_http_callback-Asked app (λ c. 0) (λ c q. refl) (request r) (some r) w).same_state in
      begin_if_set-IsLess asked.content_callback m (content_len_or_zero r) surplus asked (rw same h)
        (omega (arith, ap buffered same))

  pub refused-IsLess :
      (m : ℕ) (e : RequestError) (w : WebSession)
      → IsKept w.state
      → IsLess m (refuse_request app e w)
  refused-IsLess m e w h =
      let c = http_error (parse_request_error e) in
      let same = (call_http_callback-Asked app (λ d. 0) (λ d q. refl) c none w).same_state in
      rw same h

  after_content-IsLess :
      (m : ℕ) (surplus : Bytes) (h : HttpState) (complete : Bool) (w : WebSession)
      → IsKept w.state
      → IsKept (http h)
      → (buffered (http h) + length surplus) * 2 < m
      → IsLess m (after_content app surplus h complete w)
  unfolding after_content
  after_content-IsLess m surplus h complete w k1 k2 fits = ground arith

  pub read_content_part-IsLess :
      (bytes : Bytes) (h : HttpState) (r : Option RequestData) (w : WebSession)
      → IsKept (http h)
      → IsLess ((buffered (http h) + length bytes) * 2 + 1) (read_content_part app bytes h r w)
  unfolding read_content_part
  read_content_part-IsLess bytes h r w k =
      let m = (buffered (http h) + length bytes) * 2 + 1 in
      let mid = min (h.content_len - h.already_read_content_len) (length bytes) in
      let already = h.already_read_content_len + mid in
      let complete = leb h.content_len already in
      let held = record w {
        state = http (record h { already_read_content_len = already });
        content_callback = some (if complete then none else r);
      } in
      let kept : IsKept held.state = (k.0, ground (arith, k.1)) in
      let u = call_content-Unmoved app (take mid bytes) (if complete then r else none) held in
      panicked_or m (ltb h.content_len h.already_read_content_len) _ (
        after_content-IsLess m (drop mid bytes) h complete _ (rw u.same_state kept) k
          (omega (arith, length-drop mid bytes)))
    where
      panicked_or :
          (m : ℕ) (t : Bool) (n : Next) → IsLess m n → IsLess m (if t then panicked else n)
      panicked_or m true n p = tt
      panicked_or m false n p = p

  closing_or :
      (m : ℕ) (t : Bool) (w : WebSession) (surplus : Bytes)
      → IsKept w.state
      → (buffered w.state + length surplus) * 2 + 1 < m
      → IsLess m (if t then stop (close_session w) else surplus_next surplus w)
  closing_or m t w surplus h k = ground (arith, held-le w)

  pub websocket_parsed-IsLess :
      (n m : ℕ) (got : Websocket.Parsed) (w : WebSession)
      → ParsedSound limit small n got
      → IsKept w.state
      → n * 2 ≤ m
      → IsLess m (websocket_parsed app got w)
  unfolding websocket_parsed
  websocket_parsed-IsLess n m (Websocket.got q f surplus) w sound k fits =
      let now = record w { state = websocket q } in
      let same = (call_websocket_callback-Asked app (λ d. 0) (received f) now).same_state in
      let called = call_websocket_callback app (received f) now in
      let anew : IsSound limit small q = rw sound.0 tt in
      let kept : IsKept called.state = rw same anew in
      let size : buffered called.state ≡ 0 =
        ap buffered same ∙ ap (λ p. length p.frame.buf) sound.0 in
      closing_or m (is_close f) called surplus kept (omega (arith, sound.1))
  websocket_parsed-IsLess n m (Websocket.partial q) w sound k fits = sound
  websocket_parsed-IsLess n m (Websocket.failed e) w sound k fits =
      let c = websocket_error (parse_frame_error e) in
      let same = (call_websocket_callback-Asked app (λ d. 0) c w).same_state in rw same k
  websocket_parsed-IsLess n m Websocket.running w sound k fits = tt

  pub request_pushed-IsLess :
      (parse : RequestParser.Settings) (percent_decode : Bytes → Option Bytes) (n m : ℕ)
      (outcome : RequestParser.Pushed) (h : HttpState) (w : WebSession)
      → IsShorter parse percent_decode n outcome
      → WaitingOr parse percent_decode outcome
      → IsKept (http h)
      → n * 2 ≤ m
      → IsLess m (request_pushed app outcome h w)
  unfolding request_pushed
  request_pushed-IsLess parse percent_decode n m (RequestParser.ready p r surplus) h w shorter waits
        k fits =
      process_received_request-IsLess m r surplus
        (record w { state = http (record h { request_parser = p }) }) (waits.1, k.1)
        (omega (arith, shorter, ap (λ q. length q.request.raw) waits.0))
  request_pushed-IsLess parse percent_decode n m (RequestParser.waiting p) h w shorter waits k
        fits =
      (waits, k.1)
  request_pushed-IsLess parse percent_decode n m (RequestParser.failed e) h w shorter waits k fits =
      refused-IsLess m e (record w { state = http h }) k
  request_pushed-IsLess parse percent_decode n m RequestParser.panic h w shorter waits k fits = tt

  pub upgrade-IsKept :
      (s : State) (w : WebSession)
      → w.state ≡ s
      → IsKept s
      → IsKept (upgrade w) × (buffered (upgrade w) ≤ buffered s)
  upgrade-IsKept (http h) w same k = elim (Bool-cases w.websocket_callback) [
    | inl set ↦ rw (same, set) (tt, omega arith)
    | inr unset ↦ rw (same, unset) (k, omega arith)
  ]
  upgrade-IsKept (websocket p) w same k = rw same (k, omega arith)
