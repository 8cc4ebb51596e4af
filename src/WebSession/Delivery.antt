-- ===== src/WebSession/Delivery.antt =====
-- Requests with their contents, sent one behind another, as the callbacks are told of them.
use anweb.Prelude.{
  ℕ, zero, suc, ◌+◌, ◌-◌, ◌*◌, ◌%◌, ◌^◌, ◌≤◌, ◌<◌, ◌≡◌, refl, sym, ap, ◌∙◌, arith, Bool, true,
  false, Option, some, List, [], ◌∷◌, ◌++◌, if◌then◌else◌, ◌==◌, Bytes, Bool-cases, inl, inr,
  is_empty, ltb, leb, min, length, take, drop, append_assoc, append-nil, ap₂, length-append,
  take-append-length, drop-append-length, not, ◌&&◌,
}
use anweb.Request.{RequestData, content_len_or_zero}
use anweb.RequestParser.Printed.{Head, IsPrintable, print_head, print_head-append, parsed}
use anweb.RequestParser.RoundTrip.{push-print_head}
use anweb.WebSession.{
  WebSession, http, Call, request, content, Reply, read_content, Next, Settings, Processed,
  finished, read, new_web_session, new_http_state, call_content, perform_http, perform,
  call_http_callback, after_request, begin_content, process_received_request, leave_http,
  read_content_part, parse_request, process_in, process_once, process_data, read_stream, enough,
  begin_if_set, after_content, request_pushed, surplus_next,
}

-- A request and its content.
pub record Message : Type 0 where
  pub head : Head
  pub body : Bytes

-- Callbacks that read the content of every request, and fail never.
abbrev pub reading : List Call → Reply
reading calls = record { actions = read_content ∷ []; fails = false }

abbrev pub print_messages : List Message → Bytes
print_messages [] = []
print_messages (m ∷ ms) = print_head m.head (m.body ++ print_messages ms)

-- A new session that has got k requests in this read, and has told cs.
abbrev pub waiting : ℕ → List Call → WebSession
waiting k cs = record new_web_session {
  state = http (record new_http_state { pipelining_http_requests_count = k });
  calls = cs;
}

module _ (settings : Settings) (percent_decode : Bytes → Option Bytes) where
  -- A head that the grammar and the limits allow, with the content that it announces.
  abbrev pub IsSendable : Message → Type 0
  IsSendable m =
      IsPrintable settings.parse_http_request_settings m.head
      × (length m.body ≡ content_len_or_zero (parsed percent_decode m.head))

  abbrev pub AreSendable : List Message → Type 0
  AreSendable [] = Unit
  AreSendable (m ∷ ms) = IsSendable m × AreSendable ms

  -- What the callbacks are told of a message.
  abbrev pub calls_of : List Message → List Call
  calls_of [] = []
  calls_of (m ∷ ms) =
      request (parsed percent_decode m.head)
      ∷ content m.body (some (parsed percent_decode m.head))
      ∷ calls_of ms

-- The head of r is read, and its content is to come.
abbrev begun : ℕ → List Call → RequestData → WebSession
begun k cs r = record (waiting k cs) {
  state = http (record new_http_state {
    pipelining_http_requests_count = k;
    content_len = content_len_or_zero r;
  });
  content_callback = some (some r);
}

next_lem : (b : Bool) (m n : Next) → (if not b && true then m else n) ≡ (if b then n else m)
next_lem true m n = refl
next_lem false m n = refl

received_empty :
    (k : ℕ) (cs : List Call) (r : RequestData) (rest : Bytes)
    → (content_len_or_zero r == 0) ≡ true
    → process_received_request reading r rest (waiting k cs)
      ≡ surplus_next rest (waiting k ((cs ++ request r ∷ []) ++ content [] (some r) ∷ []))
unfolding process_received_request call_http_callback perform_http call_content perform begin_if_set
    after_request leave_http
received_empty k cs r rest e = rw e (next_lem (is_empty rest) _ _)

-- The callback for requests has asked for the content of r.
abbrev asked_for : ℕ → List Call → RequestData → WebSession
asked_for k cs r = record (waiting k (cs ++ request r ∷ [])) { content_callback = some (some r) }

call_http_callback-asked :
    (k : ℕ) (cs : List Call) (r : RequestData)
    → (content_len_or_zero r == 0) ≡ false
    → call_http_callback reading (request r) (some r) (waiting k cs) ≡ asked_for k cs r
unfolding call_http_callback perform_http
call_http_callback-asked k cs r e = rw e refl

begin_content-asked :
    (k : ℕ) (cs : List Call) (r : RequestData) (rest : Bytes)
    → (content_len_or_zero r == 0) ≡ false
    → begin_content reading (content_len_or_zero r) (some r) rest (asked_for k cs r)
      ≡ surplus_next rest (begun k (cs ++ request r ∷ []) r)
unfolding begin_content after_request leave_http
begin_content-asked k cs r rest e = rw e (next_lem (is_empty rest) _ _)

received_more :
    (k : ℕ) (cs : List Call) (r : RequestData) (rest : Bytes)
    → (content_len_or_zero r == 0) ≡ false
    → process_received_request reading r rest (waiting k cs)
      ≡ surplus_next rest (begun k (cs ++ request r ∷ []) r)
unfolding process_received_request begin_if_set
received_more k cs r rest e =
    ap (λ w. begin_if_set reading w.content_callback (content_len_or_zero r) rest w)
      (call_http_callback-asked k cs r e)
    ∙ begin_content-asked k cs r rest e

content_read :
    (k : ℕ) (cs : List Call) (r : RequestData) (body rest : Bytes)
    → length body ≡ content_len_or_zero r
    → read_content_part reading
        (body ++ rest)
        (record new_http_state {
          pipelining_http_requests_count = k;
          content_len = content_len_or_zero r;
        })
        (some r)
        (begun k cs r)
      ≡ surplus_next rest (waiting k (cs ++ content body (some r) ∷ []))
unfolding read_content_part call_content after_content perform
content_read k cs r body rest size =
    let n = content_len_or_zero r in
    let whole : min (n - 0) (length (body ++ rest)) ≡ length body =
      omega (arith, size, length-append body rest) in
    let left : drop (length body) (body ++ rest) ≡ rest =
      drop-append-length body rest (length body) refl in
    let first : take (length body) (body ++ rest) ≡ body =
      take-append-length body rest (length body) refl in
    let done : leb n (0 + length body) ≡ true = ground (arith, size) in
    let bounded : ltb n 0 ≡ false = ground arith in
    rw (read_content_part, whole, left, first, done, bounded) refl

module _ (settings : Settings) (percent_decode : Bytes → Option Bytes)
    (name_u16 : settings.parse_http_request_settings.header_name_len < 2 ^ 16)
    (value_u16 : settings.parse_http_request_settings.header_value_len < 2 ^ 16)
    (count_u16 : settings.parse_http_request_settings.pipelining_requests < 2 ^ 16) where
  abbrev limit : ℕ
  limit = settings.parse_http_request_settings.pipelining_requests

  parse_request-head :
      (app : List Call → Reply) (k : ℕ) (cs : List Call) (head : Head) (rest : Bytes)
      → IsPrintable settings.parse_http_request_settings head
      → k < limit
      → parse_request app settings percent_decode
          (print_head head rest)
          (record new_http_state { pipelining_http_requests_count = k })
          (waiting k cs)
        ≡ process_received_request app (parsed percent_decode head) rest (waiting (suc k) cs)
  unfolding parse_request request_pushed
  parse_request-head app k cs head rest printable room =
      let parse = settings.parse_http_request_settings in
      let count : (k + 1) % 2 ^ 16 ≡ suc k = ground arith in
      let few : ltb limit (suc k) ≡ false = ground arith in
      rw
        (
          parse_request,
          count,
          few,
          push-print_head parse percent_decode name_u16 value_u16 head printable rest,
        )
        (ap (λ n. process_received_request app (parsed percent_decode head) rest (waiting n cs))
          count)

  pub process_once-head :
      (app : List Call → Reply) (k : ℕ) (cs : List Call) (head : Head) (rest : Bytes)
      → IsPrintable settings.parse_http_request_settings head
      → k < limit
      → process_once app settings percent_decode (print_head head rest) (waiting k cs)
        ≡ process_received_request app (parsed percent_decode head) rest (waiting (suc k) cs)
  unfolding process_once process_in
  process_once-head app k cs head rest printable room =
      parse_request-head app k cs head rest printable room

  process_once-content :
      (k : ℕ) (cs : List Call) (r : RequestData) (body rest : Bytes)
      → length body ≡ content_len_or_zero r
      → process_once reading settings percent_decode (body ++ rest) (begun k cs r)
        ≡ surplus_next rest (waiting k (cs ++ content body (some r) ∷ []))
  unfolding process_once process_in
  process_once-content k cs r body rest size = content_read k cs r body rest size

  data_onward :
      (fuel : ℕ) (bytes rest : Bytes) (w w' : WebSession)
      → process_once reading settings percent_decode bytes w ≡ surplus_next rest w'
      → process_data reading settings percent_decode (suc fuel) bytes w ≡ (
          if is_empty rest
          then finished w'
          else process_data reading settings percent_decode fuel rest w')
  unfolding process_data
  data_onward fuel bytes [] w w' e = rw (process_data, e) refl
  data_onward fuel bytes (x ∷ xs) w w' e = rw (process_data, e) refl

  -- What `process_data` comes to, where there may be nothing left.
  abbrev go : ℕ → Bytes → WebSession → Processed
  go fuel rest w =
      if is_empty rest then finished w else process_data reading settings percent_decode fuel rest w

  go_some :
      (fuel : ℕ) (xs : Bytes) (w : WebSession)
      → is_empty xs ≡ false
      → go fuel xs w ≡ process_data reading settings percent_decode fuel xs w
  go_some fuel [] w e = ground arith
  go_some fuel (x ∷ xs) w e = refl

  pub print_head-some : (head : Head) (rest : Bytes) → is_empty (print_head head rest) ≡ false
  print_head-some head rest = some_before head.verb _
    where
      some_before : (xs ys : Bytes) → is_empty (xs ++ (b' ' ∷ ys)) ≡ false
      some_before [] ys = refl
      some_before (x ∷ xs) ys = refl

  body_some : (body rest : Bytes) → 0 < length body → is_empty (body ++ rest) ≡ false
  body_some [] rest h = absurd (omega (arith, h))
  body_some (x ∷ xs) rest h = refl

  -- One message is delivered.
  go-message :
      (fuel k : ℕ) (cs : List Call) (m : Message) (rest : Bytes)
      → IsSendable settings percent_decode m
      → k < limit
      → (left : ℕ) × ((fuel ≤ left)
          × (go (suc (suc fuel)) (print_head m.head (m.body ++ rest)) (waiting k cs)
              ≡ go left rest (
                  waiting (suc k) (
                    (cs ++ request (parsed percent_decode m.head) ∷ [])
                    ++ content m.body (some (parsed percent_decode m.head)) ∷ []))))
  go-message fuel k cs m rest (printable, size) room =
      let r = parsed percent_decode m.head in
      let bytes = m.body ++ rest in
      let told = cs ++ request r ∷ [] in
      let start =
        go_some (suc (suc fuel)) (print_head m.head bytes) (waiting k cs)
          (print_head-some m.head bytes) in
      let once = process_once-head reading k cs m.head bytes printable room in
      elim (Bool-cases (content_len_or_zero r == 0)) [
        | inl e ↦
            let none_left : m.body ≡ [] = length-zero m.body (ground (arith, size, e)) in
            (
              suc fuel,
              (
                omega arith,
                start
                    ∙ data_onward (suc fuel) _ bytes _ _
                        (once ∙ received_empty (suc k) cs r bytes e)
                    ∙ ap
                        (λ b.
                          go (suc fuel) (b ++ rest)
                            (waiting (suc k) (told ++ content [] (some r) ∷ [])))
                        none_left
                    ∙ ap
                        (λ b.
                          go (suc fuel) rest (waiting (suc k) (told ++ content b (some r) ∷ [])))
                        (sym none_left),
              ),
            )
        | inr e ↦ (
          fuel,
          (
            omega arith,
            start
                ∙ data_onward (suc fuel) _ bytes _ _ (once ∙ received_more (suc k) cs r bytes e)
                ∙ go_some (suc fuel) bytes (begun (suc k) told r)
                    (body_some m.body rest (ground (arith, size, e)))
                ∙ data_onward fuel _ rest _ _
                    (process_once-content (suc k) told r m.body rest size),
          ),
        )
      ]
    where
      length-zero : (xs : Bytes) → length xs ≡ 0 → xs ≡ []
      length-zero [] h = refl
      length-zero (x ∷ xs) h = absurd (omega (arith, h))

  -- All messages are delivered.
  go-messages :
      (ms : List Message) (fuel k : ℕ) (cs : List Call)
      → AreSendable settings percent_decode ms
      → k + length ms ≤ limit
      → length ms * 2 ≤ fuel
      → go fuel (print_messages ms) (waiting k cs)
        ≡ finished (waiting (k + length ms) (cs ++ calls_of settings percent_decode ms))
  go-messages [] fuel k cs sendable room enough_fuel =
      ap₂ (λ n xs. finished (waiting n xs)) (omega arith) (sym (append-nil cs))
  go-messages (m ∷ ms) zero k cs sendable room enough_fuel = absurd (omega (arith, enough_fuel))
  go-messages (m ∷ ms) (suc zero) k cs sendable room enough_fuel =
      absurd (omega (arith, enough_fuel))
  go-messages (m ∷ ms) (suc (suc fuel)) k cs (one, more) room enough_fuel =
      let (left, (spare, e)) =
        go-message fuel k cs m (print_messages ms) one (omega (arith, room)) in
      e
      ∙ go-messages ms left (suc k) _ more (omega (arith, room)) (omega (arith, enough_fuel, spare))
      ∙ ap₂ (λ n xs. finished (waiting n xs)) (omega arith) (simp append_assoc)

  length_some : (xs : Bytes) → is_empty xs ≡ false → 0 < length xs
  length_some [] e = ground arith
  length_some (x ∷ xs) e = omega arith

  length-messages : (ms : List Message) → length ms ≤ length (print_messages ms)
  length-messages [] = omega arith
  length-messages (m ∷ ms) =
      let rest = m.body ++ print_messages ms in
      let first = length_some (print_head m.head []) (print_head-some m.head []) in
      omega (
        arith,
        first,
        ap length (print_head-append m.head rest),
        length-append (print_head m.head []) rest,
        length-append m.body (print_messages ms),
        length-messages ms,
      )

  -- One read of messages one behind another, each a head that the grammar and the limits allow and a
  -- content of the length announced, and no more of them than the limit on pipelining: if the callbacks
  -- read every content, they are told of every request in its order, each followed by its whole
  -- content; the session stays open and waits for the next request. The limits are below 2^16.
  pub read_stream-messages :
      (m : Message) (ms : List Message)
      → AreSendable settings percent_decode (m ∷ ms)
      → length (m ∷ ms) ≤ limit
      → read_stream reading settings percent_decode (read (print_messages (m ∷ ms))) new_web_session
        ≡ finished (waiting (length (m ∷ ms)) (calls_of settings percent_decode (m ∷ ms)))
  unfolding read_stream
  read_stream-messages m ms sendable room =
      let bytes = print_messages (m ∷ ms) in
      let some_bytes = print_head-some m.head (m.body ++ print_messages ms) in
      let fuel = enough bytes new_web_session in
      rw (read_stream, some_bytes)
        (sym (go_some fuel bytes new_web_session some_bytes)
          ∙ go-messages (m ∷ ms) fuel 0 [] sendable (omega (arith, room))
              (omega (arith, length-messages (m ∷ ms)))
          ∙ ap (λ n. finished (waiting n (calls_of settings percent_decode (m ∷ ms))))
              (omega arith))
