-- ===== src/WebSession/Tests.antt =====
-- Runs of a session on small inputs.
use anweb.Prelude.{
  ◌≡◌, ◌≢◌, ◌≤◌, ◌+◌, refl, arith, Option, some, true, false, List, [], ◌∷◌, Bytes, codes, ◌⊎◌,
  bytes_eq, length,
}
use anweb.RequestParser.{header_is_content_length}
use anweb.RequestParser.Printed.{parsed}
use anweb.Text.{is_utf8, parse_usize}
use anweb.Request.{content_len_or_zero}
use anweb.RequestParser
use anweb.WebSession.{
  WebSession, default_settings, Processed, finished, crashed, out_of_fuel, read, Call, request,
  Reply, operation, act, perform_http, call_http_callback, new_web_session, read_stream,
}
use anweb.WebSession.Contents.{Stage, Told}
use anweb.WebSession.Contents.Reads.{handle_all-Told}
use anweb.RequestParser.Tests.{get_head, get_head-IsPrintable}
use anweb.WebSession.Delivery.{
  Message, print_messages, calls_of, waiting, reading, read_stream-messages,
}
use anweb.TcpSession.{
  send, would_block, wrote, operate, try_send, write_now, send_later, attempted, write_surpluses,
  write_one, retain,
}
use anweb.WebSession.Events.{Readiness, is_readable, is_writable, send_yet, handle, handle_all}
use anweb.WebSession.Callbacks.{IsClosed}
use anweb.WebSession.Pipelining.{requests, read_stream-requests}
use anweb.WebSession.Termination.{handle_all-ne-out_of_fuel}
use anweb.WebSession.Failures.{errors, AreIgnored, handle_all-errors}

abbrev plain : Bytes → Option Bytes
plain b = some b

abbrev two_requests : Bytes
two_requests = codes "POST /a HTTP/1.1\r\nContent-Length: 3\r\n\r\nabcGET /b HTTP/1.1\r\n\r\nG"

abbrev or_new : Processed → WebSession
or_new (finished w) = w
or_new crashed = new_web_session
or_new out_of_fuel = new_web_session

abbrev after_two : WebSession
after_two = or_new (read_stream reading default_settings plain (read two_requests) new_web_session)

read_two :
    read_stream reading default_settings plain (read two_requests) new_web_session
    ≡ finished after_two
unfolding read_stream RequestParser.push RequestParser.scan RequestParser.step_in is_utf8
    parse_usize bytes_eq content_len_or_zero
read_two = refl

-- The content is called with three bytes, and the one of the second request with none.
requests_two : requests after_two ≡ 2
unfolding read_stream RequestParser.push RequestParser.scan RequestParser.step_in is_utf8
    parse_usize bytes_eq content_len_or_zero
requests_two = refl

read_stream-requests_example : requests after_two ≤ requests new_web_session + 64
read_stream-requests_example =
    read_stream-requests reading default_settings plain (omega arith) two_requests new_web_session
      after_two read_two

-- Two requests, a writable event, then bytes that are no request, then more
-- bytes.
abbrev four_events : List Readiness
four_events =
    is_readable (read two_requests)
    ∷ is_writable [] true
    ∷ is_readable (read (codes "\r\nX"))
    ∷ is_readable (read two_requests)
    ∷ []

abbrev after_four : WebSession
after_four = or_new (handle_all reading default_settings plain four_events new_web_session)

handle_all-four :
    handle_all reading default_settings plain four_events new_web_session ≡ finished after_four
unfolding read_stream RequestParser.push RequestParser.scan RequestParser.step_in is_utf8
    parse_usize bytes_eq content_len_or_zero handle send_yet
handle_all-four = refl

errors-four : errors after_four ≡ 1
unfolding read_stream RequestParser.push RequestParser.scan RequestParser.step_in is_utf8
    parse_usize bytes_eq content_len_or_zero handle send_yet
errors-four = refl

handle_all-ne-out_of_fuel_example :
    handle_all reading default_settings plain four_events new_web_session ≢ out_of_fuel
handle_all-ne-out_of_fuel_example =
    handle_all-ne-out_of_fuel reading default_settings plain (omega arith) four_events

handle_all-errors_example :
    (errors after_four ≡ 0)
    ⊎ (IsClosed after_four
        × AreIgnored reading default_settings plain after_four
            (read_stream reading default_settings plain (read (codes "GET")) after_four))
handle_all-errors_example =
    handle_all-errors reading default_settings plain four_events (codes "GET") after_four
      handle_all-four

handle_all-Told_example : (s : Stage) × Told after_four.calls s
handle_all-Told_example =
    handle_all-Told reading default_settings plain four_events after_four handle_all-four

abbrev message : Message
message = record { head = get_head; body = codes "hello, world" }

announced : length (codes "hello, world") ≡ content_len_or_zero (parsed plain get_head)
unfolding header_is_content_length content_len_or_zero bytes_eq parse_usize is_utf8
announced = refl

read_stream-messages_example :
    read_stream reading default_settings plain
      (read (print_messages (message ∷ message ∷ [])))
      new_web_session
    ≡ finished (waiting 2 (calls_of default_settings plain (message ∷ message ∷ [])))
read_stream-messages_example =
    read_stream-messages default_settings plain (omega arith) (omega arith) (omega arith) message
      (message ∷ []) ((get_head-IsPrintable, announced), ((get_head-IsPrintable, announced), tt))
      (omega arith)

-- A callback that sends to a socket that takes nothing yet.
abbrev queueing : List Call → Reply
queueing (request r ∷ []) = record {
  actions = operation (send (codes "ok") 0 would_block true) ∷ [];
  fails = false;
}
queueing _ = record { actions = []; fails = false }

abbrev unregistered : WebSession
unregistered = or_new (
    handle_all queueing default_settings plain
      (is_readable (read (codes "GET / HTTP/1.1\r\n\r\n")) ∷ is_writable (wrote 2 ∷ []) false ∷ [])
      new_web_session)

-- The callback is told of the failed registration, and the session stays open.
told_unregistered :
    (length unregistered.calls ≡ 2)
    × ((unregistered.tcp_session.need_close ≡ false)
        × (unregistered.tcp_session.written ≡ codes "ok"))
unfolding read_stream RequestParser.push RequestParser.scan RequestParser.step_in is_utf8
    parse_usize bytes_eq content_len_or_zero handle send_yet act operate try_send write_now
    send_later call_http_callback perform_http attempted write_surpluses write_one retain
told_unregistered = (refl, (refl, refl))
