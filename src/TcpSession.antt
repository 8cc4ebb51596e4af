-- ===== src/TcpSession.antt =====
-- src/tcp_session.rs: what a session sends. What the socket takes of each write, and whether the
-- poll accepts a new registration, are given; a callback is known by a number, and its calls are
-- kept in `events`. What the session's callbacks do that `send_yet` tells of a failed registration is
-- in WebSession/Events.antt. That a mutex is poisoned is left out.
pub mod Order
mod Sends
mod Waiting
pub mod Run
mod Reports
mod Tests
use anweb.Prelude.{
  ℕ, ◌+◌, Bool, true, false, ◌&&◌, Option, none, some, List, [], ◌∷◌, ◌++◌, leb, ltb, not,
  if◌then◌else◌, length, take, drop, is_empty, Bytes,
}

-- What `InnerTcpSession::write` returns; of `wrote n` the socket has the first n bytes.
pub data WriteResult : Type 0 where
  wrote : ℕ → WriteResult
  would_block : WriteResult
  write_failed : WriteResult

-- The readiness that the stream is registered for.
pub data Interest : Type 0 where
  readable writable : Interest

-- A call of a callback: of the one given to a send, or of the session's with a failed registration.
pub data Event : Type 0 where
  sent : ℕ → Event
  not_sent : ℕ → Event
  poll_register_error : Event

pub record SurplusForWrite : Type 0 where
  pub data_left : Bytes
  pub write_yet_cnt : ℕ
  pub res_callback : ℕ

-- `written` is what the socket has taken so far.
pub record Session : Type 0 where
  pub is_http_mode : Bool
  pub surpluses_to_write : List SurplusForWrite
  pub need_close : Bool
  pub need_close_after_sending : Bool
  pub interest : Interest
  pub written : Bytes
  pub events : List Event

-- `TcpSession::new`, registered for reading by the worker.
abbrev pub new_session : Session
new_session = record {
  is_http_mode = false;
  surpluses_to_write = [];
  need_close = false;
  need_close_after_sending = false;
  interest = readable;
  written = [];
  events = [];
}

abbrev pub close : Session → Session
close s = record s { need_close = true }

abbrev pub close_after_send : Session → Session
close_after_send s = record s { need_close_after_sending = true }

abbrev report : Event → Session → Session
report e s = record s { events = s.events ++ e ∷ [] }

abbrev pub with_interest : Interest → Session → Session
with_interest i s = record s { interest = i }

abbrev enqueue : SurplusForWrite → Session → Session
enqueue surplus s = record s { surpluses_to_write = s.surpluses_to_write ++ surplus ∷ [] }

abbrev took : Bytes → Session → Session
took bytes s = record s { written = s.written ++ bytes }

unfoldable pub send_later : SurplusForWrite → Bool → Session → Session
send_later surplus registered s =
    if registered
    then enqueue surplus (record s { interest = writable })
    else close (report (not_sent surplus.res_callback) s)

abbrev surplus_of : Bytes → ℕ → ℕ → SurplusForWrite
surplus_of bytes cnt res_callback = record {
  data_left = bytes;
  write_yet_cnt = cnt;
  res_callback = res_callback;
}

-- `match self.inner.write(data)` in `try_send`
unfoldable pub write_now : Bytes → ℕ → WriteResult → Bool → Session → Session
unfolding send_later
write_now bytes res_callback (wrote cnt) registered s =
    let after = took (take cnt bytes) s in
    if ltb cnt (length bytes)
    then send_later (surplus_of (drop cnt bytes) 0 res_callback) registered after
    else if s.need_close_after_sending
    then close (report (sent res_callback) after)
    else report (sent res_callback) after
write_now bytes res_callback would_block registered s =
    send_later (surplus_of bytes 0 res_callback) registered s
write_now bytes res_callback write_failed registered s = close (report (not_sent res_callback) s)

-- `TcpSession::try_send`
unfoldable pub try_send : Bytes → ℕ → WriteResult → Bool → Session → Session
unfolding write_now
try_send bytes res_callback result registered s =
    if not (is_empty s.surpluses_to_write)
    then enqueue (surplus_of bytes 0 res_callback) s
    else write_now bytes res_callback result registered s

-- `match self.inner.write(&data)` in `try_send_arc`
pub write_arc_now : Bytes → ℕ → WriteResult → Bool → Session → Session
unfolding send_later
write_arc_now bytes res_callback (wrote cnt) registered s =
    let after = took (take cnt bytes) s in
    if ltb cnt (length bytes)
    then send_later (surplus_of bytes cnt res_callback) registered after
    else if s.is_http_mode && s.need_close_after_sending
    then close after
    else after
write_arc_now bytes res_callback would_block registered s =
    send_later (surplus_of bytes 0 res_callback) registered s
write_arc_now bytes res_callback write_failed registered s =
    close (report (not_sent res_callback) s)

-- `TcpSession::try_send_arc`
pub try_send_arc : Bytes → ℕ → WriteResult → Bool → Session → Session
unfolding write_arc_now
try_send_arc bytes res_callback result registered s =
    if not (is_empty s.surpluses_to_write)
    then enqueue (surplus_of bytes 0 res_callback) s
    else write_arc_now bytes res_callback result registered s

-- What the loop of `send_yet` leaves: the surpluses, what the socket took, the callback that was
-- called with an error.
pub record Attempt : Type 0 where
  pub left : List SurplusForWrite
  pub taken : Bytes
  pub failed : Option ℕ

abbrev stopped : List SurplusForWrite → Bytes → Option ℕ → Attempt
stopped left taken failed = record { left = left; taken = taken; failed = failed }

abbrev and_then : SurplusForWrite → Bytes → Attempt → Attempt
and_then surplus taken rest = record {
  left = surplus ∷ rest.left;
  taken = taken ++ rest.taken;
  failed = rest.failed;
}

abbrev first_result : List WriteResult → WriteResult
first_result [] = would_block
first_result (r ∷ rs) = r

abbrev next_results : List WriteResult → List WriteResult
next_results [] = []
next_results (r ∷ rs) = rs

-- One round of the loop of `send_yet` on a surplus that is not done, in front of what the next
-- rounds come to if the loop goes on.
unfoldable pub write_one : WriteResult → SurplusForWrite → List SurplusForWrite → Attempt → Attempt
write_one (wrote cnt) s rest others =
    let done = record s { write_yet_cnt = s.write_yet_cnt + cnt } in
    let taken = take cnt (drop s.write_yet_cnt s.data_left) in
    if ltb (s.write_yet_cnt + cnt) (length s.data_left)
    then stopped (done ∷ rest) taken none
    else and_then done taken others
write_one would_block s rest others = stopped (s ∷ rest) [] none
write_one write_failed s rest others = stopped (s ∷ rest) [] (some s.res_callback)

-- `for surplus in surpluses_for_write.iter_mut()`, with the results of the writes in their order;
-- behind the last one the socket would block.
unfoldable pub write_surpluses : List SurplusForWrite → List WriteResult → Attempt
unfolding write_one
write_surpluses [] results = stopped [] [] none
write_surpluses (s ∷ rest) results = elim (leb (length s.data_left) s.write_yet_cnt) [
  | true ↦ and_then s [] (write_surpluses rest results)
  | false ↦ write_one (first_result results) s rest (write_surpluses rest (next_results results))
]

-- `surpluses_for_write.retain(..)`
unfoldable pub retain : List SurplusForWrite → List SurplusForWrite
retain [] = []
retain (s ∷ rest) =
    if ltb s.write_yet_cnt (length s.data_left) then s ∷ retain rest else retain rest

-- The session's callback with the error; the session is closed where the callback fails.
abbrev call_with_poll_error : Bool → Session → Session
call_with_poll_error callback_fails s =
    let told = report poll_register_error s in if callback_fails then close told else told

abbrev to_reading : Bool → Bool → Session → Session
to_reading registered callback_fails s =
    if registered then record s { interest = readable } else call_with_poll_error callback_fails s

abbrev pub note_failure : Option ℕ → Session → Session
note_failure none s = s
note_failure (some res_callback) s = close (report (not_sent res_callback) s)

unfoldable pub attempted : Attempt → Session → Session
unfolding retain
attempted a s =
    note_failure a.failed (took a.taken (record s { surpluses_to_write = retain a.left }))

-- All data is sent: back to reading, and the session is closed if that was asked for.
unfoldable pub all_sent : Bool → Bool → Session → Session
all_sent registered callback_fails s =
    let reading = to_reading registered callback_fails s in
    if s.need_close_after_sending then close reading else reading

-- `TcpSession::send_yet`
unfoldable pub send_yet : List WriteResult → Bool → Bool → Session → Session
unfolding write_surpluses attempted all_sent
send_yet results registered callback_fails s =
    let after = attempted (write_surpluses s.surpluses_to_write results) s in
    if is_empty s.surpluses_to_write
    then (if registered
        then record s { interest = readable }
        else close (call_with_poll_error callback_fails s))
    else if is_empty after.surpluses_to_write
    then all_sent registered callback_fails after
    else after

-- What happens to a session, with the results of its writes.
pub data Operation : Type 0 where
  send : Bytes → ℕ → WriteResult → Bool → Operation
  send_arc : Bytes → ℕ → WriteResult → Bool → Operation
  writable_event : List WriteResult → Bool → Bool → Operation
  close_asked close_after_send_asked : Operation

unfoldable pub operate : Operation → Session → Session
unfolding try_send try_send_arc send_yet
operate (send bytes res_callback result registered) s =
    try_send bytes res_callback result registered s
operate (send_arc bytes res_callback result registered) s =
    try_send_arc bytes res_callback result registered s
operate (writable_event results registered callback_fails) s =
    send_yet results registered callback_fails s
operate close_asked s = close s
operate close_after_send_asked s = close_after_send s

unfoldable pub operate_all : List Operation → Session → Session
unfolding operate
operate_all [] s = s
operate_all (op ∷ ops) s = operate_all ops (operate op s)
