-- ===== src/TcpSession/Waiting.antt =====
-- A session with data that waits is registered for writing.
use anweb.Prelude.{◌⊎◌, ◌≡◌, arith, Bool, true, List, [], ◌∷◌, is_empty, Bytes, ℕ}
use anweb.TcpSession.{
  Session, writable, Operation, send, send_arc, writable_event, close_asked, close_after_send_asked,
  WriteResult, wrote, would_block, write_failed, operate, operate_all, try_send, try_send_arc,
  send_yet, write_now, write_arc_now, send_later, attempted, all_sent, Attempt, write_surpluses,
}

-- No data waits, or the poll is asked for the socket's readiness to write.
abbrev pub IsAsking : Session → Type 0
IsAsking s = (is_empty s.surpluses_to_write ≡ true) ⊎ (s.interest ≡ writable)

write_now-IsAsking :
    (bytes : Bytes) (res_callback : ℕ) (result : WriteResult) (registered : Bool) (s : Session)
    → is_empty s.surpluses_to_write ≡ true
    → IsAsking (write_now bytes res_callback result registered s)
unfolding write_now send_later
write_now-IsAsking bytes res_callback (wrote cnt) registered s idle = ground arith
write_now-IsAsking bytes res_callback would_block registered s idle = ground arith
write_now-IsAsking bytes res_callback write_failed registered s idle = ground arith

write_arc_now-IsAsking :
    (bytes : Bytes) (res_callback : ℕ) (result : WriteResult) (registered : Bool) (s : Session)
    → is_empty s.surpluses_to_write ≡ true
    → IsAsking (write_arc_now bytes res_callback result registered s)
unfolding write_arc_now send_later
write_arc_now-IsAsking bytes res_callback (wrote cnt) registered s idle = ground arith
write_arc_now-IsAsking bytes res_callback would_block registered s idle = ground arith
write_arc_now-IsAsking bytes res_callback write_failed registered s idle = ground arith

interest-attempted : (a : Attempt) (s : Session) → (attempted a s).interest ≡ s.interest
unfolding attempted
interest-attempted a s = ground arith

all_sent_empty :
    (registered callback_fails : Bool) (s : Session)
    → is_empty s.surpluses_to_write ≡ true
    → IsAsking (all_sent registered callback_fails s)
unfolding all_sent
all_sent_empty registered callback_fails s h = ground arith

send_yet-IsAsking :
    (results : List WriteResult) (registered callback_fails : Bool) (s : Session)
    → IsAsking s
    → IsAsking (send_yet results registered callback_fails s)
unfolding send_yet
send_yet-IsAsking results registered callback_fails s asks =
    let a = write_surpluses s.surpluses_to_write results in
    ground (arith, interest-attempted a s, all_sent_empty registered callback_fails (attempted a s))

-- Each operation of a session leaves it registered for writing where data waits.
pub operate-IsAsking : (op : Operation) (s : Session) → IsAsking s → IsAsking (operate op s)
unfolding operate try_send try_send_arc
operate-IsAsking (send bytes res_callback result registered) s asks =
    ground (arith, write_now-IsAsking bytes res_callback result registered s)
operate-IsAsking (send_arc bytes res_callback result registered) s asks =
    ground (arith, write_arc_now-IsAsking bytes res_callback result registered s)
operate-IsAsking (writable_event results registered callback_fails) s asks =
    send_yet-IsAsking results registered callback_fails s asks
operate-IsAsking close_asked s asks = asks
operate-IsAsking close_after_send_asked s asks = asks

-- A run keeps that: from a session that is registered for writing where data waits, every
-- sequence of operations leads to such a session, so no data waits without the poll being asked.
pub operate_all-IsAsking :
    (ops : List Operation) (s : Session) → IsAsking s → IsAsking (operate_all ops s)
unfolding operate_all
operate_all-IsAsking [] s asks = asks
operate_all-IsAsking (op ∷ ops) s asks =
    operate_all-IsAsking ops (operate op s) (operate-IsAsking op s asks)
