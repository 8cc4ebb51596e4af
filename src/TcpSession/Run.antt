-- ===== src/TcpSession/Run.antt =====
-- Runs of a session, as sequences of operations.
use anweb.Prelude.{
  ℕ, ◌≡◌, refl, sym, ap, ◌∙◌, arith, Option, none, some, true, false, List, [], ◌∷◌, ◌++◌,
  append-nil, append_assoc, Bytes,
}
use anweb.TcpSession.{
  Attempt, note_failure, wrote, would_block, write_failed, Session, Operation, send, send_arc,
  writable_event, close_asked, close_after_send_asked, operate, operate_all, try_send, try_send_arc,
  send_yet, write_now, write_arc_now, send_later, attempted, all_sent,
}
use anweb.TcpSession.Order.{accepted, accepted-send_yet}
use anweb.TcpSession.Sends.{accepted-try_send, accepted-try_send_arc}

-- The data that one operation gives to send.
abbrev pub data_of : Operation → Bytes
data_of (send bytes res_callback result registered) = bytes
data_of (send_arc bytes res_callback result registered) = bytes
data_of _ = []

-- All that a run is given to send, in the order of the calls.
abbrev pub sent_data : List Operation → Bytes
sent_data [] = []
sent_data (op ∷ ops) = data_of op ++ sent_data ops

pub attempted_closed :
    (a : Attempt) (s : Session) → s.need_close ≡ true → (attempted a s).need_close ≡ true
unfolding attempted
attempted_closed a s h = by_failure a.failed _ h
  where
    by_failure :
        (failure : Option ℕ) (t : Session)
        → t.need_close ≡ true
        → (note_failure failure t).need_close ≡ true
    by_failure none t h = h
    by_failure (some res_callback) t h = refl

pub operate_closed :
    (op : Operation) (s : Session) → s.need_close ≡ true → (operate op s).need_close ≡ true
unfolding operate try_send try_send_arc write_now write_arc_now send_later send_yet attempted
    all_sent
operate_closed (send bytes res_callback (wrote cnt) registered) s h = ground arith
operate_closed (send bytes res_callback would_block registered) s h = ground arith
operate_closed (send bytes res_callback write_failed registered) s h = ground arith
operate_closed (send_arc bytes res_callback (wrote cnt) registered) s h = ground arith
operate_closed (send_arc bytes res_callback would_block registered) s h = ground arith
operate_closed (send_arc bytes res_callback write_failed registered) s h = ground arith
operate_closed (writable_event results registered callback_fails) s h = ground arith
operate_closed close_asked s h = refl
operate_closed close_after_send_asked s h = h

accepted-operate :
    (op : Operation) (s : Session)
    → (operate op s).need_close ≡ false
    → accepted (operate op s) ≡ accepted s ++ data_of op
unfolding operate
accepted-operate (send bytes res_callback result registered) s h =
    accepted-try_send bytes res_callback result registered s h
accepted-operate (send_arc bytes res_callback result registered) s h =
    accepted-try_send_arc bytes res_callback result registered s h
accepted-operate (writable_event results registered callback_fails) s h =
    accepted-send_yet results registered callback_fails s ∙ sym (append-nil (accepted s))
accepted-operate close_asked s h = sym (append-nil (accepted s))
accepted-operate close_after_send_asked s h = sym (append-nil (accepted s))

stays_open :
    (ops : List Operation) (s : Session)
    → (operate_all ops s).need_close ≡ false
    → s.need_close ≡ false
unfolding operate_all
stays_open [] s h = h
stays_open (op ∷ ops) s h =
    let next = stays_open ops (operate op s) h in ground (arith, operate_closed op s)

-- A session that is not to be closed after a run of sends, shared sends, writable events and
-- requests to close, whatever the socket took of each write, has written or still holds what it
-- had before and then all data given to send: the same bytes in the order of the calls.
pub accepted-operate_all :
    (ops : List Operation) (s : Session)
    → (operate_all ops s).need_close ≡ false
    → accepted (operate_all ops s) ≡ accepted s ++ sent_data ops
unfolding operate_all
accepted-operate_all [] s h = sym (append-nil (accepted s))
accepted-operate_all (op ∷ ops) s h =
    accepted-operate_all ops (operate op s) h
    ∙ ap (λ (v : Bytes). v ++ sent_data ops)
        (accepted-operate op s (stays_open ops (operate op s) h))
    ∙ append_assoc (accepted s) (data_of op) (sent_data ops)
