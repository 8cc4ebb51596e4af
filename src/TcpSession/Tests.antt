-- ===== src/TcpSession/Tests.antt =====
-- Runs of a session, and the theorems at a run that writes in parts.
use anweb.Prelude.{inl, ◌≡◌, refl, true, false, List, [], ◌∷◌, ◌++◌, codes}
use anweb.TcpSession.{
  Session, new_session, wrote, would_block, write_failed, Operation, send, send_arc, writable_event,
  close_after_send_asked, operate_all, send_yet,
}
use anweb.TcpSession.Order.{accepted, accepted-send_yet}
use anweb.TcpSession.Run.{sent_data, accepted-operate_all}
use anweb.TcpSession.Waiting.{IsAsking, operate_all-IsAsking}
use anweb.TcpSession.Reports.{successes, successes-send_yet}

-- Three bytes of the first data are written at once, the second waits behind the rest.
abbrev two_sends : List Operation
two_sends =
    send (codes "hello") 1 (wrote 3) true
    ∷ send_arc (codes "world") 2 would_block true
    ∷ writable_event (wrote 2 ∷ wrote 1 ∷ []) true false
    ∷ []

two_sends_written : (operate_all two_sends new_session).written ≡ codes "hellow"
unfolding operate_all
two_sends_written = refl

abbrev waiting_session : Session
waiting_session = operate_all two_sends new_session

-- The rest is written, and the session is closed as it was asked for.
closed_after_send :
    (operate_all
      (close_after_send_asked ∷ writable_event (wrote 4 ∷ []) true false ∷ [])
      waiting_session).need_close
    ≡ true
unfolding operate_all
closed_after_send = refl

-- A failed write loses what waited: the session is to be closed.
failed_write :
    (operate_all (send (codes "hello") 1 write_failed true ∷ []) new_session).need_close ≡ true
unfolding operate_all
failed_write = refl

two_sends_stay : (operate_all two_sends new_session).need_close ≡ false
unfolding operate_all
two_sends_stay = refl

accepted-operate_all_example :
    accepted (operate_all two_sends new_session) ≡ accepted new_session ++ sent_data two_sends
accepted-operate_all_example = accepted-operate_all two_sends new_session two_sends_stay

operate_all-IsAsking_example : IsAsking (operate_all two_sends new_session)
operate_all-IsAsking_example = operate_all-IsAsking two_sends new_session (inl refl)

accepted-send_yet_example :
    accepted (send_yet (wrote 4 ∷ []) true false waiting_session) ≡ accepted waiting_session
accepted-send_yet_example = accepted-send_yet (wrote 4 ∷ []) true false waiting_session

successes-send_yet_example :
    successes (send_yet (wrote 4 ∷ []) true false waiting_session).events
    ≡ successes waiting_session.events
successes-send_yet_example = successes-send_yet (wrote 4 ∷ []) true false waiting_session
