-- ===== src/TcpSession/Reports.antt =====
-- The callbacks of data that is sent in parts.
use anweb.Prelude.{◌≡◌, refl, arith, ℕ, suc, Bool, List, [], ◌∷◌, ◌++◌, Option, none, some}
use anweb.TcpSession.{
  Session, Event, sent, not_sent, poll_register_error, WriteResult, send_yet, note_failure,
  attempted, all_sent, write_surpluses, Attempt,
}

-- How often a callback was told that its data is sent.
abbrev pub successes : List Event → ℕ
successes [] = 0
successes (sent _ ∷ rest) = suc (successes rest)
successes (_ ∷ rest) = successes rest

successes_told :
    (events : List Event) (res_callback : ℕ)
    → successes (events ++ not_sent res_callback ∷ []) ≡ successes events
successes_told [] res_callback = refl
successes_told (sent _ ∷ rest) res_callback = omega (arith, successes_told rest res_callback)
successes_told (not_sent _ ∷ rest) res_callback = successes_told rest res_callback
successes_told (poll_register_error ∷ rest) res_callback = successes_told rest res_callback

successes_error :
    (events : List Event) → successes (events ++ poll_register_error ∷ []) ≡ successes events
successes_error [] = refl
successes_error (sent _ ∷ rest) = omega (arith, successes_error rest)
successes_error (not_sent _ ∷ rest) = successes_error rest
successes_error (poll_register_error ∷ rest) = successes_error rest

successes-note_failure :
    (failed : Option ℕ) (s : Session)
    → successes (note_failure failed s).events ≡ successes s.events
successes-note_failure none s = refl
successes-note_failure (some res_callback) s = successes_told s.events res_callback

successes-attempted :
    (a : Attempt) (s : Session) → successes (attempted a s).events ≡ successes s.events
unfolding attempted
successes-attempted a s = successes-note_failure a.failed _

successes-all_sent :
    (registered callback_fails : Bool) (s : Session)
    → successes (all_sent registered callback_fails s).events ≡ successes s.events
unfolding all_sent
successes-all_sent registered callback_fails s = ground (arith, successes_error s.events)

-- `send_yet` tells no callback that its data is sent, whatever the socket takes.
pub successes-send_yet :
    (results : List WriteResult) (registered callback_fails : Bool) (s : Session)
    → successes (send_yet results registered callback_fails s).events ≡ successes s.events
unfolding send_yet
successes-send_yet results registered callback_fails s =
    let a = write_surpluses s.surpluses_to_write results in
    ground (
      arith,
      successes-attempted a s,
      successes-all_sent registered callback_fails (attempted a s),
      successes_error s.events,
    )
