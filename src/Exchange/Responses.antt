-- ===== src/Exchange/Responses.antt =====
-- What a response leaves of a session.
use anweb.Prelude.{
  ℕ, ◌≡◌, ◌≤◌, refl, sym, ap, ◌∙◌, arith, Bool, true, false, [], ◌∷◌, ◌++◌, append-nil,
  append_assoc, if◌then◌else◌, Bytes, ltb, length, take, drop, take-append-drop, Bool-cases, inl,
  inr, is_empty, not,
}
use anweb.Response.{Response, response_data, need_close_after_response}
use anweb.TcpSession.{
  Session, wrote, operate, SurplusForWrite, sent, send, close_after_send_asked, operate_all,
  try_send, write_now, send_later,
}
use anweb.TcpSession.Order.{accepted, pending, drop_all}
use anweb.Exchange.{respond}

-- A session that is open, with nothing that waits and no closing asked for.
pub record IsIdle (s : Session) : Type 0 where
  pub nothing_waits : s.surpluses_to_write ≡ []
  pub open_still : s.need_close ≡ false
  pub not_asked : s.need_close_after_sending ≡ false

-- What is taken or waits, whether the session is to be closed, and whether once all is sent.
pub record IsSent (before after : Session) (bytes : Bytes) (all_taken asked : Bool) : Type 0 where
  pub order : accepted after ≡ accepted before ++ bytes
  pub closed : after.need_close ≡ (if all_taken then asked else false)
  pub closes_later : after.need_close_after_sending ≡ asked

parts_lem :
    (w bytes : Bytes) (n : ℕ) → (w ++ take n bytes) ++ (drop n bytes ++ []) ≡ (w ++ []) ++ bytes
parts_lem w bytes n =
    rw (append-nil (drop n bytes), append-nil w, append_assoc w (take n bytes) (drop n bytes))
      (ap (λ b. w ++ b) (take-append-drop n bytes))

all_lem :
    (w bytes : Bytes) (n : ℕ) → length bytes ≤ n → (w ++ take n bytes) ++ [] ≡ (w ++ []) ++ bytes
all_lem w bytes n h =
    rw (append-nil w, append-nil (w ++ take n bytes))
      (ap (λ b. w ++ b)
        (sym (append-nil (take n bytes))
          ∙ ap (λ b. take n bytes ++ b) (sym (drop_all bytes n h))
          ∙ take-append-drop n bytes))

write_now-IsSent :
    (bytes : Bytes) (res_callback n : ℕ) (c : Bool) (s : Session)
    → IsIdle s
    → IsSent s
        (write_now bytes res_callback (wrote n) true (record s { need_close_after_sending = c }))
        bytes
        (not (ltb n (length bytes)))
        c
unfolding write_now send_later
write_now-IsSent bytes res_callback n c s idle = elim (Bool-cases (ltb n (length bytes))) [
  | inl some_left ↦
      rw (write_now, some_left)
        (record {
          order =
              ap (λ q. (s.written ++ take n bytes) ++ pending (q ++ surplus ∷ []))
                idle.nothing_waits
              ∙ parts_lem s.written bytes n
              ∙ sym (ap (λ q. (s.written ++ pending q) ++ bytes) idle.nothing_waits);
          closed = idle.open_still;
          closes_later = refl;
        })
  | inr all_taken ↦
      rw (write_now, all_taken)
        (by_asked c (
          ap (λ q. (s.written ++ take n bytes) ++ pending q) idle.nothing_waits
          ∙ all_lem s.written bytes n (ground (arith, all_taken))
          ∙ sym (ap (λ q. (s.written ++ pending q) ++ bytes) idle.nothing_waits)))
]
  where
    surplus : SurplusForWrite
    surplus = record { data_left = drop n bytes; write_yet_cnt = 0; res_callback = res_callback }

    by_asked :
        (c : Bool)
        → accepted (record s { written = s.written ++ take n bytes }) ≡ accepted s ++ bytes
        → IsSent s
            (if c
              then record s {
                need_close_after_sending = c;
                written = s.written ++ take n bytes;
                need_close = true;
                events = s.events ++ sent res_callback ∷ [];
              }
              else record s {
                need_close_after_sending = c;
                written = s.written ++ take n bytes;
                events = s.events ++ sent res_callback ∷ [];
              })
            bytes
            true
            c
    by_asked true order = record { order = order; closed = refl; closes_later = refl }
    by_asked false order = record { order = order; closed = idle.open_still; closes_later = refl }

try_send-idle :
    (bytes : Bytes) (res_callback n : ℕ) (s : Session)
    → s.surpluses_to_write ≡ []
    → try_send bytes res_callback (wrote n) true s ≡ write_now bytes res_callback (wrote n) true s
unfolding try_send
try_send-idle bytes res_callback n s h = idle_if (is_empty s.surpluses_to_write) _ _ (ap is_empty h)
  where
    idle_if : (t : Bool) (x y : Session) → t ≡ true → (if not t then x else y) ≡ y
    idle_if true x y e = refl
    idle_if false x y e = absurd (ground (arith, e))

IsSent-at :
    (s u v : Session) (bytes : Bytes) (all_taken asked : Bool)
    → u ≡ v
    → IsSent s v bytes all_taken asked
    → IsSent s u bytes all_taken asked
IsSent-at s u v bytes all_taken asked e h = rw e h

-- A response on an idle session, of which the socket takes n bytes at once and which may be registered
-- for writing: it is taken or waits behind what was sent before, whole and in order; the session is
-- closed at once exactly where all is taken and the response does not keep the connection, and to be
-- closed once all is sent exactly where the response does not keep it.
pub respond-IsSent :
    (date : Bytes) (r : Response) (res_callback n : ℕ) (s : Session)
    → IsIdle s
    → IsSent s
        (operate_all (respond date r res_callback (wrote n) true) s)
        (response_data date r)
        (not (ltb n (length (response_data date r))))
        (need_close_after_response r)
unfolding respond operate_all operate
respond-IsSent date r res_callback n s idle = by_asked (need_close_after_response r)
  where
    bytes : Bytes
    bytes = response_data date r

    by_asked :
        (c : Bool)
        → IsSent s
            (operate_all
              ((if c then close_after_send_asked ∷ [] else [])
                ++ send (response_data date r) res_callback (wrote n) true ∷ [])
              s)
            (response_data date r)
            (not (ltb n (length (response_data date r))))
            c
    by_asked true =
        IsSent-at s _ _ bytes _ true
          (try_send-idle bytes res_callback n (record s { need_close_after_sending = true })
            idle.nothing_waits)
          (write_now-IsSent bytes res_callback n true s idle)
    by_asked false =
        IsSent-at s _ _ bytes _ false
          (try_send-idle bytes res_callback n s idle.nothing_waits
            ∙ ap
                (λ b.
                  write_now bytes res_callback (wrote n) true
                    (record s { need_close_after_sending = b }))
                idle.not_asked)
          (write_now-IsSent bytes res_callback n false s idle)
