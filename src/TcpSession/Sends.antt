-- ===== src/TcpSession/Sends.antt =====
-- What `try_send` and `try_send_arc` accept, behind what was accepted before.
use anweb.Prelude.{
  ℕ, zero, suc, ◌≤◌, ◌≡◌, refl, sym, ap, ◌∙◌, arith, Bool, true, false, List, [], ◌∷◌, ◌++◌,
  append-nil, append_assoc, length, take, drop, take-append-drop, ltb, is_empty, Bytes, Bool-cases,
  inl, inr,
}
use anweb.TcpSession.Order.{pending, accepted, pending-append, take-nil}
use anweb.TcpSession.{
  Session, SurplusForWrite, WriteResult, wrote, would_block, write_failed, send_later, try_send,
  try_send_arc, write_now, write_arc_now,
}

accepted_queued :
    (surplus : SurplusForWrite) (s : Session)
    → accepted (record s { surpluses_to_write = s.surpluses_to_write ++ surplus ∷ [] })
      ≡ accepted s ++ drop surplus.write_yet_cnt surplus.data_left
accepted_queued surplus s =
    let d = drop surplus.write_yet_cnt surplus.data_left in
    ap (λ (v : Bytes). s.written ++ v)
      (pending-append s.surpluses_to_write (surplus ∷ [])
        ∙ ap (λ (v : Bytes). pending s.surpluses_to_write ++ v) (append-nil d))
    ∙ sym (append_assoc s.written (pending s.surpluses_to_write) d)

accepted-send_later :
    (surplus : SurplusForWrite) (registered : Bool) (s : Session)
    → (send_later surplus registered s).need_close ≡ false
    → accepted (send_later surplus registered s)
      ≡ accepted s ++ drop surplus.write_yet_cnt surplus.data_left
unfolding send_later
accepted-send_later surplus true s stays = accepted_queued surplus s
accepted-send_later surplus false s stays = ground arith

nothing_pending : (xs : List SurplusForWrite) → is_empty xs ≡ true → pending xs ≡ []
nothing_pending [] h = refl
nothing_pending (s ∷ xs) h = ground arith

-- A first part right behind what is written, with nothing between.
first_part : (w t p d b : Bytes) → p ≡ [] → t ++ d ≡ b → ((w ++ t) ++ p) ++ d ≡ (w ++ p) ++ b
first_part w t p d b empty whole =
    rw (empty, append-nil (w ++ t), append-nil w, sym whole) (append_assoc w t d)

take_all : (xs : Bytes) (n : ℕ) → length xs ≤ n → take n xs ≡ xs
take_all [] n h = take-nil n
take_all (x ∷ xs) zero h = absurd (omega arith)
take_all (x ∷ xs) (suc n) h = ap (◌∷◌ x) (take_all xs n (omega arith))

all_at_once : (w t p b : Bytes) → p ≡ [] → t ≡ b → (w ++ t) ++ p ≡ (w ++ p) ++ b
all_at_once w t p b empty whole = rw (empty, append-nil (w ++ t), append-nil w, whole)

accepted-write_now :
    (bytes : Bytes) (res_callback : ℕ) (result : WriteResult) (registered : Bool) (s : Session)
    → pending s.surpluses_to_write ≡ []
    → (write_now bytes res_callback result registered s).need_close ≡ false
    → accepted (write_now bytes res_callback result registered s) ≡ accepted s ++ bytes
unfolding write_now
accepted-write_now bytes res_callback (wrote cnt) registered s idle stays =
    elim (Bool-cases (ltb cnt (length bytes))) [
      | inl more ↦ rw more (
          accepted-send_later _ registered _ (rw more at stays)
          ∙ first_part s.written (take cnt bytes) (pending s.surpluses_to_write) (drop cnt bytes)
              bytes idle (take-append-drop cnt bytes))
      | inr done ↦
          let whole =
            all_at_once s.written (take cnt bytes) (pending s.surpluses_to_write) bytes idle
              (take_all bytes cnt (ground arith)) in
          rw done (ground (arith, whole))
    ]
accepted-write_now bytes res_callback would_block registered s idle stays =
    accepted-send_later _ registered s stays
accepted-write_now bytes res_callback write_failed registered s idle stays = ground arith

-- Data that is sent stands behind all that was accepted before, unless the session is closed.
pub accepted-try_send :
    (bytes : Bytes) (res_callback : ℕ) (result : WriteResult) (registered : Bool) (s : Session)
    → (try_send bytes res_callback result registered s).need_close ≡ false
    → accepted (try_send bytes res_callback result registered s) ≡ accepted s ++ bytes
unfolding try_send
accepted-try_send bytes res_callback result registered s stays =
    elim (Bool-cases (is_empty s.surpluses_to_write)) [
      | inr waits ↦ rw waits (accepted_queued _ s)
      | inl idle ↦ rw idle (
          accepted-write_now bytes res_callback result registered s
            (nothing_pending s.surpluses_to_write idle) (ground arith))
    ]

accepted-write_arc_now :
    (bytes : Bytes) (res_callback : ℕ) (result : WriteResult) (registered : Bool) (s : Session)
    → pending s.surpluses_to_write ≡ []
    → (write_arc_now bytes res_callback result registered s).need_close ≡ false
    → accepted (write_arc_now bytes res_callback result registered s) ≡ accepted s ++ bytes
unfolding write_arc_now
accepted-write_arc_now bytes res_callback (wrote cnt) registered s idle stays =
    elim (Bool-cases (ltb cnt (length bytes))) [
      | inl more ↦ rw more (
          accepted-send_later _ registered _ (rw more at stays)
          ∙ first_part s.written (take cnt bytes) (pending s.surpluses_to_write) (drop cnt bytes)
              bytes idle (take-append-drop cnt bytes))
      | inr done ↦
          let whole =
            all_at_once s.written (take cnt bytes) (pending s.surpluses_to_write) bytes idle
              (take_all bytes cnt (ground arith)) in
          rw done (ground (arith, whole))
    ]
accepted-write_arc_now bytes res_callback would_block registered s idle stays =
    accepted-send_later _ registered s stays
accepted-write_arc_now bytes res_callback write_failed registered s idle stays = ground arith

pub accepted-try_send_arc :
    (bytes : Bytes) (res_callback : ℕ) (result : WriteResult) (registered : Bool) (s : Session)
    → (try_send_arc bytes res_callback result registered s).need_close ≡ false
    → accepted (try_send_arc bytes res_callback result registered s) ≡ accepted s ++ bytes
unfolding try_send_arc
accepted-try_send_arc bytes res_callback result registered s stays =
    elim (Bool-cases (is_empty s.surpluses_to_write)) [
      | inr waits ↦ rw waits (accepted_queued _ s)
      | inl idle ↦ rw idle (
          accepted-write_arc_now bytes res_callback result registered s
            (nothing_pending s.surpluses_to_write idle) (ground arith))
    ]
