-- ===== src/TcpSession/Order.antt =====
-- What is written and what waits, and that `send_yet` keeps the two together.
use anweb.Prelude.{
  ℕ, zero, suc, ◌+◌, ◌≤◌, ◌≡◌, refl, sym, ap, ◌∙◌, arith, Bool, List, [], ◌∷◌, ◌++◌, append-nil,
  append_assoc, length, take, drop, take-append-drop, ltb, leb, is_empty, Bytes, Bool-cases, inl,
  inr,
}
use anweb.TcpSession.{
  Session, SurplusForWrite, WriteResult, wrote, would_block, write_failed, Attempt, write_one,
  write_surpluses, first_result, next_results, retain, attempted, all_sent, send_yet,
}

-- The bytes that still wait, in their order.
abbrev pub pending : List SurplusForWrite → Bytes
pending [] = []
pending (s ∷ rest) = drop s.write_yet_cnt s.data_left ++ pending rest

-- What the socket has, and what it is still to get.
abbrev pub accepted : Session → Bytes
accepted s = s.written ++ pending s.surpluses_to_write

pub drop_all : (xs : Bytes) (n : ℕ) → length xs ≤ n → drop n xs ≡ []
drop_all [] zero h = refl
drop_all [] (suc n) h = refl
drop_all (x ∷ xs) zero h = absurd (omega arith)
drop_all (x ∷ xs) (suc n) h = drop_all xs n (omega arith)

drop-nil : (n : ℕ) → drop {A = ℕ} n [] ≡ []
drop-nil zero = refl
drop-nil (suc n) = refl

pub take-nil : (n : ℕ) → take {A = ℕ} n [] ≡ []
take-nil zero = refl
take-nil (suc n) = refl

-- The part that is written, in front of what is left behind it.
take-drop : (n k m : ℕ) (xs : Bytes) → m ≡ n + k → take k (drop n xs) ++ drop m xs ≡ drop n xs
take-drop zero k m xs e =
    let same : m ≡ k = omega arith in
    ap (λ (j : ℕ). take k xs ++ drop j xs) same ∙ take-append-drop k xs
take-drop (suc n) k m [] e = rw (take-nil k, drop-nil m)
take-drop (suc n) k zero (x ∷ xs) e = absurd (omega arith)
take-drop (suc n) k (suc m) (x ∷ xs) e = take-drop n k m xs (omega arith)

pub pending-append : (xs ys : List SurplusForWrite) → pending (xs ++ ys) ≡ pending xs ++ pending ys
pending-append [] ys = refl
pending-append (s ∷ xs) ys = rw (
  pending-append xs ys,
  append_assoc (drop s.write_yet_cnt s.data_left) (pending xs) (pending ys),
)

pending-retain : (xs : List SurplusForWrite) → pending (retain xs) ≡ pending xs
unfolding retain
pending-retain [] = refl
pending-retain (s ∷ xs) = ground (arith, pending-retain xs, drop_all s.data_left s.write_yet_cnt)

pending-write_one :
    (r : WriteResult) (s : SurplusForWrite) (xs : List SurplusForWrite) (a : Attempt)
    → a.taken ++ pending a.left ≡ pending xs
    → (write_one r s xs a).taken ++ pending (write_one r s xs a).left ≡ pending (s ∷ xs)
unfolding write_one
pending-write_one (wrote cnt) s xs a h =
    let t = take cnt (drop s.write_yet_cnt s.data_left) in
    let u = drop (s.write_yet_cnt + cnt) s.data_left in
    let split = take-drop s.write_yet_cnt cnt (s.write_yet_cnt + cnt) s.data_left refl in
    elim (Bool-cases (ltb (s.write_yet_cnt + cnt) (length s.data_left))) [
      | inl more ↦
          rw more (sym (append_assoc t u (pending xs)) ∙ ap (λ (v : Bytes). v ++ pending xs) split)
      | inr done ↦
          let nothing : u ≡ [] = drop_all s.data_left (s.write_yet_cnt + cnt) (ground arith) in
          let full : t ≡ drop s.write_yet_cnt s.data_left =
            sym (append-nil t) ∙ ap (λ (v : Bytes). t ++ v) (sym nothing) ∙ split in
          rw done (
            ap (λ (v : Bytes). (t ++ a.taken) ++ (v ++ pending a.left)) nothing
            ∙ append_assoc t a.taken (pending a.left)
            ∙ ap (λ (v : Bytes). t ++ v) h
            ∙ ap (λ (v : Bytes). v ++ pending xs) full)
    ]
pending-write_one would_block s xs a h = refl
pending-write_one write_failed s xs a h = refl

pending-write_surpluses :
    (xs : List SurplusForWrite) (results : List WriteResult)
    → (write_surpluses xs results).taken ++ pending (write_surpluses xs results).left ≡ pending xs
unfolding write_surpluses
pending-write_surpluses [] results = refl
pending-write_surpluses (s ∷ xs) results =
    elim (Bool-cases (leb (length s.data_left) s.write_yet_cnt)) [
      | inl over ↦
          let nothing = drop_all s.data_left s.write_yet_cnt (ground arith) in
          rw (write_surpluses, over, nothing) (pending-write_surpluses xs results)
      | inr on ↦
          rw (write_surpluses, on)
            (pending-write_one (first_result results) s xs
              (write_surpluses xs (next_results results))
              (pending-write_surpluses xs (next_results results)))
    ]

accepted-attempted :
    (a : Attempt) (s : Session)
    → a.taken ++ pending a.left ≡ pending s.surpluses_to_write
    → accepted (attempted a s) ≡ accepted s
unfolding attempted
accepted-attempted a s h =
    let whole : (s.written ++ a.taken) ++ pending (retain a.left) ≡ accepted s =
      ap (λ (v : Bytes). (s.written ++ a.taken) ++ v) (pending-retain a.left)
      ∙ append_assoc s.written a.taken (pending a.left)
      ∙ ap (λ (v : Bytes). s.written ++ v) h in
    ground (arith, whole)

accepted-all_sent :
    (registered callback_fails : Bool) (s : Session)
    → accepted (all_sent registered callback_fails s) ≡ accepted s
unfolding all_sent
accepted-all_sent registered callback_fails s = ground arith

-- Whatever the socket takes of the surpluses, what is written and what waits stay the same bytes in
-- the same order.
pub accepted-send_yet :
    (results : List WriteResult) (registered callback_fails : Bool) (s : Session)
    → accepted (send_yet results registered callback_fails s) ≡ accepted s
unfolding send_yet
accepted-send_yet results registered callback_fails s =
    let a = write_surpluses s.surpluses_to_write results in
    let after = attempted a s in
    let kept = accepted-attempted a s (pending-write_surpluses s.surpluses_to_write results) in
    elim (Bool-cases (is_empty s.surpluses_to_write)) [
      | inl none_left ↦ rw none_left (ground arith)
      | inr some_left ↦ elim (Bool-cases (is_empty after.surpluses_to_write)) [
        | inl emptied ↦
            rw (some_left, emptied) (accepted-all_sent registered callback_fails after ∙ kept)
        | inr more ↦ rw (some_left, more) kept
      ]
    ]
