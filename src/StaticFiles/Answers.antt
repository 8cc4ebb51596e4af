-- ===== src/StaticFiles/Answers.antt =====
-- What is sent for a file that is found.
use anweb.Prelude.{
  ℕ, ◌≡◌, refl, ap, Bool, true, false, some, List, [], ◌∷◌, ◌++◌, append-nil, ltb, if◌then◌else◌,
  length, Bytes, codes,
}
use anweb.Request.{RequestData, header_value}
use anweb.Response.{need_close_by_request}
use anweb.StaticFiles.{
  StaticFile, Files, get, Sending, close_after_send, send, send_arc, Sent, sent, not_found,
  send_response, answer, united, closing, chosen, found_head, not_modified, apply_browser_cache,
}

-- The bytes that are sent, in their order.
abbrev pub bytes_of : List Sending → Bytes
bytes_of [] = []
bytes_of (close_after_send ∷ rest) = bytes_of rest
bytes_of (send bytes ∷ rest) = bytes ++ bytes_of rest
bytes_of (send_arc bytes ∷ rest) = bytes ++ bytes_of rest

-- Whether the session is asked to close.
abbrev pub closes : List Sending → Bool
closes [] = false
closes (close_after_send ∷ rest) = true
closes (send bytes ∷ rest) = closes rest
closes (send_arc bytes ∷ rest) = closes rest

-- What is sent has these bytes, and asks to close exactly where close is to be.
abbrev pub IsAnswer : Bool → Bytes → Sent → Type 0
IsAnswer close bytes (sent xs) = (bytes_of xs ≡ bytes) × (closes xs ≡ close)
IsAnswer close bytes not_found = ⊥

united-IsAnswer :
    (limit : ℕ) (close : Bool) (head bytes : Bytes)
    → IsAnswer close (head ++ bytes) (sent (united limit close head bytes))
unfolding united
united-IsAnswer limit close head bytes = by_tests (ltb (length bytes) limit) close
  where
    by_tests :
        (t c : Bool)
        → IsAnswer c (head ++ bytes) (
            sent (
              if t
              then closing c ++ send (head ++ bytes) ∷ []
              else send head ∷ (closing c ++ send_arc bytes ∷ [])))
    by_tests true true = (append-nil (head ++ bytes), refl)
    by_tests true false = (append-nil (head ++ bytes), refl)
    by_tests false true = (ap (λ b. head ++ b) (append-nil bytes), refl)
    by_tests false false = (ap (λ b. head ++ b) (append-nil bytes), refl)

-- The bytes of the answer for a file.
abbrev pub answer_bytes : Bytes → RequestData → StaticFile → Bytes
answer_bytes date request f =
    let content = chosen (header_value request (codes "Accept-Encoding")) f in
    if apply_browser_cache request f
    then not_modified date request f
    else found_head date request f content ++ content.0

answer-IsAnswer :
    (limit : ℕ) (date : Bytes) (request : RequestData) (f : StaticFile)
    → IsAnswer
        (need_close_by_request request)
        (answer_bytes date request f)
        (sent (answer limit date request f))
answer-IsAnswer limit date request f =
    let content = chosen (header_value request (codes "Accept-Encoding")) f in
    let head = found_head date request f content in
    by_copy (apply_browser_cache request f) (need_close_by_request request)
      (not_modified date request f) head content.0
  where
    closed_send : (c : Bool) (xs : Bytes) → IsAnswer c xs (sent (closing c ++ send xs ∷ []))
    closed_send true xs = (append-nil xs, refl)
    closed_send false xs = (append-nil xs, refl)

    by_copy :
        (t c : Bool) (short head bytes : Bytes)
        → IsAnswer c
            (if t then short else head ++ bytes)
            (sent (if t then closing c ++ send short ∷ [] else united limit c head bytes))
    by_copy true c short head bytes = closed_send c short
    by_copy false c short head bytes = united-IsAnswer limit c head bytes

-- For a file that is found, the bytes sent do not depend on the limit for a single write: they are the
-- response 304 where the browser's copy is used, and else the head and the content behind it; the
-- session is asked to close exactly where the request does not keep the connection.
pub send_response-IsAnswer :
    (limit : ℕ) (date path : Bytes) (request : RequestData) (files : Files) (f : StaticFile)
    → get path files ≡ some f
    → IsAnswer
        (need_close_by_request request)
        (answer_bytes date request f)
        (send_response limit date path request files)
unfolding send_response
send_response-IsAnswer limit date path request files f found =
    rw (send_response, found) (answer-IsAnswer limit date request f)
