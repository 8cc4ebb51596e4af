-- ===== src/Multipart/Boundary.antt =====
-- The boundary that a new parser takes from the head of the request.
use anweb.Prelude.{
  ◌+◌, ◌≤◌, ◌<◌, ◌≡◌, refl, sym, ap, ◌∙◌, arith, false, none, some, [], ◌∷◌, ◌++◌, append_assoc,
  length, length-append, Bytes, codes, ltb, is_empty, drop, drop-append-length,
}
use anweb.Request.{RequestData, header_value}
use anweb.Multipart.{new, ok, find_first_boundary, position_of, content_type}
use anweb.Multipart.Windows.{position_of-append}

-- A request with a Content-Type in which "boundary=" stands, for the first time, in front of 1 to 70
-- bytes: a new parser takes these bytes for the boundary, and looks for the first one.
pub new-boundary :
    (r : RequestData) (before boundary : Bytes)
    → header_value r (codes "Content-Type") ≡ some (before ++ (codes "boundary=" ++ boundary))
    → position_of (codes "boundary=") (before ++ codes "boundary") ≡ none
    → 0 < length boundary
    → length boundary ≤ 70
    → new r ≡ ok (record { state = find_first_boundary; buf = []; boundary = boundary })
unfolding new
new-boundary r before boundary value first some_bytes few =
    let text = before ++ (codes "boundary=" ++ boundary) in
    let typed : content_type r ≡ text = rw (content_type, value) refl in
    let size = length-append before (codes "boundary=" ++ boundary) in
    let there : is_empty text ≡ false = length_some text (omega (arith, size)) in
    let found : position_of (codes "boundary=") text ≡ some (length before) =
      position_of-append (codes "boundary") b'=' before boundary first in
    let left : drop (length before + 9) text ≡ boundary =
      ap (drop (length before + 9)) (sym (append_assoc before (codes "boundary=") boundary))
      ∙ drop-append-length (before ++ codes "boundary=") boundary _
          (omega (arith, length-append before (codes "boundary="))) in
    let within : ltb 70 (length boundary) ≡ false = ground (arith, few) in
    rw (new, typed, there, found, typed, left, length_some boundary some_bytes, within) refl
  where
    length_some : (xs : Bytes) → 0 < length xs → is_empty xs ≡ false
    length_some [] h = absurd (omega (arith, h))
    length_some (x ∷ xs) h = refl
