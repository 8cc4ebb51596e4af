-- ===== src/Multipart.antt =====
-- src/multipart.rs: `MultipartParser::new`, `MultipartParser::push` and `find_boundary`. The events
-- that `push` gives to its callback are a list.
mod Windows
mod Termination
mod Rounds
mod RoundTrip
mod Boundary
mod Cuts
mod Panics
mod Tests
use anweb.Prelude.{
  ℕ, zero, suc, ◌+◌, ◌-◌, ◌*◌, Bool, true, false, ◌&&◌, Option, none, some, List, [], ◌∷◌, ◌++◌,
  ltb, leb, if◌then◌else◌, length, take, drop, slice, is_empty, Bytes, codes, bytes_eq,
}
use anweb.Request.{RequestData, header_value}

pub data ParseState : Type 0 where
  find_first_boundary disposition read_data : ParseState

pub record MultipartParser : Type 0 where
  pub state : ParseState
  pub buf : Bytes
  pub boundary : Bytes

pub data Event : Type 0 where
  new_disposition : Bytes → Event
  data_part : Bytes → Bool → Event
  all_received : Event

pub data MultipartError : Type 0 where
  no_content_type_header no_boundary_in_content_type_header empty_boundary_in_header :
      MultipartError
  boundary_len_limit : ℕ → MultipartError

pub data NewParser : Type 0 where
  ok : MultipartParser → NewParser
  err : MultipartError → NewParser

-- Whether the bytes begin with the pattern.
unfoldable pub starts_with : Bytes → Bytes → Bool
starts_with [] xs = true
starts_with (p ∷ ps) [] = false
starts_with (p ∷ ps) (x ∷ xs) = let rest = starts_with ps xs in (leb p x && leb x p) && rest

abbrev pub after_first : Option ℕ → Option ℕ
after_first none = none
after_first (some n) = some (suc n)

-- `xs.windows(pattern.len()).position(|win| win == pattern)`, and `find` of a text, for a pattern
-- that is not empty.
unfoldable pub position_of : Bytes → Bytes → Option ℕ
unfolding starts_with
position_of pattern [] = none
position_of pattern (x ∷ xs) =
    let rest = position_of pattern xs in
    if starts_with pattern (x ∷ xs) then some 0 else after_first rest

abbrev pub crlf : Bytes
crlf = codes "\r\n"

abbrev pub dashes : Bytes
dashes = codes "--"

abbrev pub empty_line : Bytes
empty_line = codes "\r\n\r\n"

abbrev pub content_type : RequestData → Bytes
content_type r = elim (header_value r (codes "Content-Type")) [ none ↦ [] | some v ↦ v ]

-- The checks of the boundary in `MultipartParser::new`.
abbrev pub with_boundary : Bytes → NewParser
with_boundary boundary =
    if is_empty boundary
    then err empty_boundary_in_header
    else if ltb 70 (length boundary)
    then err (boundary_len_limit (length boundary))
    else ok (record { state = find_first_boundary; buf = []; boundary = boundary })

-- `MultipartParser::new`
pub new : RequestData → NewParser
unfolding position_of
new r =
    if is_empty (content_type r)
    then err no_content_type_header
    else elim (position_of (codes "boundary=") (content_type r)) [
      | none ↦ err no_boundary_in_content_type_header
      | some i ↦ with_boundary (drop (i + 9) (content_type r))
    ]

-- What stands behind the boundary: a line end, or the two dashes that close the whole.
pub behind_boundary : ℕ → Bytes → Option (ℕ × Bool)
unfolding bytes_eq
behind_boundary boundary_pos two =
    if bytes_eq two crlf
    then some (boundary_pos, false)
    else if bytes_eq two dashes
    then some (boundary_pos, true)
    else none

pub at_boundary : Bytes → Bytes → ℕ → Option (ℕ × Bool)
unfolding behind_boundary bytes_eq
at_boundary buf boundary boundary_pos =
    let end = boundary_pos + length boundary in
    if leb (end + 2) (length buf) && bytes_eq (slice buf boundary_pos end) boundary
    then behind_boundary boundary_pos (slice buf end (end + 2))
    else none

pub find_boundary : Bytes → Bytes → Option (ℕ × Bool)
unfolding at_boundary position_of
find_boundary buf boundary =
    if leb (length boundary + 4) (length buf)
    then elim (position_of dashes buf) [
      | none ↦ none
      | some pos ↦ at_boundary buf boundary (pos + 2)
    ]
    else none

-- What one round of the loop in `push` leads to, with its events.
pub data Round : Type 0 where
  again done : MultipartParser → List Event → Round
  panicked : Round

-- The end of the bytes that may hold the begin of the first boundary.
abbrev pub keep_end : MultipartParser → Bytes
keep_end p =
    let n = (length p.boundary + 4) * 2 in
    if ltb n (length p.buf) then drop (length p.buf - n) p.buf else p.buf

pub first_boundary_round : MultipartParser → Round
unfolding find_boundary
first_boundary_round p = elim (find_boundary p.buf p.boundary) [
  | none ↦ done (record p { buf = keep_end p }) []
  | some (boundary_pos, true) ↦
      done (record p { state = disposition; buf = [] }) (all_received ∷ [])
  | some (boundary_pos, false) ↦
      again
        (record p { state = disposition; buf = drop (boundary_pos + length p.boundary + 2) p.buf })
        []
]

-- The empty line behind a disposition is found; a slice whose end is before its start panics.
pub disposition_found : ℕ → MultipartParser → Round
unfolding bytes_eq
disposition_found pos p =
    let left = if bytes_eq (take 2 p.buf) crlf then 2 else 0 in
    if ltb pos left
    then panicked
    else again (record p { state = read_data; buf = drop (pos + 4) p.buf })
        (new_disposition (slice p.buf left pos) ∷ [])

pub disposition_round : MultipartParser → Round
unfolding disposition_found position_of
disposition_round p =
    if ltb 4 (length p.buf)
    then elim (position_of empty_line p.buf) [
      | none ↦ done p []
      | some pos ↦ disposition_found pos p
    ]
    else done p []

abbrev pub last_part : Bytes → List Event
last_part bytes = if is_empty bytes then [] else data_part bytes true ∷ []

pub data_round : MultipartParser → Round
unfolding find_boundary
data_round p = elim (find_boundary p.buf p.boundary) [
  | none ↦ done (record p { buf = [] }) (data_part p.buf false ∷ [])
  | some (boundary_pos, true) ↦
      done (record p { state = disposition; buf = [] })
        (last_part (take (boundary_pos - 2) p.buf) ++ all_received ∷ [])
  | some (boundary_pos, false) ↦
      again (record p { state = disposition; buf = drop (boundary_pos + length p.boundary) p.buf })
        (last_part (take (boundary_pos - 2) p.buf))
]

-- One round of the loop in `push`.
pub round : ParseState → MultipartParser → Round
unfolding first_boundary_round disposition_round data_round
round find_first_boundary p = first_boundary_round p
round disposition p = disposition_round p
round read_data p = data_round p

pub data Pushed : Type 0 where
  pushed : MultipartParser → List Event → Pushed
  crashed out_of_fuel : Pushed

abbrev pub with_events : List Event → Pushed → Pushed
with_events events (pushed p more) = pushed p (events ++ more)
with_events events crashed = crashed
with_events events out_of_fuel = out_of_fuel

-- The loop of `push`.
pub run : ℕ → MultipartParser → Pushed
unfolding round
run zero p = out_of_fuel
run (suc fuel) p = elim (round p.state p) [
  | done q events ↦ pushed q events
  | again q events ↦ with_events events (run fuel q)
  | panicked ↦ crashed
]

-- `MultipartParser::push`; a round for each byte is enough.
pub push : MultipartParser → Bytes → Pushed
unfolding run
push p more = let bytes = p.buf ++ more in run (suc (length bytes)) (record p { buf = bytes })
