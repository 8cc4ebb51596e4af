-- ===== src/Multipart/Termination.antt =====
-- The loop of `push` ends: every further round has fewer bytes.
use anweb.Prelude.{
  ℕ, zero, suc, ◌+◌, ◌-◌, ◌≤◌, ◌<◌, ◌≡◌, ◌≢◌, refl, arith, Bool, true, false, Option, none, some,
  List, [], ◌∷◌, ◌++◌, if◌then◌else◌, length, length-drop, Bytes, leb, ltb, ◌&&◌, drop, take, slice,
  bytes_eq,
}
use anweb.Multipart.{
  MultipartParser, ParseState, find_first_boundary, disposition, read_data, Round, again, done,
  panicked, find_boundary, at_boundary, behind_boundary, first_boundary_round, disposition_found,
  disposition_round, data_round, round, run, push, Pushed, pushed, crashed, out_of_fuel,
  with_events, position_of, dashes, Event, empty_line, all_received, data_part, last_part, keep_end,
  crlf,
}

-- A boundary that is found stands behind two dashes, with two bytes behind it.
abbrev IsInside : Bytes → Bytes → Option (ℕ × Bool) → Type 0
IsInside buf boundary none = Unit
IsInside buf boundary (some (n, closing)) = (2 ≤ n) × (n + length boundary + 2 ≤ length buf)

behind_boundary-Inside :
    (buf boundary two : Bytes) (n : ℕ)
    → 2 ≤ n
    → n + length boundary + 2 ≤ length buf
    → IsInside buf boundary (behind_boundary n two)
unfolding behind_boundary
behind_boundary-Inside buf boundary two n h k = ground arith

IsInside-if :
    (buf boundary : Bytes) (t : Bool) (o : Option (ℕ × Bool))
    → (t ≡ true → IsInside buf boundary o)
    → IsInside buf boundary (if t then o else none)
IsInside-if buf boundary true o h = h refl
IsInside-if buf boundary false o h = tt

at_boundary-Inside :
    (buf boundary : Bytes) (n : ℕ) → 2 ≤ n → IsInside buf boundary (at_boundary buf boundary n)
unfolding at_boundary
at_boundary-Inside buf boundary n h =
    let end = n + length boundary in
    IsInside-if buf boundary (leb (end + 2) (length buf) && bytes_eq (slice buf n end) boundary) _
      (λ e. behind_boundary-Inside buf boundary (slice buf end (end + 2)) n h (ground (arith, e)))

pub find_boundary-Inside :
    (buf boundary : Bytes) → IsInside buf boundary (find_boundary buf boundary)
unfolding find_boundary
find_boundary-Inside buf boundary =
    IsInside-if buf boundary (leb (length boundary + 4) (length buf)) _
      (λ e. at_dashes (position_of dashes buf))
  where
    at_dashes :
        (o : Option ℕ)
        → IsInside buf boundary
            (elim o [ none ↦ none | some pos ↦ at_boundary buf boundary (pos + 2) ])
    at_dashes none = tt
    at_dashes (some pos) = at_boundary-Inside buf boundary (pos + 2) (omega arith)

-- A further round has fewer than n bytes.
abbrev IsShorter : ℕ → Round → Type 0
IsShorter n (again q events) = length q.buf < n
IsShorter n (done q events) = Unit
IsShorter n panicked = Unit

first_boundary_round-IsShorter :
    (p : MultipartParser) → IsShorter (length p.buf) (first_boundary_round p)
unfolding first_boundary_round
first_boundary_round-IsShorter p =
    by_boundary (find_boundary p.buf p.boundary) (find_boundary-Inside p.buf p.boundary)
  where
    by_boundary :
        (o : Option (ℕ × Bool))
        → IsInside p.buf p.boundary o
        → IsShorter (length p.buf) (elim o [
          | none ↦ done (record p { buf = keep_end p }) []
          | some (boundary_pos, true) ↦
              done (record p { state = disposition; buf = [] }) (all_received ∷ [])
          | some (boundary_pos, false) ↦
              again
                (record p {
                  state = disposition;
                  buf = drop (boundary_pos + length p.boundary + 2) p.buf;
                })
                []
        ])
    by_boundary none h = tt
    by_boundary (some (n, true)) h = tt
    by_boundary (some (n, false)) h =
        omega (arith, h, length-drop (n + length p.boundary + 2) p.buf)

data_round-IsShorter : (p : MultipartParser) → IsShorter (length p.buf) (data_round p)
unfolding data_round
data_round-IsShorter p =
    by_boundary (find_boundary p.buf p.boundary) (find_boundary-Inside p.buf p.boundary)
  where
    by_boundary :
        (o : Option (ℕ × Bool))
        → IsInside p.buf p.boundary o
        → IsShorter (length p.buf) (elim o [
          | none ↦ done (record p { buf = [] }) (data_part p.buf false ∷ [])
          | some (boundary_pos, true) ↦
              done
                (record p { state = disposition; buf = [] })
                (last_part (take (boundary_pos - 2) p.buf) ++ all_received ∷ [])
          | some (boundary_pos, false) ↦
              again
                (record p {
                  state = disposition;
                  buf = drop (boundary_pos + length p.boundary) p.buf;
                })
                (last_part (take (boundary_pos - 2) p.buf))
        ])
    by_boundary none h = tt
    by_boundary (some (n, true)) h = tt
    by_boundary (some (n, false)) h = omega (arith, h, length-drop (n + length p.boundary) p.buf)

disposition_round-IsShorter : (p : MultipartParser) → IsShorter (length p.buf) (disposition_round p)
unfolding disposition_round disposition_found
disposition_round-IsShorter p =
    if_shorter (ltb 4 (length p.buf)) _ (done p [])
      (λ e. by_position (position_of empty_line p.buf) (ground (arith, e))) tt
  where
    if_shorter :
        (t : Bool) (r1 r2 : Round)
        → (t ≡ true → IsShorter (length p.buf) r1)
        → IsShorter (length p.buf) r2
        → IsShorter (length p.buf) (if t then r1 else r2)
    if_shorter true r1 r2 h k = h refl
    if_shorter false r1 r2 h k = k

    found : (pos : ℕ) → 4 < length p.buf → IsShorter (length p.buf) (disposition_found pos p)
    found pos long =
        if_shorter (ltb pos (if bytes_eq (take 2 p.buf) crlf then 2 else 0)) panicked _ (λ e. tt)
          (omega (arith, long, length-drop (pos + 4) p.buf))

    by_position :
        (o : Option ℕ)
        → 4 < length p.buf
        → IsShorter
            (length p.buf)
            (elim o [ none ↦ done p [] | some pos ↦ disposition_found pos p ])
    by_position none long = tt
    by_position (some pos) long = found pos long

round-IsShorter : (s : ParseState) (p : MultipartParser) → IsShorter (length p.buf) (round s p)
unfolding round
round-IsShorter find_first_boundary p = first_boundary_round-IsShorter p
round-IsShorter disposition p = disposition_round-IsShorter p
round-IsShorter read_data p = data_round-IsShorter p

-- The loop has come to an end.
abbrev IsEnded : Pushed → Type 0
IsEnded (pushed q events) = Unit
IsEnded crashed = Unit
IsEnded out_of_fuel = ⊥

with_events-IsEnded :
    (events : List Event) (r : Pushed) → IsEnded r → IsEnded (with_events events r)
with_events-IsEnded events (pushed q more) h = tt
with_events-IsEnded events crashed h = tt
with_events-IsEnded events out_of_fuel h = h

run-IsEnded : (fuel : ℕ) (p : MultipartParser) → length p.buf < fuel → IsEnded (run fuel p)
unfolding run
run-IsEnded zero p h = absurd (omega (arith, h))
run-IsEnded (suc fuel) p h =
    by_round (round p.state p) (round-IsShorter p.state p) (run-IsEnded fuel)
  where
    by_round :
        (r : Round)
        → IsShorter (length p.buf) r
        → ((q : MultipartParser) → length q.buf < fuel → IsEnded (run fuel q))
        → IsEnded (elim r [
          | done q events ↦ pushed q events
          | again q events ↦ with_events events (run fuel q)
          | panicked ↦ crashed
        ])
    by_round (done q events) less rest = tt
    by_round (again q events) less rest =
        with_events-IsEnded events (run fuel q) (rest q (omega (arith, less, h)))
    by_round panicked less rest = tt

-- From any parser and on any bytes, the loop of `push` ends within one round for each byte at hand and
-- one more.
pub push-ne-out_of_fuel : (p : MultipartParser) (more : Bytes) → push p more ≢ out_of_fuel
unfolding push
push-ne-out_of_fuel p more e =
    let bytes = p.buf ++ more in
    let ended : IsEnded out_of_fuel =
      rw e at (run-IsEnded (suc (length bytes)) (record p { buf = bytes }) (omega arith)) in
    ended
