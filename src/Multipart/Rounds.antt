-- ===== src/Multipart/Rounds.antt =====
-- A multipart content as it is printed, and what each round of `push` does with it.
use anweb.Prelude.{
  ◌+◌, ◌-◌, ◌<◌, ◌≡◌, refl, sym, ap, ◌∙◌, arith, true, false, none, some, List, [], ◌∷◌, ◌++◌,
  append_assoc, length, length-append, Bytes, codes, leb, ltb, drop, take, slice, bytes_eq,
  bytes_eq_iff, take-append, take-append-length, drop-append-length,
}
use anweb.Multipart.{
  find_first_boundary, disposition, read_data, again, done, find_boundary, at_boundary,
  behind_boundary, first_boundary_round, disposition_found, disposition_round, data_round,
  position_of, dashes, crlf, Event, empty_line, all_received, new_disposition, last_part,
}
use anweb.Multipart.Windows.{position_of-append, slice-middle}

-- A part: the lines in front of its empty line, and its data.
pub record Part : Type 0 where
  pub raw : Bytes
  pub bytes : Bytes

abbrev pub first_dash : Bytes
first_dash = codes "-"

abbrev pub most_of_empty_line : Bytes
most_of_empty_line = codes "\r\n\r"

-- The lines are not empty, hold no empty line and neither begin nor end with a line end; the data
-- holds no two dashes and does not end in a dash.
pub record IsPrintable (p : Part) : Type 0 where
  pub no_empty_line : position_of empty_line (crlf ++ (p.raw ++ most_of_empty_line)) ≡ none
  pub no_empty_line_first : position_of empty_line (p.raw ++ most_of_empty_line) ≡ none
  pub no_line_end_first : bytes_eq (take 2 (p.raw ++ empty_line)) crlf ≡ false
  pub some_lines : 0 < length p.raw
  pub no_dashes : position_of dashes (p.bytes ++ first_dash) ≡ none

abbrev pub EachPrintable : List Part → Type 0
EachPrintable [] = Unit
EachPrintable (p ∷ ps) = IsPrintable p × EachPrintable ps

-- The parts, each behind its boundary, the closing boundary, and `rest` behind it.
abbrev pub print_parts : Bytes → List Part → Bytes → Bytes
print_parts boundary [] rest = dashes ++ (boundary ++ (dashes ++ rest))
print_parts boundary (p ∷ ps) rest =
    dashes
    ++ (boundary ++ (crlf ++ (p.raw ++ (empty_line ++ (p.bytes ++ print_parts boundary ps rest)))))

abbrev pub events_of : List Part → List Event
events_of [] = all_received ∷ []
events_of (p ∷ ps) = new_disposition p.raw ∷ (last_part p.bytes ++ events_of ps)

module _ (boundary : Bytes) where
  regroup :
      (bytes two rest : Bytes)
      → bytes ++ (dashes ++ (boundary ++ (two ++ rest)))
        ≡ (bytes ++ (dashes ++ boundary)) ++ (two ++ rest)
  regroup bytes two rest = simp append_assoc

  -- A boundary is found behind bytes that hold no two dashes and do not end in a dash.
  pub find_boundary-found :
      (bytes two rest : Bytes)
      → position_of dashes (bytes ++ first_dash) ≡ none
      → length two ≡ 2
      → find_boundary (bytes ++ (dashes ++ (boundary ++ (two ++ rest)))) boundary
        ≡ behind_boundary (length bytes + 2) two
  unfolding find_boundary at_boundary
  find_boundary-found bytes two rest plain size =
      let buf = bytes ++ (dashes ++ (boundary ++ (two ++ rest))) in
      let n = length bytes + 2 in
      let total : length buf ≡ n + length boundary + 2 + length rest = omega (
        arith,
        size,
        length-append bytes (dashes ++ (boundary ++ (two ++ rest))),
        length-append boundary (two ++ rest),
        length-append two rest,
      ) in
      let long : leb (length boundary + 4) (length buf) ≡ true = ground (arith, total) in
      let enough : leb (n + length boundary + 2) (length buf) ≡ true = ground (arith, total) in
      let found : position_of dashes buf ≡ some (length bytes) =
        position_of-append first_dash b'-' bytes (boundary ++ (two ++ rest)) plain in
      let here : slice buf n (n + length boundary) ≡ boundary =
        ap (λ b. slice b n (n + length boundary))
          (sym (append_assoc bytes dashes (boundary ++ (two ++ rest))))
        ∙ slice-middle (bytes ++ dashes) boundary (two ++ rest) n (n + length boundary)
            (omega (arith, length-append bytes dashes)) refl in
      let behind : slice buf (n + length boundary) (n + length boundary + 2) ≡ two =
        ap (λ b. slice b (n + length boundary) (n + length boundary + 2)) (regroup bytes two rest)
        ∙ slice-middle (bytes ++ (dashes ++ boundary)) two rest (n + length boundary)
            (n + length boundary + 2)
            (omega (arith, length-append bytes (dashes ++ boundary), length-append dashes boundary))
            (omega (arith, size)) in
      let same : bytes_eq boundary boundary ≡ true = (bytes_eq_iff boundary boundary).1 refl in
      rw (find_boundary, long, found, enough, here, behind, same) refl

  -- The first boundary, behind bytes that hold no two dashes and do not end in a dash.
  pub first_boundary_round-found :
      (bytes rest : Bytes)
      → position_of dashes (bytes ++ first_dash) ≡ none
      → first_boundary_round (record {
        state = find_first_boundary;
        buf = bytes ++ (dashes ++ (boundary ++ (crlf ++ rest)));
        boundary = boundary;
      })
        ≡ again (record { state = disposition; buf = rest; boundary = boundary }) []
  unfolding first_boundary_round behind_boundary bytes_eq
  first_boundary_round-found bytes rest plain =
      let found = find_boundary-found bytes crlf rest plain refl in
      let left : drop (length bytes + 2 + length boundary + 2)
            (bytes ++ (dashes ++ (boundary ++ (crlf ++ rest))))
          ≡ rest =
        ap (drop (length bytes + 2 + length boundary + 2)) (whole bytes rest)
        ∙ drop-append-length (bytes ++ (dashes ++ (boundary ++ crlf))) rest _ (
            omega (
              arith,
              length-append bytes (dashes ++ (boundary ++ crlf)),
              length-append dashes (boundary ++ crlf),
              length-append boundary crlf,
            )) in
      rw (first_boundary_round, found, left) refl
    where
      whole :
          (bytes rest : Bytes)
          → bytes ++ (dashes ++ (boundary ++ (crlf ++ rest)))
            ≡ (bytes ++ (dashes ++ (boundary ++ crlf))) ++ rest
      whole bytes rest = simp append_assoc

  pub first_boundary_round-closing :
      (bytes rest : Bytes)
      → position_of dashes (bytes ++ first_dash) ≡ none
      → first_boundary_round (record {
        state = find_first_boundary;
        buf = bytes ++ (dashes ++ (boundary ++ (dashes ++ rest)));
        boundary = boundary;
      })
        ≡ done (record { state = disposition; buf = []; boundary = boundary }) (all_received ∷ [])
  unfolding first_boundary_round behind_boundary bytes_eq
  first_boundary_round-closing bytes rest plain =
      rw (first_boundary_round, find_boundary-found bytes dashes rest plain refl) refl

  -- The data up to the next boundary.
  pub data_round-found :
      (bytes rest : Bytes)
      → position_of dashes (bytes ++ first_dash) ≡ none
      → data_round (record {
        state = read_data;
        buf = bytes ++ (dashes ++ (boundary ++ (crlf ++ rest)));
        boundary = boundary;
      })
        ≡ again
            (record { state = disposition; buf = crlf ++ rest; boundary = boundary })
            (last_part bytes)
  unfolding data_round behind_boundary bytes_eq
  data_round-found bytes rest plain =
      let tail = dashes ++ (boundary ++ (crlf ++ rest)) in
      let n = length bytes + 2 in
      let found = find_boundary-found bytes crlf rest plain refl in
      let left : drop (n + length boundary) (bytes ++ tail) ≡ crlf ++ rest =
        ap (drop (n + length boundary)) (regroup bytes crlf rest)
        ∙ drop-append-length (bytes ++ (dashes ++ boundary)) (crlf ++ rest) _ (
            omega
              (arith, length-append bytes (dashes ++ boundary), length-append dashes boundary)) in
      let part : take (n - 2) (bytes ++ tail) ≡ bytes =
        take-append-length bytes tail (n - 2) (omega arith) in
      rw (data_round, found, left, part) refl

  pub data_round-closing :
      (bytes rest : Bytes)
      → position_of dashes (bytes ++ first_dash) ≡ none
      → data_round (record {
        state = read_data;
        buf = bytes ++ (dashes ++ (boundary ++ (dashes ++ rest)));
        boundary = boundary;
      })
        ≡ done
            (record { state = disposition; buf = []; boundary = boundary })
            (last_part bytes ++ all_received ∷ [])
  unfolding data_round behind_boundary bytes_eq
  data_round-closing bytes rest plain =
      let tail = dashes ++ (boundary ++ (dashes ++ rest)) in
      let part : take (length bytes + 2 - 2) (bytes ++ tail) ≡ bytes =
        take-append-length bytes tail (length bytes + 2 - 2) (omega arith) in
      rw (data_round, find_boundary-found bytes dashes rest plain refl, part) refl

  -- The lines of a part, at the start of the bytes.
  pub disposition_round-first :
      (p : Part) (rest : Bytes)
      → IsPrintable p
      → disposition_round
          (record { state = disposition; buf = p.raw ++ (empty_line ++ rest); boundary = boundary })
        ≡ again
            (record { state = read_data; buf = rest; boundary = boundary })
            (new_disposition p.raw ∷ [])
  unfolding disposition_round disposition_found
  disposition_round-first p rest h =
      let buf = p.raw ++ (empty_line ++ rest) in
      let long : ltb 4 (length buf) ≡ true =
        ground (arith, h.some_lines, length-append p.raw (empty_line ++ rest)) in
      let found : position_of empty_line buf ≡ some (length p.raw) =
        position_of-append most_of_empty_line b'\n' p.raw rest h.no_empty_line_first in
      let begin : take 2 buf ≡ take 2 (p.raw ++ empty_line) =
        ap (take 2) (sym (append_assoc p.raw empty_line rest))
        ∙ take-append (p.raw ++ empty_line) rest 2
            (omega (arith, length-append p.raw empty_line)) in
      let other : bytes_eq (take 2 buf) crlf ≡ false =
        ap (λ b. bytes_eq b crlf) begin ∙ h.no_line_end_first in
      let bounded : ltb (length p.raw) 0 ≡ false = ground arith in
      let cut : slice buf 0 (length p.raw) ≡ p.raw =
        slice-middle [] p.raw (empty_line ++ rest) 0 (length p.raw) refl (omega arith) in
      let left : drop (length p.raw + 4) buf ≡ rest =
        ap (drop (length p.raw + 4)) (sym (append_assoc p.raw empty_line rest))
        ∙ drop-append-length (p.raw ++ empty_line) rest _
            (omega (arith, length-append p.raw empty_line)) in
      rw (disposition_round, long, found, disposition_found, other, bounded, cut, left) refl

  -- The lines of a part, behind the line end of its boundary.
  pub disposition_round-next :
      (p : Part) (rest : Bytes)
      → IsPrintable p
      → disposition_round (record {
        state = disposition;
        buf = crlf ++ (p.raw ++ (empty_line ++ rest));
        boundary = boundary;
      })
        ≡ again
            (record { state = read_data; buf = rest; boundary = boundary })
            (new_disposition p.raw ∷ [])
  unfolding disposition_round disposition_found bytes_eq
  disposition_round-next p rest h =
      let buf = crlf ++ (p.raw ++ (empty_line ++ rest)) in
      let n = 2 + length p.raw in
      let long : ltb 4 (length buf) ≡ true =
        ground (arith, length-append p.raw (empty_line ++ rest)) in
      let found : position_of empty_line buf ≡ some n =
        position_of-append most_of_empty_line b'\n' (crlf ++ p.raw) rest h.no_empty_line
        ∙ ap some (omega arith) in
      let bounded : ltb n 2 ≡ false = ground arith in
      let cut : slice buf 2 n ≡ p.raw =
        slice-middle crlf p.raw (empty_line ++ rest) 2 n refl refl in
      let left : drop (n + 4) buf ≡ rest =
        ap (drop (n + 4)) (sym (append_assoc (crlf ++ p.raw) empty_line rest))
        ∙ drop-append-length ((crlf ++ p.raw) ++ empty_line) rest _
            (omega (arith, length-append p.raw empty_line)) in
      rw (disposition_round, long, found, disposition_found, bounded, cut, left) refl
