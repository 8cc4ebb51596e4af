-- ===== src/Multipart/Tests.antt =====
-- Runs of the multipart parser on small contents, and the theorems at them.
use anweb.Prelude.{◌≡◌, ◌≢◌, refl, arith, true, false, none, [], ◌∷◌, ◌++◌, Bytes, codes, bytes_eq}
use anweb.Request.{RequestData, new_request, header_value}
use anweb.Multipart.{
  MultipartParser, read_data, find_first_boundary, push, pushed, crashed, out_of_fuel, new, ok, err,
  no_boundary_in_content_type_header, position_of, starts_with, data_part, all_received,
}
use anweb.Multipart.Rounds.{Part, IsPrintable, print_parts, events_of}
use anweb.Multipart.RoundTrip.{at_start, at_end, push-print_parts}
use anweb.Multipart.Boundary.{new-boundary}
use anweb.Multipart.Cuts.{push-cut_boundary}
use anweb.Multipart.Panics.{push-no_lines}
use anweb.Multipart.Termination.{push-ne-out_of_fuel}

abbrev request_with : Bytes → RequestData
request_with v = record new_request {
  headers = record { name = codes "Content-Type"; value = v } ∷ [];
}

new-boundary_example :
    new (request_with (codes "multipart/form-data; boundary=xyz"))
    ≡ ok (record { state = find_first_boundary; buf = []; boundary = codes "xyz" })
unfolding position_of starts_with header_value bytes_eq
new-boundary_example =
    new-boundary (request_with (codes "multipart/form-data; boundary=xyz"))
      (codes "multipart/form-data; ") (codes "xyz") refl refl (omega arith) (omega arith)

new_without_boundary :
    new (request_with (codes "text/html")) ≡ err no_boundary_in_content_type_header
unfolding new position_of starts_with header_value bytes_eq
new_without_boundary = refl

abbrev field : Part
field = record { raw = codes "Content-Disposition: form-data; name=\"a\""; bytes = codes "text" }

field-IsPrintable : IsPrintable field
unfolding position_of starts_with bytes_eq
field-IsPrintable = record {
  no_empty_line = refl;
  no_empty_line_first = refl;
  no_line_end_first = refl;
  some_lines = omega arith;
  no_dashes = refl;
}

begin_plain : position_of (codes "--") (codes "-") ≡ none
unfolding position_of starts_with
begin_plain = refl

push-print_parts_example :
    push
      (at_start (codes "xyz") (codes "\r\n") [])
      ([] ++ print_parts (codes "xyz") (field ∷ field ∷ []) (codes "\r\n"))
    ≡ pushed (at_end (codes "xyz") (codes "\r\n")) (events_of (field ∷ field ∷ []))
push-print_parts_example =
    push-print_parts (codes "xyz") (codes "\r\n") [] (field ∷ field ∷ []) begin_plain
      (field-IsPrintable, (field-IsPrintable, tt))

push-ne-out_of_fuel_example :
    push (at_start (codes "xyz") [] (codes "--x")) (codes "yz\r\nA: b\r\n\r\nc") ≢ out_of_fuel
push-ne-out_of_fuel_example =
    push-ne-out_of_fuel (at_start (codes "xyz") [] (codes "--x")) (codes "yz\r\nA: b\r\n\r\nc")

abbrev reading : MultipartParser
reading = record { state = read_data; buf = []; boundary = codes "xyz" }

-- The line end in front of a boundary, which RFC 2046 counts to the boundary, stays in the data.
line_end_kept :
    push reading (codes "text\r\n--xyz--")
    ≡ pushed (at_end (codes "xyz") []) (data_part (codes "text\r\n") true ∷ all_received ∷ [])
unfolding push position_of starts_with bytes_eq
line_end_kept = refl

-- Two dashes in the data hide the boundary behind them.
dashes_hide :
    push reading (codes "a--b--xyz--") ≡ pushed reading (data_part (codes "a--b--xyz--") false ∷ [])
unfolding push position_of starts_with bytes_eq
dashes_hide = refl

push-cut_boundary_example :
    (push reading (codes "--x") ≡ pushed reading (data_part (codes "--x") false ∷ []))
    × (push reading (codes "yz--") ≡ pushed reading (data_part (codes "yz--") false ∷ []))
push-cut_boundary_example =
    push-cut_boundary (codes "xyz") (codes "--x") (codes "yz--") (codes "--") refl refl
      (omega arith) (omega arith)

push-no_lines_example : push reading (codes "text" ++ codes "--xyz\r\n\r\ndata") ≡ crashed
push-no_lines_example =
    push-no_lines (codes "xyz") b'd' (codes "text") (codes "ata") field-IsPrintable.no_dashes
