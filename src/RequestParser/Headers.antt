-- ===== src/RequestParser/Headers.antt =====
-- How `Parser::push` reads the headers and the empty line behind them.
use anweb.Prelude.{
  ℕ, ◌+◌, ◌-◌, ◌^◌, ◌≤◌, ◌<◌, ◌≡◌, refl, ap, ◌∙◌, arith, Option, none, some, List, [], ◌∷◌, ◌++◌,
  append_assoc, append-nil, length, Bytes, slice, codes, length-append,
}
use anweb.Request.{RequestData, Header, display_header}
use anweb.RequestParser.{
  header, Settings, Parser, found_end, ended, step_in, scan, header_is_connection_type,
}
use anweb.RequestParser.Parts.{slice-middle, scan_next, scan_end, name_stays}
use anweb.RequestParser.HeaderLine.{IsPlain, length_of, note, scan-header}

abbrev pub print_headers : List Header → Bytes → Bytes
print_headers [] rest = codes "\r\n" ++ rest
print_headers (h ∷ hs) rest = display_header h ++ print_headers hs rest

-- The first header, in their order, of which `f` says something.
abbrev pub first_of : {A : Type 0} → (Header → Option A) → List Header → Option A
first_of f [] = none
first_of f (h ∷ hs) = elim (f h) [ some a ↦ some a | none ↦ first_of f hs ]

abbrev pub EachPlain : Settings → List Header → Type 0
EachPlain settings [] = Unit
EachPlain settings (h ∷ hs) = IsPlain settings h × EachPlain settings hs

abbrev pub noted : RequestData → List Header → RequestData
noted r [] = r
noted r (h ∷ hs) = noted (note r h) hs

abbrev pub or_else : {A : Type 0} → Option A → Option A → Option A
or_else none o = o
or_else (some a) o = some a

-- What the headers leave, in one record.
pub noted_lem :
    (r : RequestData) (hs : List Header)
    → noted r hs ≡ record r {
      headers = r.headers ++ hs;
      connection_type = or_else r.connection_type (first_of header_is_connection_type hs);
      content_len = or_else r.content_len (first_of length_of hs);
    }
noted_lem r [] = ground (arith, append-nil r.headers)
noted_lem r (h ∷ hs) = ground (arith, noted_lem (note r h) hs, append_assoc r.headers (h ∷ []) hs)

header_split :
    (front : Bytes) (h : Header) (behind : Bytes)
    → (front ++ codes "\r\n") ++ (display_header h ++ behind)
      ≡ ((front ++ (codes "\r\n" ++ (h.name ++ (codes ": " ++ h.value)))) ++ codes "\r\n") ++ behind
unfolding display_header
header_split front h behind = simp append_assoc

length-display_header :
    (h : Header) → length (display_header h) ≡ length h.name + length h.value + 4
unfolding display_header
length-display_header h = omega (
  arith,
  length-append h.name (codes ": " ++ (h.value ++ codes "\r\n")),
  length-append h.value (codes "\r\n"),
)

length_line :
    (front : Bytes) (h : Header)
    → length ((front ++ (codes "\r\n" ++ (h.name ++ (codes ": " ++ h.value)))) ++ codes "\r\n")
      ≡ length (front ++ codes "\r\n") + length h.name + length h.value + 4
length_line front h = omega (
  arith,
  length-append (front ++ (codes "\r\n" ++ (h.name ++ (codes ": " ++ h.value)))) (codes "\r\n"),
  length-append front (codes "\r\n" ++ (h.name ++ (codes ": " ++ h.value))),
  length-append h.name (codes ": " ++ h.value),
  length-append front (codes "\r\n"),
)

module _ (settings : Settings) (percent_decode : Bytes → Option Bytes)
    (name_u16 : settings.header_name_len < 2 ^ 16)
    (value_u16 : settings.header_value_len < 2 ^ 16) where
  head_end_step :
      (p : Parser) (front rest : Bytes) (i : ℕ)
      → p.request.raw ≡ (front ++ codes "\r\n") ++ (codes "\r\n" ++ rest)
      → i ≡ length (front ++ codes "\r\n")
      → 3 ≤ i
      → step_in settings percent_decode (header i 0) (i + 1) b'\n' p ≡ found_end (i + 2)
  unfolding step_in
  head_end_step p front rest i whole at low =
      let last_four : slice p.request.raw (i + 1 - 3) (i + 1 + 1) ≡ codes "\r\n\r\n" =
        slice-middle p.request.raw front (codes "\r\n\r\n") rest (i + 1 - 3) (i + 1 + 1)
          (whole ∙ simp append_assoc) (omega (arith, length-append front (codes "\r\n")))
          (omega arith) in
      ground (arith, last_four)

  -- The headers and the empty line, behind a line end.
  pub scan-headers :
      (hs : List Header) (p : Parser) (front rest : Bytes) (i : ℕ)
      → p.request.raw ≡ (front ++ codes "\r\n") ++ print_headers hs rest
      → i ≡ length (front ++ codes "\r\n")
      → 3 ≤ i
      → p.parse_state ≡ header i 0
      → EachPlain settings hs
      → length p.request.headers + length hs ≤ settings.headers_count
      → (q : Parser) × (scan settings percent_decode i (print_headers hs rest) p
          ≡ ended q (i + length (print_headers hs [])))
        × (q.request ≡ noted p.request hs)
  scan-headers [] p front rest i whole at low state plain room = (
    p,
    scan_next settings percent_decode i b'\r' (b'\n' ∷ rest) p (
          name_stays settings percent_decode i b'\r' p i state (omega arith) (omega arith) name_u16
            (omega arith))
        ∙ scan_end settings percent_decode (i + 1) b'\n' rest p (
            ap (λ s. step_in settings percent_decode s (i + 1) b'\n' p) state
            ∙ head_end_step p front rest i whole at low),
    refl,
  )
  scan-headers (h ∷ hs) p front rest i whole at low state plain room =
      let behind = print_headers hs rest in
      let line = front ++ (codes "\r\n" ++ (h.name ++ (codes ": " ++ h.value))) in
      let i' = i + length h.name + 2 + length h.value + 1 + 1 in
      let p' : Parser = record { request = note p.request h; parse_state = header i' 0 } in
      let room' : length p.request.headers < settings.headers_count = omega arith in
      let read =
        scan-header settings percent_decode p (front ++ codes "\r\n") h behind i whole at low
          plain.0 name_u16 value_u16 room' state in
      let (q, ends, same) =
        scan-headers hs p' line rest i' (whole ∙ header_split front h behind)
          (omega (arith, at, length_line front h)) (omega arith) refl plain.1
          (omega (arith, length-append p.request.headers (h ∷ []))) in
      (
        q,
        read
            ∙ ends
            ∙ ap (ended q) (
                omega (
                  arith,
                  length-append (display_header h) (print_headers hs []),
                  length-display_header h,
                )),
        same,
      )
