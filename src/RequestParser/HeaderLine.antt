-- ===== src/RequestParser/HeaderLine.antt =====
-- How `Parser::push` reads one header line in the form that `Display` of `Header` writes.
use anweb.Prelude.{
  ℕ, zero, suc, ◌+◌, ◌-◌, ◌^◌, ◌≤◌, ◌<◌, ◌≡◌, ◌≢◌, refl, sym, ap, ◌∙◌, arith, true, false, Option,
  none, some, [], ◌∷◌, ◌++◌, append_assoc, length, Bytes, slice, drop, codes, bytes_eq,
  bytes_eq_iff, length-append, get_or, get_or-drop, get_or-take, get_or-behind, is_empty,
  Bool-cases, inl, inr,
}
use anweb.Text.{is_utf8}
use anweb.Request.{RequestData, Header, display_header}
use anweb.RequestParser.{
  header, Settings, Parser, next, step_in, scan, header_line, add_header, read, unreadable,
  header_is_content_length, header_is_connection_type,
}
use anweb.RequestParser.Parts.{
  Each, InName, InLine, slice-middle, scan_stay, scan_next, name_stays, value_stays,
}

-- The length that a header gives, if it gives one.
abbrev pub length_of : Header → Option ℕ
length_of h = elim (header_is_content_length h) [ read n ↦ n | unreadable ↦ none ]

-- A header that can be written and read back under the limits: the limit of the value counts the
-- space in front of it.
pub record IsPlain (settings : Settings) (h : Header) : Type 0 where
  pub name_text : is_utf8 h.name ≡ true
  pub value_text : is_utf8 h.value ≡ true
  pub name_bytes : Each InName h.name
  pub value_bytes : Each InLine h.value
  pub name_some : 0 < length h.name
  pub value_some : 0 < length h.value
  pub name_within : length h.name ≤ settings.header_name_len
  pub value_within : length h.value + 1 ≤ settings.header_value_len
  pub length_readable : header_is_content_length h ≢ unreadable

-- The first header that says something of the connection, or of the length, counts.
abbrev pub note : RequestData → Header → RequestData
note r h = record r {
  connection_type = elim r.connection_type [ none ↦ header_is_connection_type h | some c ↦ some c ];
  content_len = elim r.content_len [ none ↦ length_of h | some n ↦ some n ];
  headers = r.headers ++ h ∷ [];
}

get_or-Each :
    (P : ℕ → Type 0) (xs ys : Bytes) (k d : ℕ)
    → Each P xs
    → k < length xs
    → P (get_or (xs ++ ys) k d)
get_or-Each P [] ys k d h lt = absurd (omega arith)
get_or-Each P (x ∷ xs) ys zero d h lt = h.0
get_or-Each P (x ∷ xs) ys (suc k) d h lt = get_or-Each P xs ys k d h.1 (omega arith)

-- The four bytes up to `i` are not the end of a head, if the second of them is no line feed.
not_head_end :
    (raw : Bytes) (i : ℕ)
    → 3 ≤ i
    → get_or raw (i - 2) 0 ≢ b'\n'
    → bytes_eq (slice raw (i - 3) (i + 1)) (codes "\r\n\r\n") ≡ false
not_head_end raw i low ne =
    elim (Bool-cases (bytes_eq (slice raw (i - 3) (i + 1)) (codes "\r\n\r\n"))) [
      | inl same ↦
          let second : get_or (slice raw (i - 3) (i + 1)) 1 0 ≡ b'\n' =
            ap (λ b. get_or b 1 0)
              ((bytes_eq_iff (slice raw (i - 3) (i + 1)) (codes "\r\n\r\n")).0 same) in
          let four : 1 < i + 1 - (i - 3) = omega arith in
          let place : i - 3 + 1 ≡ i - 2 = omega arith in
          absurd (
            ne (
              sym (ap (λ (m : ℕ). get_or raw m 0) place)
              ∙ sym (get_or-drop (i - 3) 1 0 raw)
              ∙ sym (get_or-take (i + 1 - (i - 3)) 1 0 (drop (i - 3) raw) four)
              ∙ second))
      | inr other ↦ other
    ]

is_empty-of_pos : (xs : Bytes) → 0 < length xs → is_empty xs ≡ false
is_empty-of_pos [] h = absurd (omega arith)
is_empty-of_pos (x ∷ xs) h = refl

Each-append : (P : ℕ → Type 0) (xs ys : Bytes) → Each P xs → Each P ys → Each P (xs ++ ys)
Each-append P [] ys h k = k
Each-append P (x ∷ xs) ys h k = (h.0, Each-append P xs ys h.1 k)

module _ (settings : Settings) (percent_decode : Bytes → Option Bytes) (p : Parser) (before : Bytes)
    (h : Header) (behind : Bytes) (i : ℕ)
    (whole : p.request.raw ≡ before ++ (display_header h ++ behind)) (at : i ≡ length before)
    (low : 3 ≤ i) (plain : IsPlain settings h) (name_u16 : settings.header_name_len < 2 ^ 16)
    (value_u16 : settings.header_value_len < 2 ^ 16)
    (room : length p.request.headers < settings.headers_count) where
  abbrev colon : ℕ
  colon = i + length h.name

  abbrev feed_at : ℕ
  feed_at = colon + 2 + length h.value + 1

  name_read : slice p.request.raw i colon ≡ h.name
  unfolding display_header
  name_read =
      slice-middle p.request.raw before h.name (codes ": " ++ (h.value ++ codes "\r\n") ++ behind) i
        colon (whole ∙ simp append_assoc) at refl

  value_read : slice p.request.raw (colon + 2) (feed_at - 1) ≡ h.value
  unfolding display_header
  value_read =
      slice-middle p.request.raw (before ++ (h.name ++ codes ": ")) h.value (codes "\r\n" ++ behind)
        (colon + 2) (feed_at - 1) (whole ∙ simp append_assoc)
        (omega
          (arith, length-append before (h.name ++ codes ": "), length-append h.name (codes ": ")))
        (omega arith)

  line_end_read : slice p.request.raw (feed_at - 1) (feed_at + 1) ≡ codes "\r\n"
  unfolding display_header
  line_end_read =
      slice-middle p.request.raw (before ++ (h.name ++ (codes ": " ++ h.value))) (codes "\r\n")
        behind (feed_at - 1) (feed_at + 1) (whole ∙ simp append_assoc)
        (omega (
          arith,
          length-append before (h.name ++ (codes ": " ++ h.value)),
          length-append h.name (codes ": " ++ h.value),
        ))
        (omega arith)

  space_read : get_or p.request.raw (colon + 1) 0 ≡ b' '
  unfolding display_header
  space_read =
      let front = before ++ (h.name ++ b':' ∷ []) in
      let behind' = b' ' ∷ (h.value ++ codes "\r\n" ++ behind) in
      let split : p.request.raw ≡ front ++ behind' = whole ∙ simp append_assoc in
      let place : colon + 1 ≡ length front + 0 =
        omega
          (arith, length-append before (h.name ++ b':' ∷ []), length-append h.name (b':' ∷ [])) in
      rw (split, place) (get_or-behind front behind' 0 0)

  not_end : bytes_eq (slice p.request.raw (feed_at - 3) (feed_at + 1)) (codes "\r\n\r\n") ≡ false
  unfolding display_header
  not_end =
      let front = before ++ (h.name ++ codes ": ") in
      let split : p.request.raw ≡ front ++ (h.value ++ (codes "\r\n" ++ behind)) =
        whole ∙ simp append_assoc in
      let last = length h.value - 1 in
      let place : feed_at - 2 ≡ length front + last = omega (
        arith,
        plain.value_some,
        length-append before (h.name ++ codes ": "),
        length-append h.name (codes ": "),
      ) in
      not_head_end p.request.raw feed_at (omega arith) (
        rw (split, place, get_or-behind front (h.value ++ (codes "\r\n" ++ behind)) last 0)
          (get_or-Each InLine h.value (codes "\r\n" ++ behind) last 0 plain.value_bytes
            (omega (arith, plain.value_some))))

  abbrev named : Parser
  named = record p { parse_state = header i colon }

  abbrev noted_line : Parser
  noted_line = record { request = note p.request h; parse_state = header (feed_at + 1) 0 }

  colon_step : step_in settings percent_decode (header i 0) colon b':' p ≡ next named
  unfolding step_in
  colon_step = ground (arith, plain.name_some, plain.name_within, name_u16, room)

  add_header_noted : add_header settings h feed_at named ≡ next noted_line
  unfolding add_header
  add_header_noted = ground (arith, plain.length_readable)

  header_line_noted : header_line settings i colon feed_at named ≡ next noted_line
  unfolding header_line
  header_line_noted = ground (
    arith,
    value_u16,
    plain.name_some,
    plain.value_some,
    plain.name_text,
    plain.value_text,
    plain.value_within,
    name_read,
    value_read,
    space_read,
    is_empty-of_pos h.name plain.name_some,
    add_header_noted,
  )

  feed_step : step_in settings percent_decode (header i colon) feed_at b'\n' named ≡ next noted_line
  unfolding step_in
  feed_step =
      ground (arith, value_u16, plain.value_within, not_end, line_end_read, header_line_noted)

  -- The parser takes the whole line, and then stands at the start of the next header.
  pub scan-header :
      p.parse_state ≡ header i 0
      → scan settings percent_decode i (display_header h ++ behind) p
        ≡ scan settings percent_decode (feed_at + 1) behind noted_line
  unfolding display_header
  scan-header state =
      let value_part = b' ' ∷ (h.value ++ b'\r' ∷ []) in
      let split : display_header h ++ behind ≡ h.name ++ (b':' ∷ (value_part ++ (b'\n' ∷ behind))) =
        simp append_assoc in
      ap (λ b. scan settings percent_decode i b p) split
      ∙ scan_stay settings percent_decode InName p h.name _ i colon
          (λ k c lo hi inside.
            name_stays settings percent_decode k c p i state lo (omega (arith, plain.name_within))
              name_u16 inside)
          plain.name_bytes refl
      ∙ scan_next settings percent_decode colon b':' _ p
          (ap (λ s. step_in settings percent_decode s colon b':' p) state ∙ colon_step)
      ∙ scan_stay settings percent_decode InLine named value_part (b'\n' ∷ behind) (colon + 1)
          feed_at
          (λ k c lo hi inside.
            value_stays settings percent_decode k c named i colon refl (omega arith) (omega arith)
              (omega (arith, plain.value_within)) value_u16 inside)
          (omega arith, Each-append InLine h.value (b'\r' ∷ []) plain.value_bytes (omega arith))
          (omega (arith, length-append h.value (b'\r' ∷ [])))
      ∙ scan_next settings percent_decode feed_at b'\n' behind named feed_step
