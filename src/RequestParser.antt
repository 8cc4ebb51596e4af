-- ===== src/RequestParser.antt =====
-- src/request_parser.rs: the incremental parser of a request head, `Parser::push`. A loop over the
-- new bytes, `scan`, makes one `step` for each; an index into the buffer is a `usize`. The test
-- `a as i32 - b as i32 > k` keeps its 32-bit wrap-around. Percent decoding, of the crate
-- percent-encoding, is a parameter: the decoded text, or `none` where it is not UTF-8.
pub mod Steps
pub mod Chunks
pub mod Consumes
pub mod Limits
pub mod Accepted
pub mod Parts
pub mod HeaderLine
pub mod Headers
pub mod Printed
pub mod Version
pub mod RoundTrip
pub mod Panics
mod Data
pub mod Tests
unfoldable pub use Data.*
use anweb.Prelude.{
  ℕ, zero, suc, ◌+◌, ◌-◌, ◌^◌, ◌%◌, Bool, true, false, not, ◌&&◌, ◌||◌, Option, none, some, List,
  [], ◌∷◌, ◌++◌, ltb, leb, ◌==◌, if◌then◌else◌, length, get_or, take, drop, slice, is_empty, codes,
  Bytes, bytes_eq,
}
use anweb.Text.{from_utf8, is_digit, parse_usize}
use anweb.Request.{
  Header, ConnectionType, keep_alive, close, HttpVersion, http1_0, http1_1, RequestError,
  request_line, method_len_limit, path_len_limit, query_len_limit, wrong_version,
  unsupported_protocol, wrong_header, empty_header_name, version_len_limit, headers_count_limit,
  header_name_len_limit, header_value_len_limit, content_length_parse_error, RequestData,
  new_request,
}

-- What one byte leads to: the loop goes on, breaks at the end of the request, returns an error,
-- or panics on a slice whose end lies before its start.
pub data Step : Type 0 where
  next : Parser → Step
  found_end : ℕ → Step
  refused : RequestError → Step
  panicked : Step

abbrev stay : Parser → ParseState → Step
stay p s = next (record p { parse_state = s })

abbrev line_end : Bytes
line_end = codes "\r\n"

abbrev head_end : Bytes
head_end = codes "\r\n\r\n"

module _ (settings : Settings) where
  method_step : ℕ → ℕ → Parser → Step
  method_step i ch p =
      if ch == b' '
      then next (record p {
        request = record p.request { method_end_index = i };
        parse_state = path (i + 1);
      })
      else if ch == b'\n'
      then refused request_line
      else if leb settings.method_len i
      then refused method_len_limit
      else next p

  query_step : ℕ → ℕ → ℕ → Parser → Step
  query_step query_index i ch p =
      if ch == b' '
      then next (record p {
        request = record p.request { raw_query_indices = (query_index, i) };
        parse_state = version (i + 1);
      })
      else if ch == b'\n'
      then refused request_line
      else if leb settings.query_len (i - query_index)
      then refused query_len_limit
      else next p

  version_read : VersionRead → ℕ → Parser → Step
  version_read (ok v) i p =
      next (record p { request = record p.request { version = v }; parse_state = header (i + 1) 0 })
  version_read (err unsupported) i p = refused unsupported_protocol
  version_read (err _) i p = refused wrong_version

  -- `&raw_buf[version_index..i - 1]` panics when the line feed stands at `version_index`.
  version_step : ℕ → ℕ → ℕ → Parser → Step
  version_step version_index i ch p =
      if ch == b'\n'
      then (if ltb (i - 1) version_index
          then panicked
          else version_read (version_from_data (slice p.request.raw version_index (i - 1))) i p)
      else if gt_i32 i version_index version_len
      then refused version_len_limit
      else next p

  -- The new header is looked at for the connection type and the content length, then pushed.
  add_header : Header → ℕ → Parser → Step
  add_header h i p =
      let r = p.request in
      let connection : Option ConnectionType = elim r.connection_type [
        | none ↦ header_is_connection_type h
        | some c ↦ some c
      ] in
      let length_read : ContentLength = elim r.content_len [
        | none ↦ header_is_content_length h
        | some n ↦ read (some n)
      ] in
      elim length_read [
        | unreadable ↦ refused content_length_parse_error
        | read n ↦ next (record {
          request = record r {
            connection_type = connection;
            content_len = n;
            headers = r.headers ++ h ∷ [];
          };
          parse_state = header (i + 1) 0;
        })
      ]

  header_line : ℕ → ℕ → ℕ → Parser → Step
  header_line header_index separator i p =
      let raw = p.request.raw in
      let value_idx =
        if get_or raw (separator + 1) 0 == b' ' then separator + 2 else separator + 1 in
      if separator == 0 || lt_i32 i separator 2
      then refused wrong_header
      else if leb separator header_index
      then refused wrong_header
      else if leb (i - 1) value_idx
      then refused wrong_header
      else elim (from_utf8 (slice raw header_index separator)) [
        | none ↦ refused wrong_header
        | some name ↦
            if is_empty name
            then refused wrong_header
            else elim (from_utf8 (slice raw value_idx (i - 1))) [
              | none ↦ refused wrong_header
              | some value ↦ add_header (record { name = name; value = value }) i p
            ]
      ]

  separator_found : ℕ → ℕ → Parser → Step
  separator_found header_index i p =
      if leb settings.headers_count (length p.request.headers)
      then refused headers_count_limit
      else if leb i header_index
      then refused empty_header_name
      else stay p (header header_index i)

  header_step : ℕ → ℕ → ℕ → ℕ → Parser → Step
  header_step header_index separator i ch p =
      if ch == b'\n' && bytes_eq (slice p.request.raw (i - 3) (i + 1)) head_end
      then found_end (i + 1)
      else if separator == 0 && gt_i32 i header_index settings.header_name_len
      then refused header_name_len_limit
      else if not (separator == 0) && gt_i32 i separator (settings.header_value_len + 2)
      then refused header_value_len_limit
      else if ch == b':' && separator == 0
      then separator_found header_index i p
      else if ch == b'\n' && bytes_eq (slice p.request.raw (i - 1) (i + 1)) line_end
      then header_line header_index separator i p
      else next p

  module _ (percent_decode : Bytes → Option Bytes) where
    -- `if let Ok(decoded) = percent_decode(..).decode_utf8()`
    decode_path : ℕ → ℕ → RequestData → RequestData
    decode_path lo hi r = elim (percent_decode (slice r.raw lo hi)) [
      | none ↦ record r { path_indices = (lo, hi) }
      | some decoded ↦ record r { path_indices = (lo, hi); decoded_path = decoded }
    ]

    path_step : ℕ → ℕ → ℕ → Parser → Step
    path_step path_index i ch p =
        if ch == b' '
        then next
            (record { request = decode_path path_index i p.request; parse_state = version (i + 1) })
        else if ch == b'\n'
        then refused request_line
        else if ch == b'?'
        then next
            (record { request = decode_path path_index i p.request; parse_state = query (i + 1) })
        else if leb settings.path_len (i - path_index)
        then refused path_len_limit
        else next p

    unfoldable pub step_in : ParseState → ℕ → ℕ → Parser → Step
    unfolding method_step path_step decode_path query_step version_step version_read
        version_from_data header_step separator_found header_line add_header
        header_is_connection_type header_is_content_length bytes_eq
    step_in method i ch p = method_step i ch p
    step_in (path path_index) i ch p = path_step path_index i ch p
    step_in (query query_index) i ch p = query_step query_index i ch p
    step_in (version version_index) i ch p = version_step version_index i ch p
    step_in (header header_index separator) i ch p = header_step header_index separator i ch p

-- How the loop over the new bytes ends.
pub data Scanned : Type 0 where
  ended : Parser → ℕ → Scanned
  ran_out : Parser → Scanned
  stopped : RequestError → Scanned
  crashed : Scanned

-- What `push` returns. `waiting` is `Err(RequestError::Partial)`, with the parser left behind.
pub data Pushed : Type 0 where
  ready : Parser → RequestData → Bytes → Pushed
  waiting : Parser → Pushed
  failed : RequestError → Pushed
  panic : Pushed

module _ (settings : Settings) (percent_decode : Bytes → Option Bytes) where
  unfoldable pub scan : ℕ → Bytes → Parser → Scanned
  scan i [] p = ran_out p
  scan i (ch ∷ rest) p = elim (step_in settings percent_decode p.parse_state i ch p) [
    | next q ↦ scan (i + 1) rest q
    | found_end request_len ↦ ended p request_len
    | refused e ↦ stopped e
    | panicked ↦ crashed
  ]

  -- The request is cut off the buffer, and the parser starts anew.
  pub finish : Scanned → Pushed
  finish (ended p request_len) =
      let raw = p.request.raw in
      ready new_parser (record p.request { raw = take request_len raw }) (drop request_len raw)
  finish (ran_out p) = waiting p
  finish (stopped e) = failed e
  finish crashed = panic

  -- `self.request.raw.extend_from_slice(buf)`
  abbrev pub feed : Parser → Bytes → Parser
  feed p buf = record p { request = record p.request { raw = p.request.raw ++ buf } }

  unfoldable pub push : Parser → Bytes → Pushed
  unfolding finish
  push p buf = finish (scan (length p.request.raw) buf (feed p buf))
