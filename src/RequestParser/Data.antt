-- ===== src/RequestParser/Data.antt =====
-- src/request_parser.rs: the state of the parser, its settings, and the functions that read the
-- version and the two headers that the parser looks at.
use anweb.Prelude.{
  ℕ, ◌+◌, ◌-◌, ◌^◌, ◌%◌, Bool, false, not, ◌&&◌, ◌||◌, Option, none, some, [], ◌∷◌, ltb, leb, ◌==◌,
  if◌then◌else◌, length, drop, slice, codes, Bytes, bytes_eq,
}
use anweb.Text.{is_digit, parse_usize}
use anweb.Request.{
  Header, ConnectionType, keep_alive, close, HttpVersion, http1_0, http1_1, RequestData,
  new_request,
}

pub data ParseState : Type 0 where
  method : ParseState
  path : ℕ → ParseState
  query : ℕ → ParseState
  version : ℕ → ParseState
  -- The start of the header, and its separator (0 while none is found).
  header : ℕ → ℕ → ParseState

-- `ParseHttpRequestSettings`
pub record Settings : Type 0 where
  pub method_len : ℕ
  pub path_len : ℕ
  pub query_len : ℕ
  pub headers_count : ℕ
  pub header_name_len : ℕ
  pub header_value_len : ℕ
  pub pipelining_requests : ℕ

-- `ParseHttpRequestSettings::default`
abbrev pub default_settings : Settings
default_settings = record {
  method_len = 7;
  path_len = 512;
  query_len = 512;
  headers_count = 64;
  header_name_len = 32;
  header_value_len = 512;
  pipelining_requests = 64;
}

pub record Parser : Type 0 where
  pub request : RequestData
  pub parse_state : ParseState

-- `Parser::new`
abbrev pub new_parser : Parser
new_parser = record { request = new_request; parse_state = method }

abbrev pub version_len : ℕ
version_len = 8

-- The bits of `a as i32 - b as i32`.
abbrev sub_i32 : ℕ → ℕ → ℕ
sub_i32 a b = (a % 2 ^ 32 + 2 ^ 32 - b % 2 ^ 32) % 2 ^ 32

-- `a as i32 - b as i32 > k`, and `< k`, for a k that is not negative.
abbrev pub gt_i32 : ℕ → ℕ → ℕ → Bool
gt_i32 a b k = ltb (sub_i32 a b) (2 ^ 31) && ltb k (sub_i32 a b)

abbrev pub lt_i32 : ℕ → ℕ → ℕ → Bool
lt_i32 a b k = leb (2 ^ 31) (sub_i32 a b) || ltb (sub_i32 a b) k

pub data VersionError : Type 0 where
  wrong_len wrong_text unsupported : VersionError

pub data VersionRead : Type 0 where
  ok : HttpVersion → VersionRead
  err : VersionError → VersionRead

unfoldable pub version_from_data : Bytes → VersionRead
version_from_data bytes =
    if not (length bytes == version_len)
    then err wrong_len
    else if not (bytes_eq (slice bytes 0 5) (codes "HTTP/"))
    then err wrong_text
    else if bytes_eq (drop 5 bytes) (codes "1.1")
    then ok http1_1
    else if bytes_eq (drop 5 bytes) (codes "1.0")
    then ok http1_0
    else err unsupported

unfoldable pub header_is_connection_type : Header → Option ConnectionType
header_is_connection_type h =
    if bytes_eq h.name (codes "Connection")
    then (if bytes_eq h.value (codes "keep-alive")
        then some keep_alive
        else if bytes_eq h.value (codes "close")
        then some close
        else none)
    else none

-- `Ok` of an optional length, or `ContentLengthParseError`.
pub data ContentLength : Type 0 where
  read : Option ℕ → ContentLength
  unreadable : ContentLength

-- `header.value.chars().nth(0)` is a digit; the first character of a text is a digit exactly when
-- its first byte is.
unfoldable pub first_is_digit : Bytes → Bool
first_is_digit [] = false
first_is_digit (c ∷ cs) = is_digit c

unfoldable pub header_is_content_length : Header → ContentLength
unfolding first_is_digit
header_is_content_length h =
    if bytes_eq h.name (codes "Content-Length")
    then (if not (first_is_digit h.value)
        then unreadable
        else elim (parse_usize h.value) [ none ↦ unreadable | some n ↦ read (some n) ])
    else read none
