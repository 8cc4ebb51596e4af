-- ===== src/Request.antt =====
-- src/request.rs: the data of a request (`RequestData`, `Header`, `HttpVersion`, `ConnectionType`,
-- `RequestError`) and its accessors.
mod Tests
use anweb.Prelude.{
  ℕ, Bool, true, false, ◌||◌, Option, none, some, List, [], ◌∷◌, ◌++◌, ltb, ◌==◌, if◌then◌else◌,
  length, slice, codes, Bytes, bytes_eq,
}
use anweb.Text.{from_utf8}

pub record Header : Type 0 where
  pub name : Bytes
  pub value : Bytes

pub data ConnectionType : Type 0 where
  keep_alive close : ConnectionType

pub data HttpVersion : Type 0 where
  http1_0 http1_1 : HttpVersion

pub data RequestError : Type 0 where
  partial request_line : RequestError
  method_len_limit path_len_limit query_len_limit : RequestError
  wrong_version unsupported_protocol : RequestError
  wrong_header empty_header_name version_len_limit : RequestError
  headers_count_limit header_name_len_limit header_value_len_limit : RequestError
  pipelining_requests_limit content_length_limit content_length_parse_error : RequestError

pub record RequestData : Type 0 where
  pub raw : Bytes
  pub method_end_index : ℕ
  pub path_indices : ℕ × ℕ
  pub raw_query_indices : ℕ × ℕ
  pub version : HttpVersion
  pub headers : List Header
  pub connection_type : Option ConnectionType
  pub content_len : Option ℕ
  pub decoded_path : Bytes

-- `RequestData::new`
abbrev pub new_request : RequestData
new_request = record {
  raw = [];
  method_end_index = 0;
  path_indices = (0, 0);
  raw_query_indices = (0, 0);
  version = http1_0;
  headers = [];
  connection_type = none;
  content_len = none;
  decoded_path = [];
}

abbrev text_or_empty : Option Bytes → Bytes
text_or_empty none = []
text_or_empty (some s) = s

-- `RequestData::method`
pub method : RequestData → Bytes
method r =
    if ltb (length r.raw) r.method_end_index
    then []
    else text_or_empty (from_utf8 (slice r.raw 0 r.method_end_index))

pub raw_method : RequestData → Bytes
raw_method r =
    if ltb (length r.raw) r.method_end_index then [] else slice r.raw 0 r.method_end_index

-- The test that `raw_path` and `raw_query` share.
abbrev part_of_raw : RequestData → ℕ × ℕ → Bytes
part_of_raw r (lo, hi) = if ltb hi lo || ltb (length r.raw) hi then [] else slice r.raw lo hi

pub raw_path : RequestData → Bytes
raw_path r = part_of_raw r r.path_indices

pub raw_query : RequestData → Bytes
raw_query r = part_of_raw r r.raw_query_indices

-- `self.headers.iter().find(|header| header.name == name)`
find_header : List Header → Bytes → Option Bytes
unfolding bytes_eq
find_header [] name = none
find_header (h ∷ hs) name = if bytes_eq h.name name then some h.value else find_header hs name

unfoldable pub header_value : RequestData → Bytes → Option Bytes
unfolding find_header
header_value r name = find_header r.headers name

-- `RequestData::content_len`
unfoldable pub content_len_or_zero : RequestData → ℕ
content_len_or_zero r = elim r.content_len [ none ↦ 0 | some n ↦ n ]

unfoldable pub has_post_form : RequestData → Bool
unfolding header_value bytes_eq
has_post_form r = elim r.content_len [
  | none ↦ false
  | some n ↦ elim (header_value r (codes "Content-Type")) [
    | none ↦ false
    | some value ↦ bytes_eq value (codes "application/x-www-form-urlencoded")
  ]
]

-- `HttpVersion::to_string_for_response`
unfoldable pub to_string_for_response : HttpVersion → Bytes
to_string_for_response http1_0 = codes "HTTP/1.0"
to_string_for_response http1_1 = codes "HTTP/1.1"

-- The `Display` of `Header`.
unfoldable pub display_header : Header → Bytes
display_header h = h.name ++ (codes ": " ++ (h.value ++ codes "\r\n"))
