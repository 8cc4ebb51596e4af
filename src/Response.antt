-- ===== src/Response.antt =====
-- src/response.rs: `Response`, its builder functions, the message that `try_send` writes and
-- whether it closes the session. The date of the server's clock is a parameter.
mod Codes
mod Statuses
mod Content
mod Connection
mod Tests
use anweb.Prelude.{
  ℕ, zero, suc, ◌+◌, ◌/◌, ◌%◌, Bool, true, false, not, Option, none, some, List, [], ◌∷◌, ◌++◌, ltb,
  if◌then◌else◌, length, codes, Bytes,
}
use anweb.Request.{
  RequestData, ConnectionType, keep_alive, close, HttpVersion, http1_0, http1_1,
  to_string_for_response,
}
use anweb.Response.Codes.{http_status_code_with_name}

pub record Response : Type 0 where
  pub code : ℕ
  pub content_type : Bytes
  pub content : Bytes
  pub keep_alive_connection : Option Bool
  pub headers : Option Bytes
  pub cookies : Option Bytes
  pub location : Option Bytes
  pub request : RequestData

-- `Response::new`
abbrev pub new_response : ℕ → RequestData → Response
new_response code request = record {
  code = code;
  content_type = [];
  content = [];
  keep_alive_connection = none;
  headers = none;
  cookies = none;
  location = none;
  request = request;
}

abbrev set_content : Response → Bytes → Bytes → Response
set_content r content_type content = record r { content_type = content_type; content = content }

abbrev pub set_text : Response → Bytes → Response
set_text r text = record r {
  content_type = codes "Content-Type: text/plain; charset=utf-8\r\n";
  content = text;
}

abbrev set_html : Response → Bytes → Response
set_html r html = record r {
  content_type = codes "Content-Type: text/html; charset=utf-8\r\n";
  content = html;
}

abbrev set_wasm : Response → Bytes → Response
set_wasm r wasm_data = record r {
  content_type = codes "Content-Type: application/wasm\r\n";
  content = wasm_data;
}

abbrev set_keep_alive : Response → Response
set_keep_alive r = record r { keep_alive_connection = some true }

abbrev pub set_close : Response → Response
set_close r = record r { keep_alive_connection = some false }

abbrev set_headers : Response → Bytes → Response
set_headers r h = record r { headers = some h }

abbrev set_cookies : Response → Bytes → Response
set_cookies r c = record r { cookies = some c }

abbrev pub set_location : Response → Bytes → Response
set_location r l = record r { location = some l }

unfoldable pub connection_str_by_request : RequestData → Bytes
connection_str_by_request request = elim request.connection_type [
  | some keep_alive ↦ codes "Connection: keep_alive\r\n"
  | some close ↦ codes "Connection: close\r\n"
  | none ↦ elim request.version [ http1_1 ↦ codes "Connection: keep_alive\r\n" | http1_0 ↦ [] ]
]

-- `Response::connection_str`
unfoldable pub connection_str : Response → Bytes
unfolding connection_str_by_request
connection_str r = elim r.keep_alive_connection [
  | some true ↦ codes "Connection: keep_alive\r\n"
  | some false ↦ codes "Connection: close\r\n"
  | none ↦ connection_str_by_request r.request
]

unfoldable pub need_close_by_request : RequestData → Bool
need_close_by_request request = elim request.connection_type [
  | some keep_alive ↦ false
  | some close ↦ true
  | none ↦ elim request.version [ http1_0 ↦ true | http1_1 ↦ false ]
]

-- `need_close_after_response` in `Response::try_send`
unfoldable pub need_close_after_response : Response → Bool
unfolding need_close_by_request
need_close_after_response r = elim r.keep_alive_connection [
  | some keep_alive_connection ↦ not keep_alive_connection
  | none ↦ need_close_by_request r.request
]

-- The digits of a number in front of what is written behind it; the fuel bounds their count.
unfoldable pub digits_before : ℕ → ℕ → Bytes → Bytes
digits_before zero n rest = rest
digits_before (suc fuel) n rest =
    let longer = digits_before fuel (n / 10) ((b'0' + n % 10) ∷ rest) in
    if ltb n 10 then (b'0' + n) ∷ rest else longer

-- The `Display` of `usize`, which has at most twenty digits.
unfoldable pub decimal : ℕ → Bytes
unfolding digits_before
decimal n = digits_before 20 n []

abbrev text_or_empty : Option Bytes → Bytes
text_or_empty none = []
text_or_empty (some text) = text

abbrev location_line : Option Bytes → Bytes
location_line none = []
location_line (some l) = codes "Location: " ++ (l ++ codes "\r\n")

-- The bytes that `Response::try_send` hands to the session, with the date given.
unfoldable pub response_data : Bytes → Response → Bytes
unfolding to_string_for_response connection_str decimal http_status_code_with_name
response_data date r =
    to_string_for_response r.request.version
    ++ (codes " "
        ++ (http_status_code_with_name r.code
            ++ (codes "\r\nDate: "
                ++ (date
                    ++ (codes "\r\n"
                        ++ (connection_str r
                            ++ (codes "Content-Length: "
                                ++ (decimal (length r.content)
                                    ++ (codes "\r\n"
                                        ++ (r.content_type
                                            ++ (text_or_empty r.headers
                                                ++ (text_or_empty r.cookies
                                                    ++ (location_line r.location
                                                        ++ (codes "\r\n" ++ r.content))))))))))))))
