-- ===== src/Response/Tests.antt =====
-- Runs of the response builder, and the theorems at concrete responses.
use anweb.Prelude.{◌≡◌, refl, arith, not, some, codes, bytes_eq}
use anweb.Request.{new_request, http1_1}
use anweb.RequestParser.{header_is_content_length, read}
use anweb.Response.{
  Response, new_response, set_text, set_location, set_close, connection_str,
  need_close_after_response, decimal, response_data,
}
use anweb.Response.Codes.{http_status_code_with_name}
use anweb.Response.Statuses.{http_status_code_with_name-entry}
use anweb.Response.Content.{header_is_content_length-decimal}
use anweb.Response.Connection.{need_close_after_response-eq-not}

abbrev moved : Response
moved =
    set_location
      (set_text (new_response 302 (record new_request { version = http1_1 })) (codes "bye"))
      (codes "/home")

moved_written :
    response_data (codes "now") moved
    ≡ codes
        "HTTP/1.1 302 Found\r\nDate: now\r\nConnection: keep_alive\r\nContent-Length: 3\r\nContent-Type: text/plain; charset=utf-8\r\nLocation: /home\r\n\r\nbye"
unfolding response_data
moved_written = refl

decimal_example : decimal 120405 ≡ codes "120405"
unfolding decimal
decimal_example = refl

unknown_code : http_status_code_with_name 299 ≡ codes ""
unfolding http_status_code_with_name
unknown_code = refl

http_status_code_with_name-entry_example : http_status_code_with_name 404 ≡ codes "404 Not Found"
http_status_code_with_name-entry_example =
    http_status_code_with_name-entry 27 404 (codes "404 Not Found") refl

header_is_content_length-decimal_example :
    header_is_content_length (record { name = codes "Content-Length"; value = decimal 120405 })
    ≡ read (some 120405)
header_is_content_length-decimal_example = header_is_content_length-decimal 120405 (omega arith)

need_close_after_response-eq-not_example :
    need_close_after_response (set_close moved)
    ≡ not (bytes_eq (connection_str (set_close moved)) (codes "Connection: keep_alive\r\n"))
need_close_after_response-eq-not_example = need_close_after_response-eq-not (set_close moved)
