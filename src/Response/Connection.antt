-- ===== src/Response/Connection.antt =====
-- What a response says of the connection, and what the server does with it.
use anweb.Prelude.{◌≡◌, not, codes, bytes_eq, arith}
use anweb.Response.{
  Response, connection_str, need_close_after_response, need_close_by_request,
  connection_str_by_request,
}

-- The session is closed after a response exactly where the response does not promise to keep it:
-- its connection line is not "Connection: keep_alive".
pub need_close_after_response-eq-not :
    (r : Response)
    → need_close_after_response r
      ≡ not (bytes_eq (connection_str r) (codes "Connection: keep_alive\r\n"))
unfolding need_close_after_response connection_str need_close_by_request connection_str_by_request
    bytes_eq
need_close_after_response-eq-not r = ground arith
