-- ===== src/Lib.antt =====
-- A verification library beside anweb, a small web server framework in Rust.
--
-- Bytes from a client go through two incremental parsers. `request_parser::Parser::push` reads
-- the heads of HTTP requests; after an upgrade `websocket::Parser::parse_yet` reads frames. Both
-- keep an unfinished message between the reads and hand what stands behind a finished one back.
--
--   Websocket.antt       src/websocket.rs: `frame`, `Frame`, `Parser::parse_yet`
--   Request.antt         src/request.rs: `RequestData`, `Header` and their accessors
--   RequestParser.antt   src/request_parser.rs: `Parser::push`
--   TcpSession.antt      src/tcp_session.rs: what a session sends, its queue and its closing
--   WebSession.antt      src/web_session.rs: `read_stream`, `process_data`, the callbacks' calls;
--                        `read_content` of src/request.rs
--                        WebSession/Events.antt: the events of a session in src/worker.rs, and
--                        `send_yet` with the callbacks that it tells of an error
--   Exchange.antt        what a handler sends: `Response::try_send`, `Websocket::try_send`, the
--                        websocket handshake and `form` of src/request.rs, the answer of
--                        src/redirect_server.rs
--   Multipart.antt       src/multipart.rs: `MultipartParser::new`, `push` and `find_boundary`
--   StaticFiles.antt     src/static_files.rs: the cache, its update, the answers
--   Query.antt           src/query.rs: `parse_query`, `Query::value`, `Query::value_at`
--   Cookie.antt          src/cookie.rs: the header of a cookie, `parse_cookie`
--   Response.antt        src/response.rs: the builder, the bytes sent, the table of status codes
--   Mime.antt            src/mime.rs: the table of content types and its search
--   BinarySearch.antt    what the two tables use: `binary_search_by` of the standard library
--   Text.antt            what the code uses of `str`: UTF-8, `parse::<usize>`
--   Prelude.antt         shared names, list and bit lemmas
--
-- A byte is a number below 256 and a `&str` the list of its UTF-8 bytes. Sums of `usize` wrap at
-- 2 ^ 64 where they could reach it, and the differences of `i32` in the request parser wrap at
-- 2 ^ 32. The websocket parser's loop has five rounds of fuel, one for each state, which is
-- enough from every state. The request parser's loop is a recursion on the new bytes.
-- Percent decoding (the crate percent-encoding) is a parameter of the functions that call it.
--
-- A response is handed to the session, which writes what the socket takes and queues the rest. What
-- each write takes and whether the poll accepts a registration are arguments of the operations. A write
-- that returns a count has given the socket just as many of the first bytes, and another has given it
-- none. Over TLS the code's write does not keep to this.
--
-- `WebSession::read_stream` joins the parsers and the session: it gives what is read to the parser in
-- charge and calls the user's callbacks. These are a parameter, a function from the calls so far to
-- what the callback does; what the socket's read returns is an argument. `process_data` calls itself
-- with what a message leaves over; its fuel, twice the bytes at hand and two, is enough, since each
-- call takes bytes or gives the callback for contents back.
--
-- `MultipartParser::push` has a round of fuel for each byte at hand, since every round takes some.
--
-- The disk under the static files is a parameter, what `read_dir` lists and whether a path exists, and
-- so are the compressions, MD5, dates and the extension of a path.
--
-- Not modelled: a callback that takes a lock which its caller holds. Such are a callback for contents
-- that calls `read_content` (for an empty content this takes no lock and calls the next callback at
-- once; it is left out too) and one that `send_yet` tells of an error and that sends.
--
-- Not modelled either: the thread that updates the static files; sockets, TLS, threads and polling
-- (the rest of src/worker.rs, src/server.rs, src/tls.rs) are the system's and the crates'.
pub mod Prelude
pub mod Text
pub mod BinarySearch
pub mod Request
pub mod RequestParser
pub mod Websocket
pub mod TcpSession
pub mod Response
pub mod Mime
pub mod Query
pub mod Cookie
pub mod WebSession
pub mod Exchange
pub mod Multipart
pub mod StaticFiles
