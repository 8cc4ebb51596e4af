-- ===== src/RequestParser/Tests.antt =====
-- Runs of the request parser on small inputs.
use anweb.Prelude.{◌≡◌, refl, Option, some, [], ◌∷◌, ◌++◌, arith, Bytes, codes, bytes_eq}
use anweb.RequestParser.{header_is_content_length}
use anweb.RequestParser.HeaderLine.{IsPlain}
use anweb.RequestParser.Printed.{Head, IsPrintable, print_head, parsed}
use anweb.RequestParser.RoundTrip.{push-print_head}
use anweb.RequestParser.Chunks.{resume, push-append}
use anweb.RequestParser.Limits.{IsWithin}
use anweb.RequestParser.Accepted.{push-IsWithin}
use anweb.RequestParser.Panics.{push-panic}
use anweb.Text.{is_utf8, parse_usize}
use anweb.Request.{RequestData, http1_1, keep_alive, Header, content_length_parse_error}
use anweb.RequestParser.{new_parser, default_settings, ready, panic, failed, step_in, scan, push}

abbrev plain : Bytes → Option Bytes
plain b = some b

abbrev get : Bytes
get = codes "GET /a?x=1 HTTP/1.1\r\nConnection: keep-alive\r\nContent-Length: 12\r\n\r\nrest"

abbrev header : Bytes → Bytes → Header
header n v = record { name = n; value = v }

abbrev got : RequestData
got = record {
  raw = codes "GET /a?x=1 HTTP/1.1\r\nConnection: keep-alive\r\nContent-Length: 12\r\n\r\n";
  method_end_index = 3;
  path_indices = (4, 6);
  raw_query_indices = (7, 10);
  version = http1_1;
  headers =
      header (codes "Connection") (codes "keep-alive")
      ∷ header (codes "Content-Length") (codes "12")
      ∷ [];
  connection_type = some keep_alive;
  content_len = some 12;
  decoded_path = codes "/a";
}

push-get : push default_settings plain new_parser get ≡ ready new_parser got (codes "rest")
unfolding push scan step_in bytes_eq is_utf8 parse_usize
push-get = refl

-- A line feed right behind the space that ends the path.
push_panics : push default_settings plain new_parser (codes "GET / \n") ≡ panic
unfolding push scan step_in bytes_eq
push_panics = refl

push_bad_length :
    push default_settings plain new_parser (codes "GET / HTTP/1.1\r\nContent-Length: +1\r\n\r\n")
    ≡ failed content_length_parse_error
unfolding push scan step_in bytes_eq is_utf8 parse_usize
push_bad_length = refl

abbrev pub get_head : Head
get_head = record {
  verb = codes "GET";
  target = codes "/a";
  query = some (codes "x=1");
  version = http1_1;
  headers = header (codes "Host") (codes "h") ∷ header (codes "Content-Length") (codes "12") ∷ [];
}

pub get_head-IsPrintable : IsPrintable default_settings get_head
unfolding is_utf8 header_is_content_length bytes_eq parse_usize
get_head-IsPrintable = record {
  verb_bytes = omega arith;
  verb_within = omega arith;
  target_bytes = omega arith;
  target_within = omega arith;
  query_fits = omega arith;
  headers_plain = (host_plain, (length_plain, tt));
  headers_within = omega arith;
}
  where
    host_plain : IsPlain default_settings (header (codes "Host") (codes "h"))
    host_plain = record {
      name_text = refl;
      value_text = refl;
      name_bytes = omega arith;
      value_bytes = omega arith;
      name_some = omega arith;
      value_some = omega arith;
      name_within = omega arith;
      value_within = omega arith;
      length_readable = λ e. cc;
    }

    length_plain : IsPlain default_settings (header (codes "Content-Length") (codes "12"))
    length_plain = record {
      name_text = refl;
      value_text = refl;
      name_bytes = omega arith;
      value_bytes = omega arith;
      name_some = omega arith;
      value_some = omega arith;
      name_within = omega arith;
      value_within = omega arith;
      length_readable = λ e. cc;
    }

push-print_head_example :
    push default_settings plain new_parser (print_head get_head (codes "rest"))
    ≡ ready new_parser (parsed plain get_head) (codes "rest")
push-print_head_example =
    push-print_head default_settings plain (omega arith) (omega arith) get_head get_head-IsPrintable
      (codes "rest")

push-append_example :
    push default_settings plain new_parser (codes "GET /" ++ codes "a HTTP/1.1")
    ≡ resume default_settings plain
        (push default_settings plain new_parser (codes "GET /"))
        (codes "a HTTP/1.1")
push-append_example =
    push-append default_settings plain new_parser (codes "GET /") (codes "a HTTP/1.1") tt

push-IsWithin_example : IsWithin default_settings got × (got.raw ++ codes "rest" ≡ get)
push-IsWithin_example =
    push-IsWithin default_settings plain
      (record { header_name = omega arith; header_value = omega arith }) get push-get

push-panic_example : push default_settings plain new_parser (codes "GET / \nmore") ≡ panic
push-panic_example =
    push-panic default_settings plain (codes "GET") (codes "/") (codes "more") (omega arith)
      (omega arith) (omega arith) (omega arith) (omega arith) (omega arith)
