-- ===== src/RequestParser/Printed.antt =====
-- The heads of requests as they are printed by the grammar of HTTP/1, and what they stand for.
use anweb.Prelude.{
  ℕ, ◌+◌, ◌≤◌, ◌≡◌, refl, ap, ◌∙◌, Option, none, some, List, [], ◌∷◌, ◌++◌, append_assoc, length,
  Bytes, codes,
}
use anweb.Request.{RequestData, Header, HttpVersion, display_header, to_string_for_response}
use anweb.RequestParser.{Settings, header_is_connection_type}
use anweb.RequestParser.Parts.{Each, InMethod, InPath}
use anweb.RequestParser.HeaderLine.{length_of}
use anweb.RequestParser.Headers.{print_headers, EachPlain, first_of}

pub record Head : Type 0 where
  pub verb : Bytes
  pub target : Bytes
  pub query : Option Bytes
  pub version : HttpVersion
  pub headers : List Header

abbrev pub print_query : Option Bytes → Bytes → Bytes
print_query none rest = rest
print_query (some q) rest = b'?' ∷ (q ++ rest)

-- The head in front of `rest`: the request line, the headers, an empty line.
abbrev pub print_head : Head → Bytes → Bytes
print_head head rest =
    head.verb
    ++ (b' '
        ∷ (head.target
            ++ print_query head.query (
                b' '
                ∷ (to_string_for_response head.version
                    ++ (codes "\r\n" ++ print_headers head.headers rest)))))

abbrev pub QueryFits : Settings → Option Bytes → Type 0
QueryFits settings none = Unit
QueryFits settings (some q) = Each InMethod q × (length q ≤ settings.query_len)

-- A head that the grammar and the limits allow.
pub record IsPrintable (settings : Settings) (head : Head) : Type 0 where
  pub verb_bytes : Each InMethod head.verb
  pub verb_within : length head.verb ≤ settings.method_len
  pub target_bytes : Each InPath head.target
  pub target_within : length head.target ≤ settings.path_len
  pub query_fits : QueryFits settings head.query
  pub headers_plain : EachPlain settings head.headers
  pub headers_within : length head.headers ≤ settings.headers_count

abbrev pub query_start : Head → ℕ
query_start head = length head.verb + 1 + length head.target + 1

abbrev pub query_indices : Option Bytes → ℕ → ℕ × ℕ
query_indices none start = (0, 0)
query_indices (some q) start = (start, start + length q)

-- The request that the head stands for.
abbrev pub parsed : (Bytes → Option Bytes) → Head → RequestData
parsed percent_decode head = record {
  raw = print_head head [];
  method_end_index = length head.verb;
  path_indices = (length head.verb + 1, length head.verb + 1 + length head.target);
  raw_query_indices = query_indices head.query (query_start head);
  version = head.version;
  headers = head.headers;
  connection_type = first_of header_is_connection_type head.headers;
  content_len = first_of length_of head.headers;
  decoded_path = elim (percent_decode head.target) [ none ↦ [] | some decoded ↦ decoded ];
}

pub print_query-append :
    (q : Option Bytes) (xs ys : Bytes) → print_query q (xs ++ ys) ≡ print_query q xs ++ ys
print_query-append none xs ys = refl
print_query-append (some q) xs ys = simp append_assoc

print_headers-append :
    (hs : List Header) (rest : Bytes) → print_headers hs rest ≡ print_headers hs [] ++ rest
print_headers-append [] rest = refl
print_headers-append (h ∷ hs) rest =
    simp append_assoc (ap (λ b. display_header h ++ b) (print_headers-append hs rest))

pub print_head-append :
    (head : Head) (rest : Bytes) → print_head head rest ≡ print_head head [] ++ rest
print_head-append head rest =
    let text = to_string_for_response head.version in
    let tail = print_headers head.headers [] in
    ap
      (λ t.
        head.verb
        ++ (b' ' ∷ (head.target ++ print_query head.query (b' ' ∷ (text ++ (codes "\r\n" ++ t))))))
      (print_headers-append head.headers rest)
    ∙ ap (λ t. head.verb ++ (b' ' ∷ (head.target ++ print_query head.query t))) (regroup text tail)
    ∙ ap (λ t. head.verb ++ (b' ' ∷ (head.target ++ t)))
        (print_query-append head.query (b' ' ∷ (text ++ (codes "\r\n" ++ tail))) rest)
    ∙ simp append_assoc
  where
    regroup :
        (text tail : Bytes)
        → b' ' ∷ (text ++ (codes "\r\n" ++ (tail ++ rest)))
          ≡ (b' ' ∷ (text ++ (codes "\r\n" ++ tail))) ++ rest
    regroup text tail = simp append_assoc
