-- ===== src/RequestParser/RoundTrip.antt =====
-- `Parser::push` reads a request head that is printed by the grammar of HTTP/1.
use anweb.Prelude.{
  ℕ, ◌+◌, ◌^◌, ◌<◌, ◌≡◌, refl, sym, ap, ap₂, ◌∙◌, arith, Option, none, some, [], ◌∷◌, ◌++◌,
  append_assoc, append-nil, length, Bytes, slice, take, drop, codes, length-append,
  take-append-length, drop-append-length,
}
use anweb.Request.{RequestData, new_request, to_string_for_response}
use anweb.RequestParser.{
  ParseState, path, query, version, Settings, Parser, new_parser, ended, ready, push, finish,
  step_in, scan,
}
use anweb.RequestParser.Parts.{
  InMethod, InPath, slice-middle, scan_stay, scan_next, method_stays, path_stays, query_stays,
}
use anweb.RequestParser.Headers.{print_headers, noted, noted_lem}
use anweb.RequestParser.Printed.{
  Head, print_query, print_head, QueryFits, IsPrintable, query_start, query_indices, parsed,
  print_query-append, print_head-append,
}
use anweb.RequestParser.Version.{version_line, scan_version, decoded_onto, pathed, path_end}

module _ (settings : Settings) (percent_decode : Bytes → Option Bytes)
    (name_u16 : settings.header_name_len < 2 ^ 16)
    (value_u16 : settings.header_value_len < 2 ^ 16) where
  module _ (head : Head) (printable : IsPrintable settings head) (rest : Bytes) where
    abbrev start : Parser
    start = record new_parser { request = record new_request { raw = print_head head rest } }

    abbrev a : ℕ
    a = length head.verb

    abbrev b : ℕ
    b = a + 1 + length head.target

    abbrev after_verb : Parser
    after_verb = record {
      request = record start.request { method_end_index = a };
      parse_state = path (a + 1);
    }

    abbrev behind_version : Bytes
    behind_version =
        to_string_for_response head.version ++ (codes "\r\n" ++ print_headers head.headers rest)

    abbrev behind_target : Bytes
    behind_target = print_query head.query (b' ' ∷ behind_version)

    scan_verb_target :
        scan settings percent_decode 0 (print_head head rest) start
        ≡ scan settings percent_decode b behind_target after_verb
    scan_verb_target =
        scan_stay settings percent_decode InMethod start head.verb _ 0 a
          (λ k c lo hi inside.
            method_stays settings percent_decode k c start refl
              (omega (arith, printable.verb_within)) inside)
          printable.verb_bytes (omega arith)
        ∙ scan_next settings percent_decode a b' ' _ start {q = after_verb} (unfold step_in in refl)
        ∙ scan_stay settings percent_decode InPath after_verb head.target behind_target (a + 1) b
            (λ k c lo hi inside.
              path_stays settings percent_decode k c after_verb (a + 1) refl
                (omega (arith, printable.target_within)) (omega (arith, printable.target_within))
                inside)
            printable.target_bytes refl

    target_read : slice (print_head head rest) (a + 1) b ≡ head.target
    target_read =
        slice-middle (print_head head rest) (head.verb ++ b' ' ∷ []) head.target behind_target
          (a + 1) b (simp append_assoc) (omega (arith, length-append head.verb (b' ' ∷ []))) refl

    -- The loop ends behind the head, with this request.
    abbrev Ended : ℕ → RequestData → Type 0
    Ended n r =
        (q : Parser) × (scan settings percent_decode 0 (print_head head rest) start ≡ ended q n)
        × (q.request ≡ r)

    abbrev pathed_target : ParseState → Parser
    pathed_target s =
        pathed settings percent_decode name_u16 value_u16 after_verb.request (a + 1) b head.target s

    Ended-plain :
        head.query ≡ none
        → Ended (b + 1 + 10 + length (print_headers head.headers [])) (
            noted
              (record (pathed_target (version (b + 1))).request { version = head.version })
              head.headers)
    Ended-plain none_given =
        let p = pathed_target (version (b + 1)) in
        let front = head.verb ++ (b' ' ∷ (head.target ++ b' ' ∷ [])) in
        let given : behind_target ≡ b' ' ∷ behind_version =
          ap (λ q. print_query q (b' ' ∷ behind_version)) none_given in
        let (q, ends, same) =
          scan_version settings percent_decode name_u16 value_u16 head.version head.headers p front
            rest (b + 1)
            (ap (λ t. head.verb ++ (b' ' ∷ (head.target ++ t))) given ∙ simp append_assoc)
            (omega (
              arith,
              length-append head.verb (b' ' ∷ (head.target ++ b' ' ∷ [])),
              length-append head.target (b' ' ∷ []),
            ))
            refl printable.headers_plain (omega (arith, printable.headers_within)) in
        (
          q,
          scan_verb_target
              ∙ ap (λ t. scan settings percent_decode b t after_verb) given
              ∙ scan_next settings percent_decode b b' ' behind_version after_verb
                  (path_end settings percent_decode name_u16 value_u16 after_verb (a + 1) b
                    head.target target_read).0
              ∙ ends,
          same,
        )

    abbrev queried : ℕ → ParseState → Parser
    queried c s = record {
      request = record (pathed_target s).request { raw_query_indices = (b + 1, c) };
      parse_state = s;
    }

    Ended-query :
        (given : Bytes)
        → head.query ≡ some given
        → let c = b + 1 + length given in
          Ended (c + 1 + 10 + length (print_headers head.headers [])) (
            noted
              (record (queried c (version (c + 1))).request { version = head.version })
              head.headers)
    Ended-query given some_given =
        let c = b + 1 + length given in
        let p = pathed_target (query (b + 1)) in
        let p' = queried c (version (c + 1)) in
        let front = head.verb ++ (b' ' ∷ (head.target ++ (b'?' ∷ (given ++ b' ' ∷ [])))) in
        let is_given : behind_target ≡ b'?' ∷ (given ++ (b' ' ∷ behind_version)) =
          ap (λ q. print_query q (b' ' ∷ behind_version)) some_given in
        let fits : QueryFits settings (some given) = rw some_given at (printable.query_fits) in
        let (q, ends, same) =
          scan_version settings percent_decode name_u16 value_u16 head.version head.headers p' front
            rest (c + 1)
            (ap (λ t. head.verb ++ (b' ' ∷ (head.target ++ t))) is_given ∙ simp append_assoc)
            (omega (
              arith,
              length-append head.verb (b' ' ∷ (head.target ++ (b'?' ∷ (given ++ b' ' ∷ [])))),
              length-append head.target (b'?' ∷ (given ++ b' ' ∷ [])),
              length-append given (b' ' ∷ []),
            ))
            refl printable.headers_plain (omega (arith, printable.headers_within)) in
        (
          q,
          scan_verb_target
              ∙ ap (λ t. scan settings percent_decode b t after_verb) is_given
              ∙ scan_next settings percent_decode b b'?' _ after_verb
                  (path_end settings percent_decode name_u16 value_u16 after_verb (a + 1) b
                    head.target target_read).1
              ∙ scan_stay settings percent_decode InMethod p given (b' ' ∷ behind_version) (b + 1) c
                  (λ k d lo hi inside.
                    query_stays settings percent_decode k d p (b + 1) refl (omega (arith, fits.1))
                      (omega (arith, fits.1)) inside)
                  fits.0 refl
              ∙ scan_next settings percent_decode c b' ' behind_version p {q = p'}
                  (unfold step_in in refl)
              ∙ ends,
          same,
        )

    -- The request of the request line alone.
    abbrev lined : Option Bytes → RequestData
    lined asked =
        record (decoded_onto settings percent_decode name_u16 value_u16 after_verb.request (a + 1) b
          head.target) {
            raw_query_indices = query_indices asked (query_start head);
            version = head.version;
          }

    abbrev line_length : Option Bytes → ℕ
    line_length asked = b + length (print_query asked []) + 1 + 10

    Ended-line :
        (asked : Option Bytes)
        → head.query ≡ asked
        → Ended
            (line_length asked + length (print_headers head.headers []))
            (noted (lined asked) head.headers)
    Ended-line none e =
        let (q, ends, same) = Ended-plain e in (q, ends ∙ ap (ended q) (omega arith), same)
    Ended-line (some given) e =
        let (q, ends, same) = Ended-query given e in
        (q, ends ∙ ap (ended q) (omega (arith, ap length (append-nil given))), same)

    length_head :
        length (print_head head [])
        ≡ line_length head.query + length (print_headers head.headers [])
    length_head = omega (
      arith,
      length-append head.verb (
          b' ' ∷ (head.target ++ print_query head.query (b' ' ∷ (text ++ (codes "\r\n" ++ tail))))),
      length-append head.target (print_query head.query (b' ' ∷ (text ++ (codes "\r\n" ++ tail)))),
      ap length (print_query-append head.query [] (b' ' ∷ (text ++ (codes "\r\n" ++ tail)))),
      length-append (print_query head.query []) (b' ' ∷ (text ++ (codes "\r\n" ++ tail))),
      length-append text (codes "\r\n" ++ tail),
      (version_line settings percent_decode name_u16 value_u16 head.version).1,
    )
      where
        text : Bytes
        text = to_string_for_response head.version

        tail : Bytes
        tail = print_headers head.headers []

    Ended-head :
        Ended
          (length (print_head head []))
          (record (parsed percent_decode head) { raw = print_head head rest })
    Ended-head =
        let (q, ends, same) = Ended-line head.query refl in
        (q, ends ∙ ap (ended q) (sym length_head), same ∙ noted_lem (lined head.query) head.headers)

    -- A head that the grammar and the limits allow, in front of anything, is read as the request that
    -- it stands for, and what stands behind it is the surplus.
    pub push-print_head :
        push settings percent_decode new_parser (print_head head rest)
        ≡ ready new_parser (parsed percent_decode head) rest
    unfolding push finish
    push-print_head =
        let (q, ends, same) = Ended-head in
        let n = length (print_head head []) in
        let raw : q.request.raw ≡ print_head head [] ++ rest =
          ap (λ r. r.raw) same ∙ print_head-append head rest in
        ap (finish settings percent_decode) ends
        ∙ ap₂ (λ r bytes. ready new_parser (record r { raw = take n bytes }) (drop n bytes)) same
            raw
        ∙ rw (
          take-append-length (print_head head []) rest n refl,
          drop-append-length (print_head head []) rest n refl,
        )
