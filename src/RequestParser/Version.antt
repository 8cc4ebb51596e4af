-- ===== src/RequestParser/Version.antt =====
-- How `Parser::push` reads the end of the path, and the version with all that follows it.
use anweb.Prelude.{
  ℕ, ◌+◌, ◌-◌, ◌^◌, ◌≤◌, ◌<◌, ◌≡◌, refl, ap, ◌∙◌, arith, Option, none, some, List, [], ◌∷◌, ◌++◌,
  append_assoc, length, Bytes, slice, codes, length-append,
}
use anweb.Request.{RequestData, Header, HttpVersion, http1_0, http1_1, to_string_for_response}
use anweb.RequestParser.{
  ParseState, path, query, version, header, Settings, Parser, next, ended, step_in, scan,
  decode_path,
}
use anweb.RequestParser.Parts.{Each, InLine, slice-middle, scan_stay, scan_next, version_stays}
use anweb.RequestParser.Headers.{print_headers, EachPlain, noted, scan-headers}

module _ (settings : Settings) (percent_decode : Bytes → Option Bytes)
    (name_u16 : settings.header_name_len < 2 ^ 16)
    (value_u16 : settings.header_value_len < 2 ^ 16) where
  version_end :
      (v : HttpVersion) (p : Parser) (front rest : Bytes) (i : ℕ)
      → p.request.raw ≡ front ++ (to_string_for_response v ++ rest)
      → i ≡ length front
      → step_in settings percent_decode (version i) (i + 9) b'\n' p
        ≡ next (record {
          request = record p.request { version = v };
          parse_state = header (i + 9 + 1) 0;
        })
  unfolding step_in to_string_for_response
  version_end http1_0 p front rest i whole at =
      let read : slice p.request.raw i (i + 9 - 1) ≡ codes "HTTP/1.0" =
        slice-middle p.request.raw front (codes "HTTP/1.0") rest i (i + 9 - 1) whole at
          (omega arith) in
      ground (arith, read)
  version_end http1_1 p front rest i whole at =
      let read : slice p.request.raw i (i + 9 - 1) ≡ codes "HTTP/1.1" =
        slice-middle p.request.raw front (codes "HTTP/1.1") rest i (i + 9 - 1) whole at
          (omega arith) in
      ground (arith, read)

  pub version_line :
      (v : HttpVersion)
      → (Each InLine (to_string_for_response v ++ b'\r' ∷ []))
        × (length (to_string_for_response v) ≡ 8)
  unfolding to_string_for_response
  version_line http1_0 = omega arith
  version_line http1_1 = omega arith

  -- From the version on.
  pub scan_version :
      (v : HttpVersion) (hs : List Header) (p : Parser) (front rest : Bytes) (i : ℕ)
      → p.request.raw
        ≡ front ++ (to_string_for_response v ++ (codes "\r\n" ++ print_headers hs rest))
      → i ≡ length front
      → p.parse_state ≡ version i
      → EachPlain settings hs
      → length p.request.headers + length hs ≤ settings.headers_count
      → (q : Parser) × (scan settings percent_decode i
            (to_string_for_response v ++ (codes "\r\n" ++ print_headers hs rest))
            p
          ≡ ended q (i + 10 + length (print_headers hs [])))
        × (q.request ≡ noted (record p.request { version = v }) hs)
  scan_version v hs p front rest i whole at state plain room =
      let text = to_string_for_response v in
      let behind = print_headers hs rest in
      let p' : Parser = record {
        request = record p.request { version = v };
        parse_state = header (i + 9 + 1) 0;
      } in
      let (bytes, eight) = version_line v in
      let split : text ++ (codes "\r\n" ++ behind) ≡ (text ++ b'\r' ∷ []) ++ (b'\n' ∷ behind) =
        simp append_assoc in
      let whole' : p.request.raw ≡ ((front ++ text) ++ codes "\r\n") ++ behind =
        whole ∙ simp append_assoc in
      let at' : i + 9 + 1 ≡ length ((front ++ text) ++ codes "\r\n") =
        omega
          (arith, eight, length-append (front ++ text) (codes "\r\n"), length-append front text) in
      let (q, ends, same) =
        scan-headers settings percent_decode name_u16 value_u16 hs p' (front ++ text) rest
          (i + 9 + 1) whole' at' (omega arith) refl plain room in
      (
        q,
        ap (λ b. scan settings percent_decode i b p) split
            ∙ scan_stay settings percent_decode InLine p (text ++ b'\r' ∷ []) (b'\n' ∷ behind) i
                (i + 9)
                (λ k c lo hi inside.
                  version_stays settings percent_decode k c p i state lo (omega arith) inside)
                bytes (omega (arith, eight, length-append text (b'\r' ∷ [])))
            ∙ scan_next settings percent_decode (i + 9) b'\n' behind p (
                ap (λ s. step_in settings percent_decode s (i + 9) b'\n' p) state
                ∙ version_end v p front (codes "\r\n" ++ behind) i whole at)
            ∙ ends
            ∙ ap (ended q) (omega arith),
        same,
      )

  abbrev pub decoded_onto : RequestData → ℕ → ℕ → Bytes → RequestData
  decoded_onto r lo hi target = record r {
    path_indices = (lo, hi);
    decoded_path = elim (percent_decode target) [ none ↦ r.decoded_path | some decoded ↦ decoded ];
  }

  decode_path_lem :
      (r : RequestData) (lo hi : ℕ) (target : Bytes)
      → slice r.raw lo hi ≡ target
      → decode_path settings percent_decode lo hi r ≡ decoded_onto r lo hi target
  unfolding decode_path
  decode_path_lem r lo hi target e = ground arith

  abbrev pub pathed : RequestData → ℕ → ℕ → Bytes → ParseState → Parser
  pathed r lo hi target s = record { request = decoded_onto r lo hi target; parse_state = s }

  -- The byte behind the path: a space, or a question mark.
  pub path_end :
      (p : Parser) (lo hi : ℕ) (target : Bytes)
      → slice p.request.raw lo hi ≡ target
      → (step_in settings percent_decode (path lo) hi b' ' p
          ≡ next (pathed p.request lo hi target (version (hi + 1))))
        × (step_in settings percent_decode (path lo) hi b'?' p
            ≡ next (pathed p.request lo hi target (query (hi + 1))))
  unfolding step_in
  path_end p lo hi target e =
      let read = decode_path_lem p.request lo hi target e in
      (
        ap (λ r. next (record { request = r; parse_state = version (hi + 1) })) read,
        ap (λ r. next (record { request = r; parse_state = query (hi + 1) })) read,
      )
