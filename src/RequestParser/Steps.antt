-- ===== src/RequestParser/Steps.antt =====
-- One byte in `Parser::push`: where the indices of the state lie, and what the step does when more of
-- the stream stands in the buffer.
use anweb.Prelude.{
  ℕ, ◌+◌, ◌-◌, ◌≤◌, ◌<◌, ◌≡◌, refl, arith, Option, ◌++◌, length, slice, Bytes, slice-append,
  get_or-append,
}
use anweb.Request.{Header}
use anweb.RequestParser.{
  ParseState, method, path, query, version, header, Settings, Parser, Step, next, found_end,
  step_in, method_step, path_step, query_step, version_step, header_step, header_line, add_header,
  version_read, decode_path, VersionRead, ok, err, wrong_len, wrong_text, unsupported,
  version_from_data, separator_found,
}

-- The indices that a state holds lie behind the next byte, `i`; a header starts after the
-- method, the path and the version.
abbrev pub Behind : ParseState → ℕ → Type 0
Behind method i = Unit
Behind (path s) i = (1 ≤ s) × (s ≤ i)
Behind (query s) i = (1 ≤ s) × (s ≤ i)
Behind (version s) i = (2 ≤ s) × (s ≤ i)
Behind (header s separator) i = (3 ≤ s) × (s ≤ i) × (separator ≤ i)

-- The step with more of the stream behind the buffer.
abbrev pub grow : Step → Bytes → Step
grow (next q) more = next (record q { request = record q.request { raw = q.request.raw ++ more } })
grow s more = s

-- The header that ends at the line feed at `i`.
abbrev pub read_header : Parser → ℕ → ℕ → ℕ → ℕ → Header
read_header p i s separator value_idx = record {
  name = slice p.request.raw s separator;
  value = slice p.request.raw value_idx (i - 1);
}

module _ (settings : Settings) (percent_decode : Bytes → Option Bytes) (i ch : ℕ) (p : Parser)
    (more : Bytes) (inside : i < length p.request.raw) where
  abbrev pub fed : Parser
  fed = record p { request = record p.request { raw = p.request.raw ++ more } }

  method-grow : method_step settings i ch fed ≡ grow (method_step settings i ch p) more
  unfolding method_step
  method-grow = ground arith

  query-grow : (s : ℕ) → query_step settings s i ch fed ≡ grow (query_step settings s i ch p) more
  unfolding query_step
  query-grow s = ground arith

  decode_path-grow :
      (s : ℕ)
      → s ≤ i
      → decode_path settings percent_decode s i fed.request
        ≡ record (decode_path settings percent_decode s i p.request) {
          raw = (decode_path settings percent_decode s i p.request).raw ++ more;
        }
  unfolding decode_path
  decode_path-grow s h = ground (arith, slice-append p.request.raw more s i)

  path-grow :
      (s : ℕ)
      → s ≤ i
      → path_step settings percent_decode s i ch fed
        ≡ grow (path_step settings percent_decode s i ch p) more
  unfolding path_step
  path-grow s h = ground (arith, decode_path-grow s h)

  version_read-grow :
      (v : VersionRead) → version_read settings v i fed ≡ grow (version_read settings v i p) more
  unfolding version_read
  version_read-grow (ok v) = refl
  version_read-grow (err wrong_len) = refl
  version_read-grow (err wrong_text) = refl
  version_read-grow (err unsupported) = refl

  version-grow :
      (s : ℕ)
      → s ≤ i
      → version_step settings s i ch fed ≡ grow (version_step settings s i ch p) more
  unfolding version_step
  version-grow s h = ground (
    arith,
    slice-append p.request.raw more s (i - 1),
    version_read-grow (version_from_data (slice p.request.raw s (i - 1))),
  )

  add_header-grow :
      (h : Header) → add_header settings h i fed ≡ grow (add_header settings h i p) more
  unfolding add_header
  add_header-grow h = ground arith

  header_line-grow :
      (s separator : ℕ)
      → s ≤ i
      → separator ≤ i
      → header_line settings s separator i fed ≡ grow (header_line settings s separator i p) more
  unfolding header_line
  header_line-grow s separator h k = ground (
    arith,
    get_or-append p.request.raw more (separator + 1) 0,
    slice-append p.request.raw more s separator,
    slice-append p.request.raw more (separator + 1) (i - 1),
    slice-append p.request.raw more (separator + 2) (i - 1),
    add_header-grow (read_header p i s separator (separator + 1)),
    add_header-grow (read_header p i s separator (separator + 2)),
  )

  separator_found-grow :
      (s : ℕ) → separator_found settings s i fed ≡ grow (separator_found settings s i p) more
  unfolding separator_found
  separator_found-grow s = ground arith

  header-grow :
      (s separator : ℕ)
      → 3 ≤ s
      → s ≤ i
      → separator ≤ i
      → header_step settings s separator i ch fed
        ≡ grow (header_step settings s separator i ch p) more
  unfolding header_step
  header-grow s separator low h k = ground (
    arith,
    slice-append p.request.raw more (i - 3) (i + 1),
    slice-append p.request.raw more (i - 1) (i + 1),
    separator_found-grow s,
    header_line-grow s separator,
  )

  pub step_in-grow :
      (s : ParseState)
      → Behind s i
      → step_in settings percent_decode s i ch fed
        ≡ grow (step_in settings percent_decode s i ch p) more
  unfolding step_in
  step_in-grow method h = method-grow
  step_in-grow (path s) h = path-grow s h.1
  step_in-grow (query s) h = query-grow s
  step_in-grow (version s) h = version-grow s h.1
  step_in-grow (header s separator) h = header-grow s separator h.0 h.1 h.2

-- After a byte the buffer is the same, and the indices lie behind the next one.
abbrev pub Follows : Parser → ℕ → Step → Type 0
Follows p i (next q) = (q.request.raw ≡ p.request.raw) × Behind q.parse_state (i + 1)
Follows p i (found_end n) = n ≡ i + 1
Follows p i _ = Unit

module _ (settings : Settings) (percent_decode : Bytes → Option Bytes) (i ch : ℕ) (p : Parser) where
  decode_path-raw :
      (s : ℕ) → (decode_path settings percent_decode s i p.request).raw ≡ p.request.raw
  unfolding decode_path
  decode_path-raw s = ground arith

  version_read-Follows : (v : VersionRead) → 2 ≤ i → Follows p i (version_read settings v i p)
  unfolding version_read
  version_read-Follows (ok v) h = (refl, omega arith)
  version_read-Follows (err wrong_len) h = tt
  version_read-Follows (err wrong_text) h = tt
  version_read-Follows (err unsupported) h = tt

  add_header-Follows : (h : Header) → 2 ≤ i → Follows p i (add_header settings h i p)
  unfolding add_header
  add_header-Follows h low = ground arith

  header_line-Follows :
      (s separator : ℕ) → 2 ≤ i → Follows p i (header_line settings s separator i p)
  unfolding header_line
  header_line-Follows s separator low = ground (
    arith,
    add_header-Follows (read_header p i s separator (separator + 1)),
    add_header-Follows (read_header p i s separator (separator + 2)),
  )

  version_step-Follows :
      (s : ℕ)
      → p.parse_state ≡ version s
      → Behind (version s) i
      → Follows p i (version_step settings s i ch p)
  unfolding version_step
  version_step-Follows s e h =
      ground (arith, version_read-Follows (version_from_data (slice p.request.raw s (i - 1))))

  header_step-Follows :
      (s separator : ℕ)
      → p.parse_state ≡ header s separator
      → Behind (header s separator) i
      → Follows p i (header_step settings s separator i ch p)
  unfolding header_step separator_found
  header_step-Follows s separator e h = ground (arith, header_line-Follows s separator)

  method_step-Follows : p.parse_state ≡ method → Follows p i (method_step settings i ch p)
  unfolding method_step
  method_step-Follows e = ground arith

  path_step-Follows :
      (s : ℕ)
      → p.parse_state ≡ path s
      → Behind (path s) i
      → Follows p i (path_step settings percent_decode s i ch p)
  unfolding path_step
  path_step-Follows s e h = ground (arith, decode_path-raw s)

  query_step-Follows :
      (s : ℕ)
      → p.parse_state ≡ query s
      → Behind (query s) i
      → Follows p i (query_step settings s i ch p)
  unfolding query_step
  query_step-Follows s e h = ground arith

  pub step_in-Follows :
      (s : ParseState)
      → p.parse_state ≡ s
      → Behind s i
      → Follows p i (step_in settings percent_decode s i ch p)
  unfolding step_in
  step_in-Follows method e h = method_step-Follows e
  step_in-Follows (path s) e h = path_step-Follows s e h
  step_in-Follows (query s) e h = query_step-Follows s e h
  step_in-Follows (version s) e h = version_step-Follows s e h
  step_in-Follows (header s separator) e h = header_step-Follows s separator e h
