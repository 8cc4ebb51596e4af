-- ===== src/RequestParser/Limits.antt =====
-- What `Parser::push` lets through: the limits of `ParseHttpRequestSettings`.
use anweb.Prelude.{
  ℕ, zero, suc, ◌+◌, ◌-◌, ◌^◌, ◌%◌, ◌≤◌, ◌<◌, ◌≡◌, refl, arith, false, Option, List, [], ◌∷◌, ◌++◌,
  length, Bytes, slice, drop, length-append, length-take, length-drop,
}
use anweb.Request.{RequestData, Header, wrong_header}
use anweb.RequestParser.{
  ParseState, method, path, query, version, header, Settings, Parser, Step, next, refused, step_in,
  method_step, path_step, query_step, version_step, header_step, header_line, add_header,
  version_read, decode_path, VersionRead, ok, err, wrong_len, wrong_text, unsupported,
  version_from_data, separator_found, gt_i32, lt_i32,
}
use anweb.RequestParser.Steps.{read_header}

-- The limits are of type `u16`.
pub record IsU16 (settings : Settings) : Type 0 where
  pub header_name : settings.header_name_len < 2 ^ 16
  pub header_value : settings.header_value_len < 2 ^ 16

abbrev pub FitsHeader : Settings → Header → Type 0
FitsHeader settings h =
    (0 < length h.name)
    × (length h.name ≤ settings.header_name_len)
    × (0 < length h.value)
    × (length h.value ≤ settings.header_value_len)

abbrev pub EachFits : Settings → List Header → Type 0
EachFits settings [] = Unit
EachFits settings (h ∷ hs) = FitsHeader settings h × EachFits settings hs

-- The parts of a request are within the limits.
pub record IsWithin (settings : Settings) (r : RequestData) : Type 0 where
  pub method_within : r.method_end_index ≤ settings.method_len
  pub path_within : r.path_indices.1 ≤ r.path_indices.0 + settings.path_len
  pub query_within : r.raw_query_indices.1 ≤ r.raw_query_indices.0 + settings.query_len
  pub count_within : length r.headers ≤ settings.headers_count
  pub each_fits : EachFits settings r.headers

-- How far the part that is being read may have come, before the byte at `i`.
abbrev pub Progress : Settings → RequestData → ParseState → ℕ → Type 0
Progress settings r method i = i ≤ settings.method_len
Progress settings r (path s) i = (s ≤ i) × (i ≤ s + settings.path_len)
Progress settings r (query s) i = (s ≤ i) × (i ≤ s + settings.query_len)
Progress settings r (version s) i = Unit
Progress settings r (header s zero) i = (s ≤ i) × (i ≤ s + settings.header_name_len + 1)
Progress settings r (header s (suc k)) i =
    (s < suc k)
    × (suc k < i)
    × (suc k ≤ s + settings.header_name_len)
    × (i ≤ suc k + settings.header_value_len + 3)
    × (length r.headers < settings.headers_count)

EachFits-append :
    (settings : Settings) (hs : List Header) (h : Header)
    → EachFits settings hs
    → FitsHeader settings h
    → EachFits settings (hs ++ h ∷ [])
EachFits-append settings [] h a f = (f, tt)
EachFits-append settings (x ∷ hs) h a f = (a.0, EachFits-append settings hs h a.1 f)

-- The 32-bit tests, where the two indices are less than 2 ^ 31 apart.
gt_i32-eq-false : (a b k : ℕ) → b ≤ a → a < b + 2 ^ 31 → gt_i32 a b k ≡ false → a ≤ b + k
gt_i32-eq-false a b k h near e =
    let difference : (a % 2 ^ 32 + 2 ^ 32 - b % 2 ^ 32) % 2 ^ 32 ≡ a - b = omega arith in
    ground arith

lt_i32-eq-false : (a b k : ℕ) → b ≤ a → a < b + 2 ^ 31 → lt_i32 a b k ≡ false → b + k ≤ a
lt_i32-eq-false a b k h near e =
    let difference : (a % 2 ^ 32 + 2 ^ 32 - b % 2 ^ 32) % 2 ^ 32 ≡ a - b = omega arith in
    ground arith

abbrev pub Keeps : Settings → ℕ → Step → Type 0
Keeps settings i (next q) =
    IsWithin settings q.request × Progress settings q.request q.parse_state (i + 1)
Keeps settings i _ = Unit

module _ (settings : Settings) (percent_decode : Bytes → Option Bytes) (i ch : ℕ) (p : Parser)
    (u16 : IsU16 settings) (within : IsWithin settings p.request)
    (inside : i < length p.request.raw) where
  method_step-Keeps :
      p.parse_state ≡ method
      → i ≤ settings.method_len
      → Keeps settings i (method_step settings i ch p)
  unfolding method_step
  method_step-Keeps e h = ground arith

  path_step-Keeps :
      (s : ℕ)
      → p.parse_state ≡ path s
      → Progress settings p.request (path s) i
      → Keeps settings i (path_step settings percent_decode s i ch p)
  unfolding path_step decode_path
  path_step-Keeps s e h = ground arith

  query_step-Keeps :
      (s : ℕ)
      → p.parse_state ≡ query s
      → Progress settings p.request (query s) i
      → Keeps settings i (query_step settings s i ch p)
  unfolding query_step
  query_step-Keeps s e h = ground arith

  version_read-Keeps : (v : VersionRead) → Keeps settings i (version_read settings v i p)
  unfolding version_read
  version_read-Keeps (ok v) = ground arith
  version_read-Keeps (err wrong_len) = tt
  version_read-Keeps (err wrong_text) = tt
  version_read-Keeps (err unsupported) = tt

  version_step-Keeps :
      (s : ℕ) → p.parse_state ≡ version s → Keeps settings i (version_step settings s i ch p)
  unfolding version_step
  version_step-Keeps s e =
      ground (arith, version_read-Keeps (version_from_data (slice p.request.raw s (i - 1))))

  add_header-Keeps :
      (h : Header)
      → FitsHeader settings h
      → length p.request.headers < settings.headers_count
      → Keeps settings i (add_header settings h i p)
  unfolding add_header
  add_header-Keeps h f count = ground (
    arith,
    length-append p.request.headers (h ∷ []),
    EachFits-append settings p.request.headers h within.each_fits f,
  )

  length-slice :
      (lo hi : ℕ)
      → lo ≤ hi
      → hi ≤ length p.request.raw
      → length (slice p.request.raw lo hi) ≡ hi - lo
  length-slice lo hi h k =
      omega (arith, length-take (hi - lo) (drop lo p.request.raw), length-drop lo p.request.raw)

  header_line-Keeps :
      (s k : ℕ)
      → Progress settings p.request (header s (suc k)) i
      → gt_i32 i (suc k) (settings.header_value_len + 2) ≡ false
      → Keeps settings i (header_line settings s (suc k) i p)
  unfolding header_line
  header_line-Keeps s k h g =
      let near : i ≤ suc k + (settings.header_value_len + 2) =
        gt_i32-eq-false i (suc k) (settings.header_value_len + 2) (omega arith)
          (omega (arith, u16.header_value)) g in
      ground (
        arith,
        u16.header_value,
        lt_i32-eq-false i (suc k) 2,
        length-slice s (suc k),
        length-slice (suc k + 1) (i - 1),
        length-slice (suc k + 2) (i - 1),
        add_header-Keeps (read_header p i s (suc k) (suc k + 1)),
        add_header-Keeps (read_header p i s (suc k) (suc k + 2)),
      )

  header_line-zero : (s : ℕ) → header_line settings s 0 i p ≡ refused wrong_header
  unfolding header_line
  header_line-zero s = refl

  header_step-Keeps :
      (s separator : ℕ)
      → p.parse_state ≡ header s separator
      → Progress settings p.request (header s separator) i
      → Keeps settings i (header_step settings s separator i ch p)
  unfolding header_step separator_found
  header_step-Keeps s zero e h =
      ground
        (arith, u16.header_name, gt_i32-eq-false i s settings.header_name_len, header_line-zero s)
  header_step-Keeps s (suc k) e h = ground (
    arith,
    u16.header_value,
    gt_i32-eq-false i (suc k) (settings.header_value_len + 2),
    header_line-Keeps s k,
  )

  pub step_in-Keeps :
      (s : ParseState)
      → p.parse_state ≡ s
      → Progress settings p.request s i
      → Keeps settings i (step_in settings percent_decode s i ch p)
  unfolding step_in
  step_in-Keeps method e h = method_step-Keeps e h
  step_in-Keeps (path s) e h = path_step-Keeps s e h
  step_in-Keeps (query s) e h = query_step-Keeps s e h
  step_in-Keeps (version s) e h = version_step-Keeps s e
  step_in-Keeps (header s separator) e h = header_step-Keeps s separator e h
