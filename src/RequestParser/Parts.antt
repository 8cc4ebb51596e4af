-- ===== src/RequestParser/Parts.antt =====
-- How `Parser::push` runs over the parts of a well-formed request head.
use anweb.Prelude.{
  ℕ, ◌+◌, ◌-◌, ◌^◌, ◌≤◌, ◌<◌, ◌≡◌, ◌≢◌, ap, arith, Option, [], ◌∷◌, ◌++◌, length, Bytes, slice,
  take-append-length, drop-append-length,
}
use anweb.RequestParser.{
  method, path, query, version, header, Settings, Parser, next, found_end, step_in, ended, scan,
}

abbrev pub Each : (ℕ → Type 0) → Bytes → Type 0
Each P [] = Unit
Each P (x ∷ xs) = P x × Each P xs

-- Bytes that end no part of the request line, and of a header.
abbrev pub InMethod : ℕ → Type 0
InMethod c = (c ≢ b' ') × (c ≢ b'\n')

abbrev pub InPath : ℕ → Type 0
InPath c = (c ≢ b' ') × (c ≢ b'\n') × (c ≢ b'?')

abbrev pub InName : ℕ → Type 0
InName c = (c ≢ b':') × (c ≢ b'\n')

abbrev pub InLine : ℕ → Type 0
InLine c = c ≢ b'\n'

pub slice-middle :
    (raw before middle behind : Bytes) (lo hi : ℕ)
    → raw ≡ before ++ (middle ++ behind)
    → lo ≡ length before
    → hi ≡ lo + length middle
    → slice raw lo hi ≡ middle
slice-middle raw before middle behind lo hi e p q =
    rw (e, drop-append-length before (middle ++ behind) lo p)
      (take-append-length middle behind (hi - lo) (omega arith))

module _ (settings : Settings) (percent_decode : Bytes → Option Bytes) where
  pub scan_stay :
      (P : ℕ → Type 0) (p : Parser) (xs rest : Bytes) (i j : ℕ)
      → ((k c : ℕ)
          → i ≤ k
          → k < j
          → P c
          → step_in settings percent_decode p.parse_state k c p ≡ next p)
      → Each P xs
      → i + length xs ≡ j
      → scan settings percent_decode i (xs ++ rest) p ≡ scan settings percent_decode j rest p
  unfolding scan
  scan_stay P p [] rest i j stays h e =
      let here : i ≡ j = omega arith in ap (λ (n : ℕ). scan settings percent_decode n rest p) here
  scan_stay P p (c ∷ xs) rest i j stays h e =
      rw (stays i c (omega arith) (omega arith) h.0, scan)
        (scan_stay P p xs rest (i + 1) j (λ k d lo hi. stays k d (omega arith) hi) h.1
          (omega arith))

  module _ (i ch : ℕ) (rest : Bytes) (p : Parser) where
    pub scan_next :
        {q : Parser}
        → step_in settings percent_decode p.parse_state i ch p ≡ next q
        → scan settings percent_decode i (ch ∷ rest) p ≡ scan settings percent_decode (i + 1) rest q
    unfolding scan
    scan_next e = rw (e, scan)

    pub scan_end :
        {n : ℕ}
        → step_in settings percent_decode p.parse_state i ch p ≡ found_end n
        → scan settings percent_decode i (ch ∷ rest) p ≡ ended p n
    unfolding scan
    scan_end e = rw (e, scan)

  module _ (i c : ℕ) (p : Parser) where
    pub method_stays :
        p.parse_state ≡ method
        → i < settings.method_len
        → InMethod c
        → step_in settings percent_decode p.parse_state i c p ≡ next p
    method_stays e h k = rw e (unfold step_in in ground arith)

    pub path_stays :
        (s : ℕ)
        → p.parse_state ≡ path s
        → i < s + settings.path_len
        → 0 < settings.path_len
        → InPath c
        → step_in settings percent_decode p.parse_state i c p ≡ next p
    path_stays s e h pos k = rw e (unfold step_in in ground arith)

    pub query_stays :
        (s : ℕ)
        → p.parse_state ≡ query s
        → i < s + settings.query_len
        → 0 < settings.query_len
        → InMethod c
        → step_in settings percent_decode p.parse_state i c p ≡ next p
    query_stays s e h pos k = rw e (unfold step_in in ground arith)

    pub version_stays :
        (s : ℕ)
        → p.parse_state ≡ version s
        → s ≤ i
        → i ≤ s + 8
        → InLine c
        → step_in settings percent_decode p.parse_state i c p ≡ next p
    version_stays s e h near k = rw e (unfold step_in in ground arith)

    pub name_stays :
        (s : ℕ)
        → p.parse_state ≡ header s 0
        → s ≤ i
        → i ≤ s + settings.header_name_len
        → settings.header_name_len < 2 ^ 16
        → InName c
        → step_in settings percent_decode p.parse_state i c p ≡ next p
    name_stays s e h near u16 k = rw e (unfold step_in in ground arith)

    pub value_stays :
        (s separator : ℕ)
        → p.parse_state ≡ header s separator
        → 0 < separator
        → separator ≤ i
        → i ≤ separator + settings.header_value_len + 2
        → settings.header_value_len < 2 ^ 16
        → InLine c
        → step_in settings percent_decode p.parse_state i c p ≡ next p
    value_stays s separator e pos h near u16 k = rw e (unfold step_in in ground arith)
