-- ===== src/RequestParser/Panics.antt =====
-- Where `Parser::push` panics: `&raw_buf[version_index..i - 1]` with nothing between.
use anweb.Prelude.{
  ℕ, ◌+◌, ◌^◌, ◌<◌, ◌≤◌, ◌≡◌, refl, ap, ◌∙◌, arith, Option, [], ◌∷◌, ◌++◌, length, Bytes, slice,
  length-append, append_assoc,
}
use anweb.Request.{new_request}
use anweb.RequestParser.{
  path, version, Settings, Parser, panicked, step_in, scan, crashed, new_parser, panic, push,
  finish,
}
use anweb.RequestParser.Parts.{
  Each, InMethod, InPath, slice-middle, scan_stay, scan_next, method_stays, path_stays,
}
use anweb.RequestParser.Version.{pathed, path_end}

module _ (settings : Settings) (percent_decode : Bytes → Option Bytes) (i ch : ℕ) (rest : Bytes)
    (p : Parser) where
  scan_panicked :
      step_in settings percent_decode p.parse_state i ch p ≡ panicked
      → scan settings percent_decode i (ch ∷ rest) p ≡ crashed
  unfolding scan
  scan_panicked e = rw (e, scan)

-- A line feed right behind the space that ends the path makes the parser panic: on any method and
-- path that the limits allow, and whatever follows.
pub push-panic :
    (settings : Settings) (percent_decode : Bytes → Option Bytes) (verb target rest : Bytes)
    → settings.header_name_len < 2 ^ 16
    → settings.header_value_len < 2 ^ 16
    → Each InMethod verb
    → length verb ≤ settings.method_len
    → Each InPath target
    → length target ≤ settings.path_len
    → push settings percent_decode new_parser (verb ++ (b' ' ∷ (target ++ (b' ' ∷ b'\n' ∷ rest))))
      ≡ panic
unfolding push finish
push-panic settings percent_decode verb target rest name_u16 value_u16 verb_bytes verb_within
      target_bytes target_within =
    let whole = verb ++ (b' ' ∷ (target ++ (b' ' ∷ b'\n' ∷ rest))) in
    let a = length verb in
    let b = a + 1 + length target in
    let start : Parser = record new_parser { request = record new_request { raw = whole } } in
    let after_verb : Parser = record {
      request = record start.request { method_end_index = a };
      parse_state = path (a + 1);
    } in
    let read : slice whole (a + 1) b ≡ target =
      slice-middle whole (verb ++ b' ' ∷ []) target (b' ' ∷ b'\n' ∷ rest) (a + 1) b
        (simp append_assoc) (omega (arith, length-append verb (b' ' ∷ []))) refl in
    let at_version =
      pathed settings percent_decode name_u16 value_u16 after_verb.request (a + 1) b target
        (version (b + 1)) in
    ap (finish settings percent_decode) (
      scan_stay settings percent_decode InMethod start verb _ 0 a
        (λ k c lo hi inside.
          method_stays settings percent_decode k c start refl (omega arith) inside)
        verb_bytes (omega arith)
      ∙ scan_next settings percent_decode a b' ' _ start {q = after_verb} (unfold step_in in refl)
      ∙ scan_stay settings percent_decode InPath after_verb target (b' ' ∷ b'\n' ∷ rest) (a + 1) b
          (λ k c lo hi inside.
            path_stays settings percent_decode k c after_verb (a + 1) refl (omega arith)
              (omega arith) inside)
          target_bytes refl
      ∙ scan_next settings percent_decode b b' ' _ after_verb
          (path_end settings percent_decode name_u16 value_u16 after_verb (a + 1) b target read).0
      ∙ scan_panicked settings percent_decode (b + 1) b'\n' rest at_version
          (unfold step_in in ground arith))
