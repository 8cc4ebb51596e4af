-- ===== src/Text.antt =====
-- What the code uses of the standard library's strings: `str::from_utf8`, `str::parse::<usize>`
-- and `char::is_digit(10)`. A `str` is the list of its UTF-8 bytes.
use anweb.Prelude.{
  ℕ, ◌+◌, ◌-◌, ◌*◌, ◌^◌, Bool, true, false, ◌&&◌, Option, none, some, [], ◌∷◌, ltb, leb, ◌==◌,
  if◌then◌else◌, Bytes,
}

abbrev within : ℕ → ℕ → ℕ → Bool
within lo hi c = leb lo c && leb c hi

-- What the bytes of one character still need: `tails n` is n bytes from 80 to BF; the others have
-- a narrower second byte, which shuts out overlong forms, surrogates and what is above U+10FFFF.
pub data Pending : Type 0 where
  nothing one_tail two_tails three_tails : Pending
  after_e0 after_ed after_f0 after_f4 : Pending

first_of_char : ℕ → Option Pending
first_of_char c =
    if leb c 0x7F
    then some nothing
    else if within 0xC2 0xDF c
    then some one_tail
    else if c == 0xE0
    then some after_e0
    else if c == 0xED
    then some after_ed
    else if within 0xE1 0xEF c
    then some two_tails
    else if c == 0xF0
    then some after_f0
    else if c == 0xF4
    then some after_f4
    else if within 0xF1 0xF3 c
    then some three_tails
    else none

abbrev expect : Bool → Pending → Option Pending
expect true p = some p
expect false p = none

next_byte : Pending → ℕ → Option Pending
unfolding first_of_char
next_byte nothing c = first_of_char c
next_byte one_tail c = expect (within 0x80 0xBF c) nothing
next_byte two_tails c = expect (within 0x80 0xBF c) one_tail
next_byte three_tails c = expect (within 0x80 0xBF c) two_tails
next_byte after_e0 c = expect (within 0xA0 0xBF c) one_tail
next_byte after_ed c = expect (within 0x80 0x9F c) one_tail
next_byte after_f0 c = expect (within 0x90 0xBF c) two_tails
next_byte after_f4 c = expect (within 0x80 0x8F c) two_tails

is_utf8_from : Pending → Bytes → Bool
unfolding next_byte
is_utf8_from nothing [] = true
is_utf8_from _ [] = false
is_utf8_from p (c ∷ cs) = elim (next_byte p c) [ none ↦ false | some q ↦ is_utf8_from q cs ]

unfoldable pub is_utf8 : Bytes → Bool
unfolding is_utf8_from
is_utf8 b = is_utf8_from nothing b

-- `std::str::from_utf8(..).ok()`
abbrev pub from_utf8 : Bytes → Option Bytes
from_utf8 b = if is_utf8 b then some b else none

-- `char::is_digit(10)`
abbrev pub is_digit : ℕ → Bool
is_digit c = within b'0' b'9' c

-- Digits from left to right; `None` on another character, and when the value leaves 64 bits.
unfoldable pub parse_digits : ℕ → Bytes → Option ℕ
parse_digits value [] = some value
parse_digits value (c ∷ cs) =
    let value' = value * 10 + (c - b'0') in
    let rest = parse_digits value' cs in if is_digit c && ltb value' (2 ^ 64) then rest else none

-- `s.parse::<usize>().ok()`: one sign `+` is allowed, and there must be a digit.
unfoldable pub parse_usize : Bytes → Option ℕ
unfolding parse_digits
parse_usize [] = none
parse_usize (c ∷ []) = parse_digits 0 (c ∷ [])
parse_usize (c ∷ d ∷ cs) =
    if c == b'+' then parse_digits 0 (d ∷ cs) else parse_digits 0 (c ∷ d ∷ cs)
