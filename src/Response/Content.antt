-- ===== src/Response/Content.antt =====
-- The length of the content as a response writes it, read back.
use anweb.Prelude.{
  ℕ, zero, suc, ◌+◌, ◌-◌, ◌*◌, ◌/◌, ◌%◌, ◌^◌, ◌<◌, ◌≡◌, refl, ap, ◌∙◌, arith, true, some, [], ◌∷◌,
  codes, Bytes, ltb, Bool-cases, inl, inr, lt→ltb, bytes_eq,
}
use native.Mathlib.Nat.{pow-suc}
use anweb.Text.{parse_digits, parse_usize}
use anweb.RequestParser.{first_is_digit, header_is_content_length, read}
use anweb.Response.{digits_before, decimal}

first_is_digit-digits_before :
    (fuel n : ℕ) (rest : Bytes)
    → first_is_digit rest ≡ true
    → first_is_digit (digits_before fuel n rest) ≡ true
unfolding digits_before first_is_digit
first_is_digit-digits_before zero n rest h = h
first_is_digit-digits_before (suc fuel) n rest h =
    ground (arith, first_is_digit-digits_before fuel (n / 10) ((b'0' + n % 10) ∷ rest))

parse_digits_step :
    (value digit : ℕ) (rest : Bytes)
    → digit < 10
    → value * 10 + digit < 2 ^ 64
    → parse_digits value ((b'0' + digit) ∷ rest) ≡ parse_digits (value * 10 + digit) rest
unfolding parse_digits
parse_digits_step value digit rest low fits =
    let same : value * 10 + (b'0' + digit - b'0') ≡ value * 10 + digit = omega arith in
    ground (arith, ap (λ (m : ℕ). parse_digits m rest) same)

parse_first_digit :
    (digit : ℕ) (rest : Bytes)
    → digit < 10
    → parse_digits 0 ((b'0' + digit) ∷ rest) ≡ parse_digits digit rest
parse_first_digit digit rest low =
    let same : 0 * 10 + digit ≡ digit = omega arith in
    parse_digits_step 0 digit rest low (omega arith) ∙ ap (λ (m : ℕ). parse_digits m rest) same

parse_digits-digits_before :
    (fuel n : ℕ) (rest : Bytes)
    → n < 10 ^ suc fuel
    → n < 2 ^ 64
    → parse_digits 0 (digits_before (suc fuel) n rest) ≡ parse_digits n rest
unfolding digits_before
parse_digits-digits_before zero n rest low fits =
    rw (lt→ltb n 10 (omega arith)) (parse_first_digit n rest (omega arith))
parse_digits-digits_before (suc fuel) n rest low fits =
    let quotient : n / 10 < 10 ^ suc fuel = omega (arith, pow-suc 10 (suc fuel)) in
    let whole : n / 10 * 10 + n % 10 ≡ n = omega arith in
    elim (Bool-cases (ltb n 10)) [
      | inl short ↦ rw short (parse_first_digit n rest (ground arith))
      | inr longer ↦ rw longer (
          parse_digits-digits_before fuel (n / 10) ((b'0' + n % 10) ∷ rest) quotient (omega arith)
          ∙ parse_digits_step (n / 10) (n % 10) rest (omega arith) (omega arith)
          ∙ ap (λ (m : ℕ). parse_digits m rest) whole)
    ]

parse_usize-digits :
    (text : Bytes) → first_is_digit text ≡ true → parse_usize text ≡ parse_digits 0 text
unfolding parse_usize first_is_digit
parse_usize-digits [] h = ground arith
parse_usize-digits (c ∷ []) h = refl
parse_usize-digits (c ∷ d ∷ cs) h = ground arith

written_first_is_digit :
    (fuel n : ℕ) (rest : Bytes) → first_is_digit (digits_before (suc fuel) n rest) ≡ true
unfolding digits_before first_is_digit
written_first_is_digit fuel n rest =
    ground (arith, first_is_digit-digits_before fuel (n / 10) ((b'0' + n % 10) ∷ rest))

first_is_digit-decimal : (n : ℕ) → first_is_digit (decimal n) ≡ true
unfolding decimal
first_is_digit-decimal n = written_first_is_digit 19 n []

parse_digits-nil : (n : ℕ) → parse_digits n [] ≡ some n
unfolding parse_digits
parse_digits-nil n = refl

parse_digits-decimal : (n : ℕ) → n < 2 ^ 64 → parse_digits 0 (decimal n) ≡ parse_digits n []
unfolding decimal
parse_digits-decimal n fits = parse_digits-digits_before 19 n [] (omega arith) fits

-- The length that a response writes is the length that the request parser reads in such a header:
-- every number of 64 bits is read back from its digits.
pub header_is_content_length-decimal :
    (n : ℕ)
    → n < 2 ^ 64
    → header_is_content_length (record { name = codes "Content-Length"; value = decimal n })
      ≡ read (some n)
unfolding header_is_content_length bytes_eq
header_is_content_length-decimal n fits =
    let digits = first_is_digit-decimal n in
    let number =
      parse_usize-digits (decimal n) digits ∙ parse_digits-decimal n fits ∙ parse_digits-nil n in
    rw (digits, number)
