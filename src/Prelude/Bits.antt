-- ===== src/Prelude/Bits.antt =====
-- Facts about `&`, `|` and `^` on bytes, by evaluation, and about `<<` then `|`, by the digits.
use Prim.Native.Nat.{ℕ, zero, suc, ◌+◌, ◌*◌, ◌/◌, ◌%◌, ◌^◌, ◌≤◌, ◌<◌, bit_and, bit_or, bit_xor}
use Prim.Native.Nat.{max, digits, bit_or-bitwise}
use mathlib.Core.Path.{◌≡◌, refl, ap}
use mathlib.Core.WellFounded
use native.Mathlib.Nat.{pow-suc}
use anweb.Prelude.Order.{lt_wf}
use mathlib.Core.Bool.{Bool, true, ◌&&◌}
use native.Mathlib.Omega.{arith}
use anweb.Prelude.Tests.{◌==◌, ==_iff}

-- The test holds of every number below the bound.
every_below : ℕ → (ℕ → Bool) → Bool
every_below zero test = true
every_below (suc n) test = test n && every_below n test

every_below_lem :
    (n : ℕ) (test : ℕ → Bool) (x : ℕ) → every_below n test ≡ true → x < n → test x ≡ true
unfolding every_below
every_below_lem zero test x h lt = absurd (omega arith)
every_below_lem (suc n) test x h lt = ground (arith, every_below_lem n test x)

top_bit_table : every_below 256 (λ x. bit_and x 0x80 == x / 128 * 128) ≡ true
unfolding every_below
top_bit_table = refl

pub bit_and_top : (x : ℕ) → x < 256 → bit_and x 0x80 ≡ x / 128 * 128
bit_and_top x h = (==_iff _ _).0 (every_below_lem 256 _ x top_bit_table h)

low_seven_table : every_below 256 (λ x. bit_and x 0x7f == x % 128) ≡ true
unfolding every_below
low_seven_table = refl

pub bit_and_low_seven : (x : ℕ) → x < 256 → bit_and x 0x7f ≡ x % 128
bit_and_low_seven x h = (==_iff _ _).0 (every_below_lem 256 _ x low_seven_table h)

low_four_table : every_below 256 (λ x. bit_and x 0x0f == x % 16) ≡ true
unfolding every_below
low_four_table = refl

pub bit_and_low_four : (x : ℕ) → x < 256 → bit_and x 0x0f ≡ x % 16
bit_and_low_four x h = (==_iff _ _).0 (every_below_lem 256 _ x low_four_table h)

set_top_table : every_below 256 (λ x. bit_or x 0x80 == x % 128 + 128) ≡ true
unfolding every_below
set_top_table = refl

pub bit_or_top : (x : ℕ) → x < 256 → bit_or x 0x80 ≡ x % 128 + 128
bit_or_top x h = (==_iff _ _).0 (every_below_lem 256 _ x set_top_table h)

xor_table : every_below 256 (λ m. every_below 256 (λ x. bit_xor (bit_xor x m) m == x)) ≡ true
unfolding every_below
xor_table = refl

-- Masking a byte twice by one key byte gives it back.
pub bit_xor_twice : (x m : ℕ) → x < 256 → m < 256 → bit_xor (bit_xor x m) m ≡ x
bit_xor_twice x m hx hm = (==_iff _ _).0 (
    every_below_lem 256 (λ (x : ℕ). bit_xor (bit_xor x m) m == x) x
      (every_below_lem 256 (λ (m : ℕ). every_below 256 (λ x. bit_xor (bit_xor x m) m == x)) m
        xor_table hm)
      hx)

-- The digits of `a | b`, counted down by any number that is not below `a`.
abbrev or_digits : ℕ → ℕ → ℕ → ℕ
or_digits n a b = digits (λ y. y) max n a b

or_digits_count : (n m a b : ℕ) → a ≤ n → a ≤ m → or_digits n a b ≡ or_digits m a b
or_digits_count zero zero zero b p q = refl
or_digits_count zero (suc m) zero b p q = refl
or_digits_count (suc n) zero zero b p q = refl
or_digits_count (suc n) (suc m) zero b p q = refl
or_digits_count zero m (suc a) b p q = absurd (omega arith)
or_digits_count (suc n) zero (suc a) b p q = absurd (omega arith)
or_digits_count (suc n) (suc m) (suc a) b p q =
    ap (λ (t : ℕ). t * 2 + max (suc a % 2) (b % 2))
      (or_digits_count n m (suc a / 2) (b / 2) (omega arith) (omega arith))

-- The lowest digit of `a | b`, and the rest.
bit_or_digit : (a b : ℕ) → bit_or a b ≡ bit_or (a / 2) (b / 2) * 2 + max (a % 2) (b % 2)
bit_or_digit zero b = omega (arith, bit_or-bitwise 0 b, bit_or-bitwise (0 / 2) (b / 2))
bit_or_digit (suc a) b = omega (
  arith,
  bit_or-bitwise (suc a) b,
  bit_or-bitwise (suc a / 2) (b / 2),
  or_digits_count a (suc a / 2) (suc a / 2) (b / 2) (omega arith) (omega arith),
)

bit_or-zero : (a : ℕ) → bit_or a 0 ≡ a
bit_or-zero a = WellFounded.induction lt_wf {C = λ n. bit_or n 0 ≡ n} a halves
  where
    halves : (a : ℕ) → ((m : ℕ) → m < a → bit_or m 0 ≡ m) → bit_or a 0 ≡ a
    halves zero ih = refl
    halves (suc a) ih = omega (arith, bit_or_digit (suc a) 0, ih (suc a / 2) (omega arith))

-- `(q << k) | r` is the sum, where `r` fits the k bits shifted in.
pub bit_or_shifted : (k q r : ℕ) → r < 2 ^ k → bit_or (q * 2 ^ k) r ≡ q * 2 ^ k + r
bit_or_shifted zero q r h =
    let none_left : r ≡ 0 = omega arith in rw none_left (omega (arith, bit_or-zero (q * 1)))
bit_or_shifted (suc k) q r h = ground (
  arith,
  bit_or_digit (q * 2 ^ suc k) r,
  bit_or_shifted k q (r / 2) (omega (arith, pow-suc 2 k)),
  ap (λ (t : ℕ). q * t) (pow-suc 2 k),
)
