-- ===== src/Prelude/Lists.antt =====
-- Lists measured and indexed by native numbers, under the library's names; byte strings.
use Prim.Native.Nat.{ℕ, zero, suc, ◌+◌, ◌-◌, ◌≤◌, ◌<◌, min}
use Prim.Native.Char.{code}
use Prim.Native.String.{String}
use mathlib.Core.Bool.{Bool, true, false, ◌&&◌}
use mathlib.Core.Logic.{◌↔◌}
use mathlib.Core.Path.{◌≡◌, refl, ap, ◌∙◌}
use mathlib.Core.List.{List, [], ◌∷◌, ◌++◌}
use native.Mathlib.Omega.{arith}
use anweb.Prelude.Tests.{◌==◌}

module _ {ℓ} {A : Type ℓ} where
  abbrev pub length : List A → ℕ
  length [] = 0
  length (x ∷ xs) = suc (length xs)

  abbrev pub get_or : List A → ℕ → A → A
  get_or [] i d = d
  get_or (x ∷ xs) zero d = x
  get_or (x ∷ xs) (suc i) d = get_or xs i d

  abbrev pub take : ℕ → List A → List A
  take zero xs = []
  take (suc n) [] = []
  take (suc n) (x ∷ xs) = x ∷ take n xs

  abbrev pub drop : ℕ → List A → List A
  drop zero xs = xs
  drop (suc n) [] = []
  drop (suc n) (x ∷ xs) = drop n xs

  -- `&xs[lo..hi]`, for lo ≤ hi ≤ len.
  abbrev pub slice : List A → ℕ → ℕ → List A
  slice xs lo hi = take (hi - lo) (drop lo xs)

  abbrev pub is_empty : List A → Bool
  is_empty [] = true
  is_empty (x ∷ xs) = false

module _ {ℓ} {A : Type ℓ} where
  pub length-append : (xs ys : List A) → length (xs ++ ys) ≡ length xs + length ys
  length-append [] ys = omega arith
  length-append (x ∷ xs) ys = omega (arith, length-append xs ys)

  pub get_or-append :
      (xs ys : List A) (i : ℕ) (d : A) → i < length xs → get_or (xs ++ ys) i d ≡ get_or xs i d
  get_or-append [] ys i d h = absurd (omega arith)
  get_or-append (x ∷ xs) ys zero d h = refl
  get_or-append (x ∷ xs) ys (suc i) d h = get_or-append xs ys i d (omega arith)

  pub take-append : (xs ys : List A) (n : ℕ) → n ≤ length xs → take n (xs ++ ys) ≡ take n xs
  take-append xs ys zero h = refl
  take-append [] ys (suc n) h = absurd (omega arith)
  take-append (x ∷ xs) ys (suc n) h = ap (◌∷◌ x) (take-append xs ys n (omega arith))

  pub drop-append : (xs ys : List A) (n : ℕ) → n ≤ length xs → drop n (xs ++ ys) ≡ drop n xs ++ ys
  drop-append xs ys zero h = refl
  drop-append [] ys (suc n) h = absurd (omega arith)
  drop-append (x ∷ xs) ys (suc n) h = drop-append xs ys n (omega arith)

  pub length-take : (n : ℕ) (xs : List A) → length (take n xs) ≡ min n (length xs)
  length-take zero xs = omega arith
  length-take (suc n) [] = omega arith
  length-take (suc n) (x ∷ xs) = omega (arith, length-take n xs)

  pub length-drop : (n : ℕ) (xs : List A) → length (drop n xs) ≡ length xs - n
  length-drop zero xs = omega arith
  length-drop (suc n) [] = omega arith
  length-drop (suc n) (x ∷ xs) = omega (arith, length-drop n xs)

  pub slice-append :
      (xs ys : List A) (lo hi : ℕ)
      → lo ≤ hi
      → hi ≤ length xs
      → slice (xs ++ ys) lo hi ≡ slice xs lo hi
  slice-append xs ys lo hi p q =
      rw (drop-append xs ys lo (omega arith))
        (take-append (drop lo xs) ys (hi - lo) (omega (arith, length-drop lo xs)))

  pub take-append-length : (xs ys : List A) (n : ℕ) → n ≡ length xs → take n (xs ++ ys) ≡ xs
  take-append-length [] ys zero h = refl
  take-append-length [] ys (suc n) h = absurd (omega arith)
  take-append-length (x ∷ xs) ys zero h = absurd (omega arith)
  take-append-length (x ∷ xs) ys (suc n) h = ap (◌∷◌ x) (take-append-length xs ys n (omega arith))

  pub drop-append-length : (xs ys : List A) (n : ℕ) → n ≡ length xs → drop n (xs ++ ys) ≡ ys
  drop-append-length [] ys zero h = refl
  drop-append-length [] ys (suc n) h = absurd (omega arith)
  drop-append-length (x ∷ xs) ys zero h = absurd (omega arith)
  drop-append-length (x ∷ xs) ys (suc n) h = drop-append-length xs ys n (omega arith)

  pub take-append-drop : (n : ℕ) (xs : List A) → take n xs ++ drop n xs ≡ xs
  take-append-drop zero xs = refl
  take-append-drop (suc n) [] = refl
  take-append-drop (suc n) (x ∷ xs) = ap (◌∷◌ x) (take-append-drop n xs)

-- A byte string: the bytes of a `Vec<u8>`, a `&[u8]`, or the UTF-8 bytes of a `&str`.
abbrev pub Bytes : Type 0
Bytes = List ℕ

-- The bytes of a text; every literal of the development is ASCII.
abbrev pub codes : String → Bytes
codes String.[] = []
codes (String.◌∷◌ c s) = code c ∷ codes s

pub get_or-drop : (n k d : ℕ) (xs : Bytes) → get_or (drop n xs) k d ≡ get_or xs (n + k) d
get_or-drop zero k d xs = ap (λ (m : ℕ). get_or xs m d) (omega arith)
get_or-drop (suc n) k d [] = refl
get_or-drop (suc n) k d (x ∷ xs) =
    get_or-drop n k d xs ∙ ap (λ (m : ℕ). get_or (x ∷ xs) m d) (shift n k)
  where
    shift : (n k : ℕ) → suc (n + k) ≡ suc n + k
    shift n k = omega arith

pub get_or-take : (n k d : ℕ) (xs : Bytes) → k < n → get_or (take n xs) k d ≡ get_or xs k d
get_or-take zero k d xs h = absurd (omega arith)
get_or-take (suc n) k d [] h = refl
get_or-take (suc n) zero d (x ∷ xs) h = refl
get_or-take (suc n) (suc k) d (x ∷ xs) h = get_or-take n k d xs (omega arith)

pub get_or-behind : (xs ys : Bytes) (k d : ℕ) → get_or (xs ++ ys) (length xs + k) d ≡ get_or ys k d
get_or-behind [] ys k d = ap (λ (m : ℕ). get_or ys m d) (omega arith)
get_or-behind (x ∷ xs) ys k d =
    ap (λ (m : ℕ). get_or (x ∷ (xs ++ ys)) m d) (shift (length xs) k) ∙ get_or-behind xs ys k d
  where
    shift : (n k : ℕ) → suc n + k ≡ suc (n + k)
    shift n k = omega arith

-- `a == b` on slices and strings.
unfoldable pub bytes_eq : Bytes → Bytes → Bool
bytes_eq [] [] = true
bytes_eq (x ∷ xs) (y ∷ ys) = x == y && bytes_eq xs ys
bytes_eq _ _ = false

pub bytes_eq_iff : (a b : Bytes) → (bytes_eq a b ≡ true) ↔ (a ≡ b)
unfolding bytes_eq
bytes_eq_iff (x ∷ a) (y ∷ b) = ground (arith, bytes_eq_iff a b)
bytes_eq_iff _ _ = ground arith
