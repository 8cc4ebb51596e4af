-- ===== src/BinarySearch.antt =====
-- `binary_search_by` of the standard library, on a table that is sorted by its keys, and the
-- orders of the two key types that src/mime.rs and src/response.rs search by.
pub mod Sorted
use Prim.Native.Nat.{compare, Ordering}
use anweb.Prelude.{
  ℕ, zero, suc, ◌+◌, ◌-◌, ◌/◌, ◌<◌, ◌≤◌, ◌≡◌, ◌≢◌, refl, ap, sym, ◌∙◌, arith, Bool, true, false,
  ◌&&◌, Option, none, some, List, [], ◌∷◌, length, Bytes, ltb, if◌then◌else◌, ◌⊎◌, inl, inr,
}

-- The lexicographic order of strings, by their bytes.
unfoldable pub compare_bytes : Bytes → Bytes → Ordering
compare_bytes [] [] = Ordering.eq
compare_bytes [] (y ∷ ys) = Ordering.lt
compare_bytes (x ∷ xs) [] = Ordering.gt
compare_bytes (x ∷ xs) (y ∷ ys) =
    let rest = compare_bytes xs ys in
    elim (compare x y) [
      | Ordering.lt ↦ Ordering.lt
      | Ordering.eq ↦ rest
      | Ordering.gt ↦ Ordering.gt
    ]

-- What the search relies on of a comparison.
pub record KeyOrder {ℓ} {K : Type ℓ} (cmp : K → K → Ordering) : Type ℓ where
  pub cmp_eq : (a b : K) → cmp a b ≡ Ordering.eq → a ≡ b
  pub cmp_trans :
      (a b c : K) → cmp a b ≡ Ordering.lt → cmp b c ≡ Ordering.lt → cmp a c ≡ Ordering.lt
  pub cmp_flip : (a b : K) → cmp a b ≡ Ordering.gt → cmp b a ≡ Ordering.lt
  pub cmp_flip_lt : (a b : K) → cmp a b ≡ Ordering.lt → cmp b a ≡ Ordering.gt

pub compare_bytes_refl : (a : Bytes) → compare_bytes a a ≡ Ordering.eq
unfolding compare_bytes
compare_bytes_refl [] = refl
compare_bytes_refl (x ∷ a) = ground (arith, compare_bytes_refl a)

compare_bytes_eq : (a b : Bytes) → compare_bytes a b ≡ Ordering.eq → a ≡ b
unfolding compare_bytes
compare_bytes_eq [] [] h = refl
compare_bytes_eq [] (y ∷ b) h = ground arith
compare_bytes_eq (x ∷ a) [] h = ground arith
compare_bytes_eq (x ∷ a) (y ∷ b) h = ground (arith, compare_bytes_eq a b)

compare_bytes_trans :
    (a b c : Bytes)
    → compare_bytes a b ≡ Ordering.lt
    → compare_bytes b c ≡ Ordering.lt
    → compare_bytes a c ≡ Ordering.lt
unfolding compare_bytes
compare_bytes_trans (x ∷ a) (y ∷ b) (z ∷ c) h k = ground (arith, compare_bytes_trans a b c)
compare_bytes_trans _ _ _ h k = ground arith

compare_bytes_flip :
    (a b : Bytes) → compare_bytes a b ≡ Ordering.gt → compare_bytes b a ≡ Ordering.lt
unfolding compare_bytes
compare_bytes_flip (x ∷ a) (y ∷ b) h = ground (arith, compare_bytes_flip a b)
compare_bytes_flip _ _ h = ground arith

compare_bytes_flip_lt :
    (a b : Bytes) → compare_bytes a b ≡ Ordering.lt → compare_bytes b a ≡ Ordering.gt
unfolding compare_bytes
compare_bytes_flip_lt (x ∷ a) (y ∷ b) h = ground (arith, compare_bytes_flip_lt a b)
compare_bytes_flip_lt _ _ h = ground arith

pub bytes_order : KeyOrder compare_bytes
bytes_order = record {
  cmp_eq = compare_bytes_eq;
  cmp_trans = compare_bytes_trans;
  cmp_flip = compare_bytes_flip;
  cmp_flip_lt = compare_bytes_flip_lt;
}

pub number_order : KeyOrder compare
number_order = record {
  cmp_eq = λ a b h. ground arith;
  cmp_trans = λ a b c h k. ground arith;
  cmp_flip = λ a b h. ground arith;
  cmp_flip_lt = λ a b h. ground arith;
}

abbrev map_option {ℓ ℓ'} : {A : Type ℓ} {B : Type ℓ'} → (A → B) → Option A → Option B
map_option f none = none
map_option f (some x) = some (f x)

-- `v.get(i)`
abbrev pub get_elem? {ℓ} : {A : Type ℓ} → List A → ℕ → Option A
get_elem? [] i = none
get_elem? (x ∷ xs) zero = some x
get_elem? (x ∷ xs) (suc i) = get_elem? xs i

abbrev below : Ordering → Bool
below Ordering.lt = true
below _ = false

module _ {K : Type 0} {V : Type 0} (cmp : K → K → Ordering) where
  -- Each key is below the next one.
  unfoldable pub is_sorted : List (K × V) → Bool
  is_sorted [] = true
  is_sorted (e ∷ []) = true
  is_sorted (e ∷ f ∷ t) = below (cmp e.0 f.0) && is_sorted (f ∷ t)

  -- The value of the first entry with the key, looked for from the front.
  unfoldable pub find : K → List (K × V) → Option V
  find k [] = none
  find k (e ∷ t) = elim (cmp e.0 k) [
    | Ordering.lt ↦ find k t
    | Ordering.eq ↦ some e.1
    | Ordering.gt ↦ find k t
  ]

  -- The halving between `left` and `right`; `none` stands for `Err`, whose index nobody reads.
  pub halve : ℕ → K → List (K × V) → ℕ → ℕ → Option ℕ
  halve zero k table left right = none
  halve (suc fuel) k table left right =
      let mid = left + (right - left) / 2 in
      elim (ltb left right) [
        | false ↦ none
        | true ↦ elim (get_elem? table mid) [
          | none ↦ none
          | some e ↦ elim (cmp e.0 k) [
            | Ordering.lt ↦ halve fuel k table (mid + 1) right
            | Ordering.eq ↦ some mid
            | Ordering.gt ↦ halve fuel k table left mid
          ]
        ]
      ]

  pub binary_search : K → List (K × V) → Option ℕ
  unfolding halve
  binary_search k table = halve (length table) k table 0 (length table)

  -- `TABLE[index].1` where the search gives an index.
  abbrev pub entry : List (K × V) → Option ℕ → Option V
  entry table none = none
  entry table (some index) = map_option (λ e. e.1) (get_elem? table index)

  unfoldable pub lookup : K → List (K × V) → Option V
  unfolding binary_search
  lookup k table = entry table (binary_search k table)
