-- ===== src/BinarySearch/Sorted.antt =====
-- On a sorted table the halving finds what a look from the front finds.
use Prim.Native.Nat.{Ordering}
use anweb.Prelude.{
  ℕ, zero, suc, ◌+◌, ◌-◌, ◌/◌, ◌<◌, ◌≤◌, ◌≡◌, refl, ap, sym, ◌∙◌, arith, true, ltb, none, some,
  List, [], ◌∷◌, length, ◌⊎◌, inl, inr, Bool-cases,
}
use anweb.BinarySearch.{
  KeyOrder, get_elem?, map_option, is_sorted, find, halve, binary_search, lookup, entry,
}

data CompareCase (o : Ordering) : Type 0 where
  is_lt : o ≡ Ordering.lt → CompareCase o
  is_eq : o ≡ Ordering.eq → CompareCase o
  is_gt : o ≡ Ordering.gt → CompareCase o

compare_case : (o : Ordering) → CompareCase o
compare_case Ordering.lt = is_lt refl
compare_case Ordering.eq = is_eq refl
compare_case Ordering.gt = is_gt refl

some-inj {ℓ} : {A : Type ℓ} {x y : A} → some x ≡ some y → x ≡ y
some-inj h = ground arith

get_elem?_within {ℓ} :
    {A : Type ℓ} (xs : List A) (i : ℕ) → i < length xs → (x : A) × (get_elem? xs i ≡ some x)
get_elem?_within [] i h = absurd (omega arith)
get_elem?_within (x ∷ xs) zero h = (x, refl)
get_elem?_within (x ∷ xs) (suc i) h = get_elem?_within xs i (omega arith)

module _ {K : Type 0} {V : Type 0} (cmp : K → K → Ordering) where
  -- The number of entries in front whose keys are below k.
  rank : K → List (K × V) → ℕ
  rank k [] = 0
  rank k (e ∷ t) = elim (cmp e.0 k) [
    | Ordering.lt ↦ suc (rank k t)
    | Ordering.eq ↦ 0
    | Ordering.gt ↦ 0
  ]

module _ {K : Type 0} {V : Type 0} (cmp : K → K → Ordering) (order : KeyOrder cmp) where
  sorted_tail :
      (e : K × V) (t : List (K × V)) → is_sorted cmp (e ∷ t) ≡ true → is_sorted cmp t ≡ true
  unfolding is_sorted
  sorted_tail e [] h = refl
  sorted_tail e (f ∷ t) h = ground arith

  sorted_at :
      (e f : K × V) (t : List (K × V)) (i : ℕ)
      → is_sorted cmp (e ∷ t) ≡ true
      → get_elem? t i ≡ some f
      → cmp e.0 f.0 ≡ Ordering.lt
  unfolding is_sorted
  sorted_at e f [] i h k = ground arith
  sorted_at e f (g ∷ t) zero h k = ground arith
  sorted_at e f (g ∷ t) (suc i) h k =
      order.cmp_trans e.0 g.0 f.0 (ground arith) (sorted_at g f t i (sorted_tail e (g ∷ t) h) k)

  find_above :
      (k : K) (e : K × V) (t : List (K × V))
      → is_sorted cmp (e ∷ t) ≡ true
      → cmp e.0 k ≡ Ordering.gt
      → find cmp k (e ∷ t) ≡ none
  unfolding find is_sorted
  find_above k e [] h above = rw (above, find)
  find_above k e (f ∷ t) h above =
      let low : cmp e.0 f.0 ≡ Ordering.lt = ground arith in
      rw (above, find)
        (find_above k f t (sorted_tail e (f ∷ t) h)
          (order.cmp_flip_lt k f.0 (order.cmp_trans k e.0 f.0 (order.cmp_flip e.0 k above) low)))

  rank_below :
      (k : K) (e : K × V) (t : List (K × V)) (i : ℕ)
      → is_sorted cmp t ≡ true
      → get_elem? t i ≡ some e
      → cmp e.0 k ≡ Ordering.lt
      → i < rank cmp k t
  unfolding rank
  rank_below k e [] i h at low = ground arith
  rank_below k e (f ∷ t) zero h at low = ground arith
  rank_below k e (f ∷ t) (suc i) h at low = ground (
    arith,
    order.cmp_trans f.0 e.0 k (sorted_at f e t i h at) low,
    rank_below k e t i (sorted_tail f t h) at low,
  )

  pub find_here :
      (k : K) (e : K × V) (t : List (K × V)) (i : ℕ)
      → is_sorted cmp t ≡ true
      → get_elem? t i ≡ some e
      → cmp e.0 k ≡ Ordering.eq
      → find cmp k t ≡ some e.1
  unfolding find
  find_here k e [] i h at same = ground arith
  find_here k e (f ∷ t) zero h at same = ground arith
  find_here k e (f ∷ t) (suc i) h at same =
      rw (sym (ap (cmp f.0) (order.cmp_eq e.0 k same)) ∙ sorted_at f e t i h at, find)
        (find_here k e t i (sorted_tail f t h) at same)

  rank_above :
      (k : K) (e : K × V) (t : List (K × V)) (i : ℕ)
      → is_sorted cmp t ≡ true
      → get_elem? t i ≡ some e
      → cmp e.0 k ≡ Ordering.gt
      → (rank cmp k t < i) ⊎ (find cmp k t ≡ none)
  unfolding rank find
  rank_above k e [] i h at above = ground arith
  rank_above k e (f ∷ t) zero h at above =
      inr (find_above k f t h (ap (λ (g : K × V). cmp g.0 k) (some-inj at) ∙ above))
  rank_above k e (f ∷ t) (suc i) h at above = elim (compare_case (cmp f.0 k)) [
    | is_lt low ↦ elim (rank_above k e t i (sorted_tail f t h) at above) [
      | inl far ↦ inl (ground arith)
      | inr missing ↦ inr (rw (low, find) missing)
    ]
    | is_eq same ↦ inl (rw (same, rank) (omega arith))
    | is_gt high ↦ inr (find_above k f t h high)
  ]

  halve_lem :
      (fuel : ℕ) (k : K) (t : List (K × V)) (left right : ℕ)
      → is_sorted cmp t ≡ true
      → right ≤ length t
      → right - left ≤ fuel
      → left ≤ rank cmp k t
      → (rank cmp k t < right) ⊎ (find cmp k t ≡ none)
      → entry cmp t (halve cmp fuel k t left right) ≡ find cmp k t
  unfolding halve
  halve_lem zero k t left right h far enough low high = elim high [
    | inl on ↦ absurd (omega arith)
    | inr missing ↦ sym missing
  ]
  halve_lem (suc fuel) k t left right h far enough low high =
      let mid = left + (right - left) / 2 in
      elim (Bool-cases (ltb left right)) [
        | inl ahead ↦
            let lt : left < right = ground arith in
            let e = get_elem?_within t mid (omega arith) in
            elim (compare_case (cmp e.0.0 k)) [
              | is_lt q ↦
                  rw (halve, ahead, e.1, q)
                    (halve_lem fuel k t (mid + 1) right h far (omega arith)
                      (omega (arith, rank_below k e.0 t mid h e.1 q)) high)
              | is_eq q ↦
                  rw (halve, ahead, e.1, q)
                    (ap (map_option (λ e. e.1)) e.1 ∙ sym (find_here k e.0 t mid h e.1 q))
              | is_gt q ↦
                  rw (halve, ahead, e.1, q)
                    (halve_lem fuel k t left mid h (omega arith) (omega arith) low
                      (rank_above k e.0 t mid h e.1 q))
            ]
        | inr shut ↦ elim high [
          | inl on ↦ absurd (ground arith)
          | inr missing ↦ rw (halve, shut) (sym missing)
        ]
      ]

  rank_first : (k : K) (t : List (K × V)) → (rank cmp k t < length t) ⊎ (find cmp k t ≡ none)
  unfolding rank find
  rank_first k [] = inr refl
  rank_first k (e ∷ t) = ground (arith, rank_first k t)

  -- On a table sorted by its keys the binary search finds the value that a look from the front
  -- finds, and none where there is none.
  pub lookup-eq-find :
      (k : K) (t : List (K × V)) → is_sorted cmp t ≡ true → lookup cmp k t ≡ find cmp k t
  unfolding lookup binary_search
  lookup-eq-find k t h =
      halve_lem (length t) k t 0 (length t) h (omega arith) (omega arith) (omega arith)
        (rank_first k t)
