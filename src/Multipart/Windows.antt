-- ===== src/Multipart/Windows.antt =====
-- The search for a pattern: where it finds a pattern that is put behind other bytes.
use anweb.Prelude.{
  ℕ, suc, ◌+◌, ◌≤◌, ◌<◌, ◌≡◌, refl, sym, ap, ◌∙◌, arith, Bool, true, false, Option, none, some, [],
  ◌∷◌, ◌++◌, slice, take, ◌-◌, drop-append-length, take-append-length, if◌then◌else◌, length,
  length-append, append_assoc, Bytes, leb, ◌&&◌,
}
use anweb.Multipart.{starts_with, position_of, after_first}

pub starts_with-append : (ps rest : Bytes) → starts_with ps (ps ++ rest) ≡ true
unfolding starts_with
starts_with-append [] rest = refl
starts_with-append (p ∷ ps) rest = ground (arith, starts_with-append ps rest)

-- What stands behind enough bytes does not matter.
starts_with-more :
    (ps xs rest : Bytes) → length ps ≤ length xs → starts_with ps (xs ++ rest) ≡ starts_with ps xs
unfolding starts_with
starts_with-more [] xs rest h = refl
starts_with-more (p ∷ ps) [] rest h = absurd (omega (arith, h))
starts_with-more (p ∷ ps) (x ∷ xs) rest h =
    ap (λ b. (leb p x && leb x p) && b) (starts_with-more ps xs rest (omega (arith, h)))

after_first-ne : (o : Option ℕ) → after_first o ≡ none → o ≡ none
after_first-ne none e = refl
after_first-ne (some n) e = absurd (ground (arith, e))

if_none : (t : Bool) (o : Option ℕ) → (if t then some 0 else o) ≡ none → (t ≡ false) × (o ≡ none)
if_none true o e = absurd (ground (arith, e))
if_none false o e = (refl, e)

found_here : (ps ys : Bytes) → 0 < length ys → starts_with ps ys ≡ true → position_of ps ys ≡ some 0
unfolding position_of
found_here ps [] h e = absurd (omega (arith, h))
found_here ps (y ∷ ys) h e = rw (position_of, e) refl

found_later :
    (ps : Bytes) (x : ℕ) (xs : Bytes) (n : ℕ)
    → starts_with ps (x ∷ xs) ≡ false
    → position_of ps xs ≡ some n
    → position_of ps (x ∷ xs) ≡ some (suc n)
unfolding position_of
found_later ps x xs n e later = rw (e, later) refl

-- The pattern of the bytes `first` and a last one, behind xs: it is found there, if it is not found in
-- xs and `first`.
pub position_of-append :
    (first : Bytes) (last : ℕ) (xs rest : Bytes)
    → position_of (first ++ last ∷ []) (xs ++ first) ≡ none
    → position_of (first ++ last ∷ []) (xs ++ (first ++ last ∷ rest)) ≡ some (length xs)
unfolding position_of
position_of-append first last [] rest unseen =
    let same : (first ++ last ∷ []) ++ rest ≡ first ++ last ∷ rest =
      append_assoc first (last ∷ []) rest in
    found_here (first ++ last ∷ []) (first ++ last ∷ rest)
      (omega (arith, length-append first (last ∷ rest)))
      (rw same at (starts_with-append (first ++ last ∷ []) rest))
position_of-append first last (x ∷ xs) rest unseen =
    let pattern = first ++ last ∷ [] in
    let same = append_assoc (x ∷ xs) first (last ∷ rest) in
    let here_more =
      starts_with-more pattern ((x ∷ xs) ++ first) (last ∷ rest)
        (omega (arith, length-append first (last ∷ []), length-append xs first)) in
    let (here, later) = if_none _ _ unseen in
    found_later pattern x (xs ++ (first ++ last ∷ rest)) (length xs)
      (ap (starts_with pattern) (sym same) ∙ (here_more ∙ here))
      (position_of-append first last xs rest (after_first-ne _ later))

-- What stands in the middle is cut out.
pub slice-middle :
    (xs ys zs : Bytes) (lo hi : ℕ)
    → lo ≡ length xs
    → hi ≡ lo + length ys
    → slice (xs ++ (ys ++ zs)) lo hi ≡ ys
slice-middle xs ys zs lo hi p q =
    ap (take (hi - lo)) (drop-append-length xs (ys ++ zs) lo p)
    ∙ take-append-length ys zs (hi - lo) (omega (arith, q))
