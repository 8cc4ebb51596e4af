-- ===== src/StaticFiles/Cache.antt =====
-- The cache as a map: what is found after a removal, an insertion and the check of a file.
use anweb.Prelude.{
  ℕ, ◌≡◌, refl, sym, ap, ◌∙◌, arith, Bool, true, false, Option, Option-cases, none, some, [], ◌∷◌,
  ltb, if◌then◌else◌, Bytes, bytes_eq, bytes_eq_iff, Bool-cases, inl, inr, ◌⊎◌,
}
use anweb.StaticFiles.{
  StaticFile, Files, find, insert, remove_nonexistent, Crates, Builder, loaded, cache,
  check_file_and_cache_if_need,
}

bytes_eq_refl : (a : Bytes) → bytes_eq a a ≡ true
bytes_eq_refl a = (bytes_eq_iff a a).1 refl

-- Two tests that do not both hold may be made in any order.
swap_tests :
    {A : Type 0} (a b : Bool) (x y z : A)
    → (a ≡ true → b ≡ true → ⊥)
    → (if a then x else if b then y else z) ≡ (if b then y else if a then x else z)
swap_tests true true x y z h = absurd (h refl refl)
swap_tests true false x y z h = refl
swap_tests false true x y z h = refl
swap_tests false false x y z h = refl

test_again :
    {A : Type 0} (t : Bool) (x y z : A)
    → (if t then x else z) ≡ (if t then x else if t then y else z)
test_again true x y z = refl
test_again false x y z = refl

ne_both : (a b q : Bytes) → bytes_eq a b ≡ false → bytes_eq a q ≡ true → bytes_eq b q ≡ true → ⊥
ne_both a b q other p r =
    let equal : a ≡ b = (bytes_eq_iff a q).0 p ∙ sym ((bytes_eq_iff b q).0 r) in
    absurd (ground (arith, other, (bytes_eq_iff a b).1 equal))

pub find-insert :
    (files : Files) (name q : Bytes) (f : StaticFile)
    → find q (insert name f files) ≡ (if bytes_eq name q then some f else find q files)
unfolding find insert
find-insert [] name q f = refl
find-insert ((key, g) ∷ rest) name q f = elim (Bool-cases (bytes_eq key name)) [
  | inl same ↦
      let equal : key ≡ name = (bytes_eq_iff key name).0 same in
      rw (find, insert, same, equal) (test_again (bytes_eq name q) (some f) (some g) (find q rest))
  | inr other ↦
      rw (find, insert, other, find-insert rest name q f)
        (swap_tests (bytes_eq key q) (bytes_eq name q) (some g) (some f) (find q rest)
          (ne_both key name q other))
]

removed_lem :
    {A : Type 0} (t u found : Bool) (x k r : Option A)
    → (found ≡ true → t ≡ u)
    → k ≡ (if u then r else none)
    → (if t then if found then x else k else k) ≡ (if u then if found then x else r else none)
removed_lem true true true x k r same later = refl
removed_lem true true false x k r same later = later
removed_lem true false true x k r same later = absurd (ground (arith, same refl))
removed_lem true false false x k r same later = later
removed_lem false true true x k r same later = absurd (ground (arith, same refl))
removed_lem false true false x k r same later = later
removed_lem false false true x k r same later = later
removed_lem false false false x k r same later = later

pub find-remove_nonexistent :
    (exists : Bytes → Bool) (files : Files) (q : Bytes)
    → find q (remove_nonexistent exists files) ≡ (if exists q then find q files else none)
unfolding find remove_nonexistent
find-remove_nonexistent exists [] q = none_if (exists q)
  where
    none_if : (t : Bool) → find q [] ≡ (if t then find q [] else none)
    none_if true = refl
    none_if false = refl
find-remove_nonexistent exists ((key, f) ∷ rest) q =
    if_find (exists key)
    ∙ removed_lem (exists key) (exists q) (bytes_eq key q) (some f)
        (find q (remove_nonexistent exists rest)) (find q rest)
        (λ e. ap exists ((bytes_eq_iff key q).0 e)) (find-remove_nonexistent exists rest q)
  where
    if_find :
        (t : Bool)
        → find q (
            if t then (key, f) ∷ remove_nonexistent exists rest else remove_nonexistent exists rest)
          ≡ (if t
              then if bytes_eq key q then some f else find q (remove_nonexistent exists rest)
              else find q (remove_nonexistent exists rest))
    if_find true = refl
    if_find false = refl

-- What is kept of a file that is on the disk, by what was kept before.
abbrev pub refreshed : Crates → Builder → Bytes → ℕ → Bytes → Option StaticFile → StaticFile
refreshed crates settings path modified raw_data none =
    loaded crates settings path modified raw_data
refreshed crates settings path modified raw_data (some f) =
    if ltb f.last_modified modified then loaded crates settings path modified raw_data else f

pub find-check :
    (crates : Crates) (settings : Builder) (path q : Bytes) (modified : ℕ) (raw_data : Bytes)
    (files : Files)
    → find q
        (check_file_and_cache_if_need crates settings path (some modified) (some raw_data) files)
      ≡ (if bytes_eq path q
          then some (refreshed crates settings path modified raw_data (find path files))
          else find q files)
unfolding check_file_and_cache_if_need cache
find-check crates settings path q modified raw_data files =
    let kept = loaded crates settings path modified raw_data in
    elim (Option-cases (find path files)) [
      | inl unset ↦ rw (check_file_and_cache_if_need, unset) (find-insert files path q kept)
      | inr (f, set) ↦
          rw (check_file_and_cache_if_need, set)
            (if_newer (ltb f.last_modified modified) kept f set (Bool-cases (bytes_eq path q)))
    ]
  where
    if_newer :
        (t : Bool) (kept f : StaticFile)
        → find path files ≡ some f
        → ((bytes_eq path q ≡ true) ⊎ (bytes_eq path q ≡ false))
        → find q (if t then insert path kept files else files)
          ≡ (if bytes_eq path q then some (if t then kept else f) else find q files)
    if_newer true kept f set c = find-insert files path q kept
    if_newer false kept f set (inl same) =
        rw same (ap (λ n. find n files) (sym ((bytes_eq_iff path q).0 same)) ∙ set)
    if_newer false kept f set (inr other) = rw other refl

-- A file that cannot be read leaves the cache as it is.
pub check-unreadable :
    (crates : Crates) (settings : Builder) (path : Bytes) (modified : ℕ) (files : Files)
    → check_file_and_cache_if_need crates settings path (some modified) none files ≡ files
unfolding check_file_and_cache_if_need cache
check-unreadable crates settings path modified files = by_found (find path files)
  where
    if_both : (t : Bool) → (if t then files else files) ≡ files
    if_both true = refl
    if_both false = refl

    by_found :
        (o : Option StaticFile)
        → (elim o [
          | none ↦ cache crates settings path modified none files
          | some f ↦
              if ltb f.last_modified modified
              then cache crates settings path modified none files
              else files
        ])
          ≡ files
    by_found none = refl
    by_found (some f) = if_both (ltb f.last_modified modified)
