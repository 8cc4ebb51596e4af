-- ===== src/Query.antt =====
-- src/query.rs: `parse_query`, and the values of a parsed query. Percent decoding to a text (the
-- crate percent-encoding) is a parameter.
mod Fields
pub mod RoundTrip
mod Tests
use anweb.Prelude.{
  ℕ, zero, suc, ◌+◌, ◌-◌, Bool, true, false, ◌&&◌, ◌||◌, Option, none, some, List, [], ◌∷◌, map,
  ltb, ◌==◌, if◌then◌else◌, length, slice, drop, take, is_empty, Bytes, bytes_eq,
}

pub record QueryNameValue : Type 0 where
  pub name : Bytes
  pub value : Bytes

-- A name that was cut out, if it is not empty.
pub pushed : Bytes → List QueryNameValue → List QueryNameValue
pushed name rest = if is_empty name then rest else record { name = name; value = [] } ∷ rest

-- The first loop of `parse_query`, from the index i on, whose bytes are left.
pub collect : Bytes → ℕ → ℕ → Bytes → List QueryNameValue
unfolding pushed
collect query token_index i [] = []
collect query token_index i (ch ∷ rest) = elim (ch == b'&' || ch == b';') [
  | true ↦ pushed (slice query token_index i) (collect query (i + 1) (i + 1) rest)
  | false ↦ elim (i == length query - 1) [
    | true ↦ pushed (slice query token_index (i + 1)) (collect query i (i + 1) rest)
    | false ↦ collect query token_index (i + 1) rest
  ]
]

-- The search for `=` in the second loop, from the index i on.
pub split_at : QueryNameValue → ℕ → Bytes → QueryNameValue
split_at part i [] = part
split_at part i (ch ∷ rest) =
    let later = split_at part (i + 1) rest in
    if ch == b'=' && ltb 0 i
    then record { name = slice part.name 0 i; value = drop (i + 1) part.name }
    else later

pub split_part : QueryNameValue → QueryNameValue
unfolding split_at
split_part part = split_at part 0 part.name

unfoldable pub parse_query : Bytes → List QueryNameValue
unfolding collect split_part
parse_query query = map split_part (collect query 0 0 query)

-- `Query::value`
unfoldable pub value : (Bytes → Option Bytes) → Bytes → List QueryNameValue → Option Bytes
unfolding bytes_eq
value percent_decode name [] = none
value percent_decode name (part ∷ rest) =
    let later = value percent_decode name rest in
    if bytes_eq part.name name
    then elim (percent_decode part.value) [ none ↦ later | some decoded ↦ some decoded ]
    else later

-- `replace('+', " ")`
abbrev plus_to_space : Bytes → Bytes
plus_to_space [] = []
plus_to_space (c ∷ cs) = (if c == b'+' then b' ' else c) ∷ plus_to_space cs

-- `Query::value_at`
unfoldable pub value_at : (Bytes → Option Bytes) → ℕ → List QueryNameValue → Option Bytes
value_at percent_decode index [] = none
value_at percent_decode zero (part ∷ rest) = elim (percent_decode part.value) [
  | none ↦ none
  | some decoded ↦ some (plus_to_space decoded)
]
value_at percent_decode (suc index) (part ∷ rest) = value_at percent_decode index rest
