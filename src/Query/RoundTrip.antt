-- ===== src/Query/RoundTrip.antt =====
-- A query that is written from names and values is read back.
use anweb.Prelude.{
  ℕ, ◌≡◌, refl, sym, ap, ap₂, ◌∙◌, arith, Bool, true, false, ◌&&◌, ◌||◌, not, List, [], ◌∷◌, ◌++◌,
  map, ◌==◌, is_empty, Bytes, append_assoc, append-nil,
}
use anweb.Query.{QueryNameValue, parse_query}
use anweb.Query.Fields.{fields, name_and_value, parse_query-eq-map}

-- No byte of the text ends a field.
abbrev pub no_separator : Bytes → Bool
no_separator [] = true
no_separator (c ∷ cs) = not (c == b'&' || c == b';') && no_separator cs

abbrev pub no_equals : Bytes → Bool
no_equals [] = true
no_equals (c ∷ cs) = not (c == b'=') && no_equals cs

-- What a query can hold: a name that is not empty and has no `=` behind its first byte.
abbrev pub is_writable : QueryNameValue → Bool
is_writable part = elim part.name [
  | [] ↦ false
  | ◌∷◌ c cs ↦ no_separator part.name && (no_equals cs && no_separator part.value)
]

abbrev pub are_writable : List QueryNameValue → Bool
are_writable [] = true
are_writable (part ∷ rest) = is_writable part && are_writable rest

abbrev pub print_part : QueryNameValue → Bytes
print_part part = part.name ++ b'=' ∷ part.value

-- "a=1&b=2"
abbrev pub print_query : List QueryNameValue → Bytes
print_query [] = []
print_query (part ∷ []) = print_part part
print_query (part ∷ next ∷ rest) = print_part part ++ b'&' ∷ print_query (next ∷ rest)

fields-plain :
    (field text rest : Bytes)
    → no_separator text ≡ true
    → fields field (text ++ rest) ≡ fields (field ++ text) rest
unfolding fields
fields-plain field [] rest h = ap (λ (v : Bytes). fields v rest) (sym (append-nil field))
fields-plain field (c ∷ text) rest h =
    let ih = fields-plain (field ++ c ∷ []) text rest (ground arith) in
    let moved = ap (λ (v : Bytes). fields v rest) (append_assoc field (c ∷ []) text) in
    ground (arith, ih, moved)

name_and_value-plain :
    (c : ℕ) (name text rest : Bytes)
    → no_equals text ≡ true
    → name_and_value (c ∷ name) (text ++ rest) ≡ name_and_value (c ∷ (name ++ text)) rest
unfolding name_and_value
name_and_value-plain c name [] rest h =
    ap (λ (v : Bytes). name_and_value (c ∷ v) rest) (sym (append-nil name))
name_and_value-plain c name (d ∷ text) rest h =
    let ih = name_and_value-plain c (name ++ d ∷ []) text rest (ground arith) in
    let moved = ap (λ (v : Bytes). name_and_value (c ∷ v) rest) (append_assoc name (d ∷ []) text) in
    ground (arith, ih, moved)

name_and_value-written :
    (name value : Bytes)
    → is_writable (record { name = name; value = value }) ≡ true
    → name_and_value [] (name ++ b'=' ∷ value) ≡ record { name = name; value = value }
unfolding name_and_value
name_and_value-written [] value h = ground arith
name_and_value-written (c ∷ name) value h =
    let read = name_and_value-plain c [] name (b'=' ∷ value) (ground arith) in ground (arith, read)

no_separator-append :
    (xs ys : Bytes)
    → no_separator xs ≡ true
    → no_separator ys ≡ true
    → no_separator (xs ++ ys) ≡ true
no_separator-append [] ys h k = k
no_separator-append (x ∷ xs) ys h k = ground (arith, no_separator-append xs ys)

no_separator-written :
    (name value : Bytes)
    → is_writable (record { name = name; value = value }) ≡ true
    → no_separator (name ++ b'=' ∷ value) ≡ true
no_separator-written [] value h = ground arith
no_separator-written (c ∷ name) value h =
    no_separator-append (c ∷ name) (b'=' ∷ value) (ground arith) (ground arith)

not_empty : (xs ys : Bytes) (c : ℕ) → is_empty (xs ++ c ∷ ys) ≡ false
not_empty [] ys c = refl
not_empty (x ∷ xs) ys c = refl

fields-print_query :
    (parts : List QueryNameValue)
    → are_writable parts ≡ true
    → fields [] (print_query parts) ≡ map print_part parts
unfolding fields
fields-print_query [] h = refl
fields-print_query (part ∷ []) h =
    ap (fields []) (sym (append-nil (print_part part)))
    ∙ fields-plain [] (print_part part) []
        (no_separator-written part.name part.value (ground arith))
    ∙ rw (not_empty part.name part.value b'=') refl
fields-print_query (part ∷ next ∷ rest) h =
    fields-plain [] (print_part part) (b'&' ∷ print_query (next ∷ rest))
      (no_separator-written part.name part.value (ground arith))
    ∙ rw (not_empty part.name part.value b'=') (
        ap (λ (v : List Bytes). print_part part ∷ v)
          (fields-print_query (next ∷ rest) (ground arith)))

read_parts :
    (parts : List QueryNameValue)
    → are_writable parts ≡ true
    → map (name_and_value []) (map print_part parts) ≡ parts
read_parts [] h = refl
read_parts (part ∷ parts) h =
    ap₂ (λ x xs. x ∷ xs) (name_and_value-written part.name part.value (ground arith))
      (read_parts parts (ground arith))

-- Names and values, written as "a=1&b=2", are read back in their order: the names are not empty and
-- have no `=` behind their first byte, and there is no `&` and no `;` in a name or a value.
pub parse_query-print_query :
    (parts : List QueryNameValue)
    → are_writable parts ≡ true
    → parse_query (print_query parts) ≡ parts
parse_query-print_query parts h =
    parse_query-eq-map (print_query parts)
    ∙ ap (map (name_and_value [])) (fields-print_query parts h)
    ∙ read_parts parts h
