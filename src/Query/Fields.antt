-- ===== src/Query/Fields.antt =====
-- `parse_query` against a description that keeps no indices: the query is cut at `&` and `;`, empty
-- fields are left out, and each field is cut at its first `=` that is not its first byte.
use anweb.Prelude.{
  ℕ, ◌+◌, ◌-◌, ◌≡◌, refl, sym, ap, ap₂, ◌∙◌, arith, false, ◌&&◌, ◌||◌, not, List, [], ◌∷◌, ◌++◌,
  map, ◌==◌, if◌then◌else◌, length, slice, drop, is_empty, Bytes, length-append, append_assoc,
  append-nil, drop-append-length, take-append-length, Bool-cases, inl, inr,
}
use anweb.Query.{QueryNameValue, pushed, collect, split_at, split_part, parse_query}

-- The fields that are not empty, behind the bytes of the present one.
unfoldable pub fields : Bytes → Bytes → List Bytes
fields field [] = if is_empty field then [] else field ∷ []
fields field (ch ∷ rest) =
    let next = fields [] rest in
    let longer = fields (field ++ ch ∷ []) rest in
    if ch == b'&' || ch == b';' then (if is_empty field then next else field ∷ next) else longer

-- The name and the value, behind the bytes of the name so far.
unfoldable pub name_and_value : Bytes → Bytes → QueryNameValue
name_and_value name [] = record { name = name; value = [] }
name_and_value name (ch ∷ rest) =
    let longer = name_and_value (name ++ ch ∷ []) rest in
    if ch == b'=' && not (is_empty name) then record { name = name; value = rest } else longer

abbrev unsplit : Bytes → QueryNameValue
unsplit field = record { name = field; value = [] }

-- The slice between two parts of a text.
slice_between :
    (query pre cur rest : Bytes) (lo hi : ℕ)
    → query ≡ pre ++ (cur ++ rest)
    → lo ≡ length pre
    → hi ≡ length pre + length cur
    → slice query lo hi ≡ cur
slice_between query pre cur rest lo hi whole low high =
    rw (whole, drop-append-length pre (cur ++ rest) lo low)
      (take-append-length cur rest (hi - lo) (omega arith))

-- A byte moves from what is left to what was read.
shift_byte :
    (query pre cur rest : Bytes) (ch : ℕ)
    → query ≡ pre ++ (cur ++ ch ∷ rest)
    → query ≡ pre ++ ((cur ++ ch ∷ []) ++ rest)
shift_byte query pre cur rest ch whole =
    whole ∙ ap (λ (v : Bytes). pre ++ v) (sym (append_assoc cur (ch ∷ []) rest))

pushed_lem :
    (field : Bytes) (next : List Bytes)
    → pushed field (map unsplit next) ≡ map unsplit (if is_empty field then next else field ∷ next)
unfolding pushed
pushed_lem [] next = refl
pushed_lem (c ∷ field) next = refl

no_bytes : (xs : Bytes) → length xs ≡ 0 → xs ≡ []
no_bytes [] h = refl
no_bytes (x ∷ xs) h = absurd (omega arith)

collect_lem :
    (query : Bytes) (token_index i : ℕ) (pre cur rest : Bytes)
    → query ≡ pre ++ (cur ++ rest)
    → token_index ≡ length pre
    → i ≡ length pre + length cur
    → is_empty rest && not (is_empty cur) ≡ false
    → collect query token_index i rest ≡ map unsplit (fields cur rest)
unfolding collect fields
collect_lem query token_index i pre cur [] whole low high h = ground arith
collect_lem query token_index i pre cur (ch ∷ rest) whole low high h =
    let longer = cur ++ ch ∷ [] in
    let moved = shift_byte query pre cur rest ch whole in
    let count : length longer ≡ length cur + 1 = length-append cur (ch ∷ []) in
    let total : length query ≡ length pre + (length longer + length rest) =
      ap length moved
      ∙ length-append pre (longer ++ rest)
      ∙ ap (λ (n : ℕ). length pre + n) (length-append longer rest) in
    elim (Bool-cases (ch == b'&' || ch == b';')) [
      | inl cut ↦
          rw (collect, cut, slice_between query pre cur (ch ∷ rest) token_index i whole low high)
            (ap (pushed cur) (
                collect_lem query (i + 1) (i + 1) (pre ++ longer) [] rest
                  (moved ∙ sym (append_assoc pre longer rest))
                  (omega (arith, length-append pre longer))
                  (omega (arith, length-append pre longer)) (ground arith))
              ∙ pushed_lem cur (fields [] rest))
      | inr on ↦ elim (Bool-cases (i == length query - 1)) [
        | inl last ↦
            let none_left : rest ≡ [] = no_bytes rest (ground arith) in
            let piece : slice query token_index (i + 1) ≡ longer =
              slice_between query pre longer rest token_index (i + 1) moved low (omega arith) in
            rw (collect, on, last, none_left, piece) (ground arith)
        | inr more ↦
            rw (collect, on, more)
              (collect_lem query token_index (i + 1) pre longer rest moved low (omega arith)
                (ground arith))
      ]
    ]

split_at_lem :
    (field pre rest : Bytes) (i : ℕ)
    → field ≡ pre ++ rest
    → i ≡ length pre
    → split_at (unsplit field) i rest ≡ name_and_value pre rest
unfolding split_at name_and_value
split_at_lem field pre [] i whole at = ap unsplit (whole ∙ append-nil pre)
split_at_lem field pre (ch ∷ rest) i whole at =
    let longer = pre ++ ch ∷ [] in
    let moved : field ≡ longer ++ rest = whole ∙ sym (append_assoc pre (ch ∷ []) rest) in
    let later =
      split_at_lem field longer rest (i + 1) moved (omega (arith, length-append pre (ch ∷ []))) in
    let front : slice field 0 i ≡ pre =
      rw whole (take-append-length pre (ch ∷ rest) (i - 0) (omega arith)) in
    let back : drop (i + 1) field ≡ rest =
      rw moved
        (drop-append-length longer rest (i + 1) (omega (arith, length-append pre (ch ∷ [])))) in
    ground (arith, later, front, back)

split_parts :
    (parts : List Bytes) → map split_part (map unsplit parts) ≡ map (name_and_value []) parts
unfolding split_part
split_parts [] = refl
split_parts (field ∷ parts) =
    ap₂ (λ x xs. x ∷ xs) (split_at_lem field [] field 0 refl refl) (split_parts parts)

-- A query is read as its fields: what stands between `&` and `;`, the empty ones left out, each cut
-- at its first `=` that has a byte in front.
pub parse_query-eq-map :
    (query : Bytes) → parse_query query ≡ map (name_and_value []) (fields [] query)
unfolding parse_query
parse_query-eq-map query =
    ap (map split_part) (collect_lem query 0 0 [] [] query refl refl refl (ground arith))
    ∙ split_parts (fields [] query)
