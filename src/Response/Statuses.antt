-- ===== src/Response/Statuses.antt =====
-- The table of status codes is sorted, so the binary search finds each code.
use Prim.Native.Nat.{compare}
use anweb.Prelude.{ℕ, ◌≡◌, refl, ap, ◌∙◌, true, some, Bytes, arith}
use anweb.BinarySearch.{number_order, is_sorted, find, get_elem?}
use anweb.BinarySearch.Sorted.{lookup-eq-find, find_here}
use anweb.Response.Codes.{http_codes_with_name_by_code, name_or_empty, http_status_code_with_name}

codes_sorted : is_sorted compare http_codes_with_name_by_code ≡ true
unfolding is_sorted
codes_sorted = refl

-- The text of a status code is that of its entry in the table, looked for from the front, and
-- empty where it has none.
pub http_status_code_with_name-eq-find :
    (code : ℕ)
    → http_status_code_with_name code
      ≡ name_or_empty (find compare code http_codes_with_name_by_code)
unfolding http_status_code_with_name
http_status_code_with_name-eq-find code =
    ap name_or_empty
      (lookup-eq-find compare number_order code http_codes_with_name_by_code codes_sorted)

-- Every entry of the table is found: its code gives its text.
pub http_status_code_with_name-entry :
    (index code : ℕ) (name : Bytes)
    → get_elem? http_codes_with_name_by_code index ≡ some (code, name)
    → http_status_code_with_name code ≡ name
http_status_code_with_name-entry index code name at =
    http_status_code_with_name-eq-find code
    ∙ ap name_or_empty (
        find_here compare number_order code (code, name) http_codes_with_name_by_code index
          codes_sorted at (ground arith))
