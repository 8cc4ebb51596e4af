-- ===== src/Mime/Lookup.antt =====
-- The table of content types is sorted, so the binary search finds each extension.
use anweb.Prelude.{ℕ, ◌≡◌, refl, ap, ◌∙◌, true, some, Bytes}
use anweb.BinarySearch.{compare_bytes, bytes_order, compare_bytes_refl, is_sorted, find, get_elem?}
use anweb.BinarySearch.Sorted.{lookup-eq-find, find_here}
use anweb.Mime.{mime_type_table, type_or_default, mime_type_by_extension}

mime_type_table_sorted : is_sorted compare_bytes mime_type_table ≡ true
unfolding is_sorted compare_bytes
mime_type_table_sorted = refl

-- The content type of an extension is that of its entry in the table, looked for from the front,
-- and the default where it has none.
pub mime_type_by_extension-eq-find :
    (extension : Bytes)
    → mime_type_by_extension extension
      ≡ type_or_default (find compare_bytes extension mime_type_table)
unfolding mime_type_by_extension
mime_type_by_extension-eq-find extension =
    ap type_or_default
      (lookup-eq-find compare_bytes bytes_order extension mime_type_table mime_type_table_sorted)

-- Every entry of the table is found: its extension gives its content type.
pub mime_type_by_extension-entry :
    (index : ℕ) (extension mime_type : Bytes)
    → get_elem? mime_type_table index ≡ some (extension, mime_type)
    → mime_type_by_extension extension ≡ mime_type
mime_type_by_extension-entry index extension mime_type at =
    mime_type_by_extension-eq-find extension
    ∙ ap type_or_default (
        find_here compare_bytes bytes_order extension (extension, mime_type) mime_type_table index
          mime_type_table_sorted at (compare_bytes_refl extension))
