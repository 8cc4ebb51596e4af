-- ===== src/Mime/Tests.antt =====
-- Lookups in the table of content types, and the theorems at concrete extensions.
use anweb.Prelude.{◌≡◌, refl, codes}
use anweb.BinarySearch.{compare_bytes, find}
use anweb.Mime.{mime_type_by_extension, mime_type_table, default_type, type_or_default}
use anweb.Mime.Lookup.{mime_type_by_extension-eq-find, mime_type_by_extension-entry}

unlisted_extension : mime_type_by_extension (codes "rsx") ≡ default_type
unfolding mime_type_by_extension
unlisted_extension = refl

mime_type_by_extension-eq-find_example :
    mime_type_by_extension (codes "html")
    ≡ type_or_default (find compare_bytes (codes "html") mime_type_table)
mime_type_by_extension-eq-find_example = mime_type_by_extension-eq-find (codes "html")

mime_type_by_extension-entry_example : mime_type_by_extension (codes "3ds") ≡ codes "image/x-3ds"
mime_type_by_extension-entry_example =
    mime_type_by_extension-entry 3 (codes "3ds") (codes "image/x-3ds") refl
