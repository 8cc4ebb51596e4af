-- ===== src/Mime.antt =====
-- src/mime.rs: `mime_type_by_extension` and its table, in 10 pieces.
mod Lookup
mod Tests
mod Table0
mod Table1
mod Table2
mod Table3
mod Table4
mod Table5
mod Table6
mod Table7
mod Table8
mod Table9
use anweb.Prelude.{List, ◌++◌, Option, none, some, codes, Bytes}
use anweb.BinarySearch.{compare_bytes, lookup}
use anweb.Mime.Table0.{types_0}
use anweb.Mime.Table1.{types_1}
use anweb.Mime.Table2.{types_2}
use anweb.Mime.Table3.{types_3}
use anweb.Mime.Table4.{types_4}
use anweb.Mime.Table5.{types_5}
use anweb.Mime.Table6.{types_6}
use anweb.Mime.Table7.{types_7}
use anweb.Mime.Table8.{types_8}
use anweb.Mime.Table9.{types_9}

-- `MIME_TYPE_BY_EXTENSION`
abbrev pub mime_type_table : List (Bytes × Bytes)
mime_type_table =
    types_0
    ++ (types_1
        ++ (types_2
            ++ (types_3
                ++ (types_4 ++ (types_5 ++ (types_6 ++ (types_7 ++ (types_8 ++ (types_9)))))))))

-- The content type of files whose extension the table does not list.
abbrev pub default_type : Bytes
default_type = codes "application/octet-stream"

abbrev pub type_or_default : Option Bytes → Bytes
type_or_default none = default_type
type_or_default (some t) = t

unfoldable pub mime_type_by_extension : Bytes → Bytes
unfolding lookup compare_bytes
mime_type_by_extension extension = type_or_default (lookup compare_bytes extension mime_type_table)
