-- ===== src/StaticFiles/Update.antt =====
-- What the cache holds after an update, by what is on the disk and what it held before.
use anweb.Prelude.{
  ℕ, ◌≡◌, refl, sym, ap, ◌∙◌, arith, Bool, true, false, Option, none, some, List, [], ◌∷◌, ◌++◌,
  if◌then◌else◌, Bytes, bytes_eq, bytes_eq_iff, Bool-cases, inl, inr, ltb,
}
use anweb.StaticFiles.{
  StaticFile, Files, find, Listing, end, file, directory, unreadable_directory, remove_nonexistent,
  Crates, Builder, check_file_and_cache_if_need, update_dir, update, get, path_in, loaded,
}
use anweb.StaticFiles.Cache.{find-remove_nonexistent, find-check, check-unreadable, refreshed}

-- The files that can be read, each with its path, its time of modification and its content.
abbrev pub DiskFiles : Type 0
DiskFiles = List (Bytes × (ℕ × Bytes))

abbrev pub files_of : Bytes → Listing → DiskFiles
files_of s end = []
files_of s (file n none content rest) = files_of s rest
files_of s (file n (some modified) none rest) = files_of s rest
files_of s (file n (some modified) (some raw_data) rest) =
    (path_in s n, (modified, raw_data)) ∷ files_of s rest
files_of s (directory n inner rest) = files_of (path_in s n) inner ++ files_of s rest
files_of s (unreadable_directory n rest) = files_of s rest

abbrev pub AreReadable : Listing → Type 0
AreReadable end = Unit
AreReadable (file n modified content rest) = AreReadable rest
AreReadable (directory n inner rest) = AreReadable inner × AreReadable rest
AreReadable (unreadable_directory n rest) = ⊥

abbrev pub IsNew : Bytes → DiskFiles → Type 0
IsNew path [] = Unit
IsNew path ((key, f) ∷ rest) = (bytes_eq key path ≡ false) × IsNew path rest

-- No path comes twice.
abbrev pub AreDistinct : DiskFiles → Type 0
AreDistinct [] = Unit
AreDistinct ((path, f) ∷ rest) = IsNew path rest × AreDistinct rest

abbrev pub look : Bytes → DiskFiles → Option (ℕ × Bytes)
look q [] = none
look q ((path, f) ∷ rest) = if bytes_eq path q then some f else look q rest

module _ (crates : Crates) (settings : Builder) where
  abbrev check_all : DiskFiles → Files → Files
  check_all [] files = files
  check_all ((path, (modified, raw_data)) ∷ rest) files =
      check_all rest
        (check_file_and_cache_if_need crates settings path (some modified) (some raw_data) files)

  check_all-append :
      (xs ys : DiskFiles) (files : Files)
      → check_all (xs ++ ys) files ≡ check_all ys (check_all xs files)
  check_all-append [] ys files = refl
  check_all-append ((path, (m, c)) ∷ xs) ys files = check_all-append xs ys _

  update_dir-eq :
      (s : Bytes) (disk : Listing) (files : Files)
      → AreReadable disk
      → update_dir crates settings s disk files ≡ check_all (files_of s disk) files
  unfolding update_dir check_file_and_cache_if_need
  update_dir-eq s end files h = refl
  update_dir-eq s (file n none content rest) files h = update_dir-eq s rest files h
  update_dir-eq s (file n (some m) none rest) files h =
      ap (update_dir crates settings s rest)
        (check-unreadable crates settings (path_in s n) m files)
      ∙ update_dir-eq s rest files h
  update_dir-eq s (file n (some m) (some c) rest) files h = update_dir-eq s rest _ h
  update_dir-eq s (directory n inner rest) files h =
      ap (update_dir crates settings s rest) (update_dir-eq (path_in s n) inner files h.0)
      ∙ update_dir-eq s rest _ h.1
      ∙ sym (check_all-append (files_of (path_in s n) inner) (files_of s rest) files)
  update_dir-eq s (unreadable_directory _ _) files h = elim h [ ]

  look-new : (q : Bytes) (fs : DiskFiles) → IsNew q fs → look q fs ≡ none
  look-new q [] h = refl
  look-new q ((path, f) ∷ rest) h = rw h.0 (look-new q rest h.1)

  -- What is kept of the path q, by what the disk has of it and what was kept before.
  abbrev pub updated : Bytes → Option (ℕ × Bytes) → Option StaticFile → Option StaticFile
  updated q none kept = kept
  updated q (some (modified, raw_data)) kept =
      some (refreshed crates settings q modified raw_data kept)

  find-check_all :
      (fs : DiskFiles) (files : Files) (q : Bytes)
      → AreDistinct fs
      → find q (check_all fs files) ≡ updated q (look q fs) (find q files)
  find-check_all [] files q h = refl
  find-check_all ((path, (m, c)) ∷ rest) files q h =
      let step = find-check crates settings path q m c files in
      let later =
        find-check_all rest
          (check_file_and_cache_if_need crates settings path (some m) (some c) files) q h.1 in
      elim (Bool-cases (bytes_eq path q)) [
        | inl same ↦
            let equal : path ≡ q = (bytes_eq_iff path q).0 same in
            let new : IsNew q rest = rw⁻¹ equal h.0 in
            let once : find q
                  (check_file_and_cache_if_need crates settings path (some m) (some c) files)
                ≡ some (refreshed crates settings path m c (find path files)) =
              rw same at step in
            rw (same, later, look-new q rest new, once, equal) refl
        | inr other ↦
            let once : find q
                  (check_file_and_cache_if_need crates settings path (some m) (some c) files)
                ≡ find q files =
              rw other at step in
            rw (other, later, once) refl
      ]

  find-update :
      (exists : Bytes → Bool) (disk : Listing) (files : Files) (q : Bytes)
      → AreReadable disk
      → AreDistinct (files_of [] disk)
      → find q (update crates settings exists (some disk) files)
        ≡ updated q (look q (files_of [] disk)) (if exists q then find q files else none)
  unfolding update
  find-update exists disk files q readable distinct =
      ap (find q) (update_dir-eq [] disk (remove_nonexistent exists files) readable)
      ∙ find-check_all (files_of [] disk) (remove_nonexistent exists files) q distinct
      ∙ ap (updated q (look q (files_of [] disk))) (find-remove_nonexistent exists files q)

  -- What is got of a path after an update, whatever the cache held before, from a directory whose
  -- subdirectories can be read and in which no path comes twice: of a file that can be read, what is
  -- loaded of it now, unless what was kept of a path that exists is at least as new, and then that; of
  -- another path what was kept, if the path exists, whatever the system answers to that.
  pub get-update :
      (exists : Bytes → Bool) (disk : Listing) (files : Files) (q : Bytes)
      → AreReadable disk
      → AreDistinct (files_of [] disk)
      → get (b'/' ∷ q) (update crates settings exists (some disk) files)
        ≡ updated q (look q (files_of [] disk)) (if exists q then find q files else none)
  unfolding get bytes_eq
  get-update exists disk files q readable distinct =
      find-update exists disk files q readable distinct

  loaded-again :
      (q : Bytes) (modified : ℕ) (raw_data : Bytes)
      → refreshed crates settings q modified raw_data
          (some (loaded crates settings q modified raw_data))
        ≡ loaded crates settings q modified raw_data
  unfolding loaded
  loaded-again q m c = ground arith

  refreshed-again :
      (q : Bytes) (modified : ℕ) (raw_data : Bytes) (kept : Option StaticFile)
      → refreshed crates settings q modified raw_data
          (some (refreshed crates settings q modified raw_data kept))
        ≡ refreshed crates settings q modified raw_data kept
  refreshed-again q m c none = loaded-again q m c
  refreshed-again q m c (some f) = elim (Bool-cases (ltb f.last_modified m)) [
    | inl newer ↦ rw newer (loaded-again q m c)
    | inr older ↦ rw (older, older) refl
  ]

  updated-again :
      (q : Bytes) (on_disk : Option (ℕ × Bytes)) (there : Bool) (kept : Option StaticFile)
      → updated q on_disk (if there then updated q on_disk (if there then kept else none) else none)
        ≡ updated q on_disk (if there then kept else none)
  updated-again q none true kept = refl
  updated-again q none false kept = refl
  updated-again q (some (m, c)) true kept = ap some (refreshed-again q m c kept)
  updated-again q (some (m, c)) false kept = refl

  -- A second update of the same disk changes nothing that can be got, whatever the cache held before
  -- the first, from a directory whose subdirectories can be read and in which no path comes twice.
  pub update-update :
      (exists : Bytes → Bool) (disk : Listing) (files : Files) (q : Bytes)
      → AreReadable disk
      → AreDistinct (files_of [] disk)
      → get (b'/' ∷ q) (
          update crates settings exists
            (some disk)
            (update crates settings exists (some disk) files))
        ≡ get (b'/' ∷ q) (update crates settings exists (some disk) files)
  unfolding get bytes_eq
  update-update exists disk files q readable distinct =
      let on_disk = look q (files_of [] disk) in
      find-update exists disk (update crates settings exists (some disk) files) q readable distinct
      ∙ ap (λ k. updated q on_disk (if exists q then k else none))
          (find-update exists disk files q readable distinct)
      ∙ updated-again q on_disk (exists q) (find q files)
      ∙ sym (find-update exists disk files q readable distinct)
