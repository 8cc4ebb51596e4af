-- ===== src/StaticFiles/Tests.antt =====
-- A small directory, and the theorems at it.
use anweb.Prelude.{
  ◌≡◌, refl, Bool, true, none, some, [], ◌∷◌, codes, bytes_eq, if◌then◌else◌, Bytes,
}
use anweb.Request.{new_request}
use anweb.Response.{need_close_by_request}
use anweb.Multipart.{position_of, starts_with}
use anweb.StaticFiles.{
  StaticFile, Files, Listing, end, file, directory, Crates, default_builder, get, find, update,
  loaded, send_response, chosen,
}
use anweb.StaticFiles.Answers.{IsAnswer, answer_bytes, send_response-IsAnswer}
use anweb.StaticFiles.Update.{AreDistinct, files_of, look, updated, get-update, update-update}

abbrev some_crates : Crates
some_crates = record {
  deflate_bytes = λ b. b'd' ∷ b;
  deflate_bytes_gzip = λ b. b'g' ∷ b;
  md5 = λ b. b'm' ∷ b;
  rfc7231 = λ n. n ∷ [];
  extension = λ p. codes "html";
}

abbrev disk : Listing
disk =
    file (codes "a.html") (some 5) (some (codes "hello"))
      (directory (codes "sub") (file (codes "b.html") (some 6) (some (codes "world")) end) end)

disk-AreDistinct : AreDistinct (files_of [] disk)
unfolding bytes_eq
disk-AreDistinct = ((refl, tt), (tt, tt))

-- The paths of the disk, and one that is a link to elsewhere.
abbrev present : Bytes → Bool
present p =
    if bytes_eq p (codes "a.html")
    then true
    else if bytes_eq p (codes "sub")
    then true
    else if bytes_eq p (codes "sub/b.html")
    then true
    else bytes_eq p (codes "link.html")

abbrev old : StaticFile
old = record {
  raw_data = codes "old";
  deflate_data = none;
  gzip_data = none;
  content_type = [];
  last_modified = 3;
  last_modified_rfc7231 = [];
  etag = [];
}

abbrev files : Files
files = (codes "a.html", old) ∷ (codes "gone.html", old) ∷ (codes "link.html", old) ∷ []

get-update_example :
    get (codes "/a.html") (update some_crates default_builder present (some disk) files)
    ≡ updated some_crates default_builder
        (codes "a.html")
        (look (codes "a.html") (files_of [] disk))
        (if present (codes "a.html") then find (codes "a.html") files else none)
get-update_example =
    get-update some_crates default_builder present disk files (codes "a.html") (tt, tt)
      disk-AreDistinct

gone :
    get (codes "/gone.html") (update some_crates default_builder present (some disk) files) ≡ none
unfolding get update bytes_eq
gone = refl

-- A path that exists stays in the cache, also where what it links to is not in the listing.
linked :
    get (codes "/link.html") (update some_crates default_builder present (some disk) files)
    ≡ some old
unfolding get update bytes_eq
linked = refl

below :
    get (codes "sub/b.html") (update some_crates default_builder present (some disk) files)
    ≡ some (loaded some_crates default_builder (codes "sub/b.html") 6 (codes "world"))
unfolding get update bytes_eq
below = refl

update-update_example :
    get (codes "/a.html") (
      update some_crates default_builder present
        (some disk)
        (update some_crates default_builder present (some disk) files))
    ≡ get (codes "/a.html") (update some_crates default_builder present (some disk) files)
update-update_example =
    update-update some_crates default_builder present disk files (codes "a.html") (tt, tt)
      disk-AreDistinct

old_found : get (codes "/a.html") files ≡ some old
unfolding get bytes_eq
old_found = refl

send_response-IsAnswer_example :
    IsAnswer
      (need_close_by_request new_request)
      (answer_bytes (codes "now") new_request old)
      (send_response 2 (codes "now") (codes "/a.html") new_request files)
send_response-IsAnswer_example =
    send_response-IsAnswer 2 (codes "now") (codes "/a.html") new_request files old old_found

abbrev zipped : StaticFile
zipped = record old { deflate_data = some (codes "d"); gzip_data = some (codes "g") }

-- A browser that takes gzip alone gets a file that is kept as deflate and as gzip as it is.
gzip_not_sent : chosen (some (codes "gzip")) zipped ≡ (codes "old", [])
unfolding chosen position_of starts_with
gzip_not_sent = refl

-- A directory in place of a file keeps the file in the cache.
replaced :
    get (codes "a.html") (
      update some_crates default_builder
        (λ p. true)
        (some (directory (codes "a.html") end end))
        files)
    ≡ some old
unfolding get update bytes_eq
replaced = refl
