-- ===== src/StaticFiles.antt =====
-- src/static_files.rs: the files of a directory that are kept in memory, and the answers from them.
-- The files of a directory are what `read_dir` lists, the cache is a list of paths with what is kept.
pub mod Cache
pub mod Answers
pub mod Update
mod Tests
use anweb.Prelude.{
  ℕ, ◌+◌, ◌*◌, Bool, true, false, ◌||◌, not, Option, none, some, List, [], ◌∷◌, ◌++◌, ltb,
  if◌then◌else◌, length, drop, take, is_empty, Bytes, codes, bytes_eq,
}
use anweb.Request.{RequestData, header_value, to_string_for_response}
use anweb.Response.{connection_str_by_request, need_close_by_request, decimal}
use anweb.Mime.{mime_type_by_extension}
use anweb.Multipart.{position_of}

-- `StaticFileCache`
pub record StaticFile : Type 0 where
  pub raw_data : Bytes
  pub deflate_data : Option Bytes
  pub gzip_data : Option Bytes
  pub content_type : Bytes
  pub last_modified : ℕ
  pub last_modified_rfc7231 : Bytes
  pub etag : Bytes

pub record Builder : Type 0 where
  pub deflate_encoding : Bool
  pub gzip_encoding : Bool
  pub use_last_modified : Bool
  pub use_etag : Bool
  pub deferred_load : Bool
  pub united_response_limit : ℕ

-- `Builder::default`, but for the interval of the thread.
abbrev pub default_builder : Builder
default_builder = record {
  deflate_encoding = true;
  gzip_encoding = true;
  use_last_modified = true;
  use_etag = true;
  deferred_load = false;
  united_response_limit = 200000;
}

-- What `read_dir` lists: files with their time of modification and their content, each where it can be
-- had, directories, and directories that cannot be read. Links and names that are not UTF-8 are left
-- out, as the code passes over them.
pub data Listing : Type 0 where
  end : Listing
  file : Bytes → Option ℕ → Option Bytes → Listing → Listing
  directory : Bytes → Listing → Listing → Listing
  unreadable_directory : Bytes → Listing → Listing

-- What is called of other crates and of the system: the two compressions, the hexadecimal MD5 sum, the
-- date of a time of modification, and the extension of a path.
pub record Crates : Type 0 where
  pub deflate_bytes : Bytes → Bytes
  pub deflate_bytes_gzip : Bytes → Bytes
  pub md5 : Bytes → Bytes
  pub rfc7231 : ℕ → Bytes
  pub extension : Bytes → Bytes

abbrev pub Files : Type 0
Files = List (Bytes × StaticFile)

-- `BTreeMap::get`
pub find : Bytes → Files → Option StaticFile
unfolding bytes_eq
find name [] = none
find name ((key, f) ∷ rest) =
    let later = find name rest in if bytes_eq key name then some f else later

-- `BTreeMap::insert`
pub insert : Bytes → StaticFile → Files → Files
unfolding bytes_eq
insert name f [] = (name, f) ∷ []
insert name f ((key, g) ∷ rest) =
    let later = insert name f rest in
    if bytes_eq key name then (key, f) ∷ rest else (key, g) ∷ later

-- The path of what a directory lists.
abbrev pub path_in : Bytes → Bytes → Bytes
path_in subdir_path name = if is_empty subdir_path then name else subdir_path ++ (b'/' ∷ name)

-- `StaticFilesCache::remove_nonexistent`; `exists` is what the system answers of a path, which
-- follows links.
pub remove_nonexistent : (Bytes → Bool) → Files → Files
remove_nonexistent exists [] = []
remove_nonexistent exists ((key, f) ∷ rest) =
    let kept = remove_nonexistent exists rest in if exists key then (key, f) ∷ kept else kept

module _ (crates : Crates) (settings : Builder) where
  -- What `StaticFilesCache::cache` keeps of a file.
  pub loaded : Bytes → ℕ → Bytes → StaticFile
  unfolding mime_type_by_extension
  loaded path modified raw_data = record {
    raw_data = raw_data;
    deflate_data = if settings.deflate_encoding then some (crates.deflate_bytes raw_data) else none;
    gzip_data = if settings.gzip_encoding then some (crates.deflate_bytes_gzip raw_data) else none;
    content_type = mime_type_by_extension (crates.extension path);
    last_modified = modified;
    last_modified_rfc7231 = if settings.use_last_modified then crates.rfc7231 modified else [];
    etag = if settings.use_etag then crates.md5 raw_data else [];
  }

  -- `StaticFilesCache::cache`, where the file can be read or not.
  pub cache : Bytes → ℕ → Option Bytes → Files → Files
  unfolding loaded insert
  cache path modified none files = files
  cache path modified (some raw_data) files = insert path (loaded path modified raw_data) files

  -- `StaticFilesCache::check_file_and_cache_if_need`
  pub check_file_and_cache_if_need : Bytes → Option ℕ → Option Bytes → Files → Files
  unfolding cache find
  check_file_and_cache_if_need path none content files = files
  check_file_and_cache_if_need path (some modified) content files = elim (find path files) [
    | none ↦ cache path modified content files
    | some f ↦ if ltb f.last_modified modified then cache path modified content files else files
  ]

  -- `StaticFilesCache::update_dir`, over what a directory lists; one that cannot be read clears all.
  pub update_dir : Bytes → Listing → Files → Files
  unfolding check_file_and_cache_if_need
  update_dir subdir_path end files = files
  update_dir subdir_path (file n modified content rest) files =
      update_dir subdir_path rest
        (check_file_and_cache_if_need (path_in subdir_path n) modified content files)
  update_dir subdir_path (directory n inner rest) files =
      update_dir subdir_path rest (update_dir (path_in subdir_path n) inner files)
  update_dir subdir_path (unreadable_directory n rest) files = update_dir subdir_path rest []

  -- `StaticFilesCache::update`
  pub update : (Bytes → Bool) → Option Listing → Files → Files
  unfolding remove_nonexistent update_dir
  update exists none files = []
  update exists (some listing) files = update_dir [] listing (remove_nonexistent exists files)

  -- The files of a cache that `StaticFilesCache::from_builder` makes.
  pub from_builder : (Bytes → Bool) → Option Listing → Files
  unfolding update
  from_builder exists disk = if settings.deferred_load then [] else update exists disk []

-- `StaticFilesCache::get`
pub get : Bytes → Files → Option StaticFile
unfolding find
get [] files = find [] files
get (c ∷ file_path) files =
    if bytes_eq (c ∷ []) (codes "/") then find file_path files else find (c ∷ file_path) files

-- What is done with the TCP session.
pub data Sending : Type 0 where
  close_after_send : Sending
  send send_arc : Bytes → Sending

pub data Sent : Type 0 where
  sent : List Sending → Sent
  not_found : Sent

abbrev pub same_value : Option Bytes → Bytes → Bool
same_value none value = false
same_value (some v) value = bytes_eq value v

-- Whether the copy of the browser is used.
pub apply_browser_cache : RequestData → StaticFile → Bool
unfolding header_value bytes_eq
apply_browser_cache request f =
    if not (is_empty f.etag)
    then same_value (header_value request (codes "If-None-Match")) f.etag
    else if not (is_empty f.last_modified_rfc7231)
    then same_value (header_value request (codes "If-Modified-Since")) f.last_modified_rfc7231
    else false

abbrev pub last_modified_line : StaticFile → Bytes
last_modified_line f =
    if is_empty f.last_modified_rfc7231
    then []
    else codes "Last-Modified: " ++ (f.last_modified_rfc7231 ++ codes "\r\n")

abbrev pub etag_line : StaticFile → Bytes
etag_line f = if is_empty f.etag then [] else codes "ETag: " ++ (f.etag ++ codes "\r\n")

-- The response 304.
pub not_modified : Bytes → RequestData → StaticFile → Bytes
unfolding to_string_for_response connection_str_by_request
not_modified date request f =
    to_string_for_response request.version
    ++ (codes " 304 Not Modified\r\nDate: "
        ++ (date
            ++ (codes "\r\n"
                ++ (connection_str_by_request request
                    ++ (last_modified_line f ++ (etag_line f ++ codes "\r\n"))))))

-- `text.contains(pattern)`
abbrev pub contains : Bytes → Bytes → Bool
contains text pattern = elim (position_of pattern text) [ none ↦ false | some i ↦ true ]

-- The content that is sent, and the header of its encoding.
pub chosen : Option Bytes → StaticFile → Bytes × Bytes
unfolding position_of
chosen none f = (f.raw_data, [])
chosen (some encoding) f = elim f.deflate_data [
  | some deflate_data ↦
      if contains encoding (codes "deflate")
      then (deflate_data, codes "Content-Encoding: deflate\r\n")
      else (f.raw_data, [])
  | none ↦ elim f.gzip_data [
    | some gzip_data ↦
        if contains encoding (codes "gzip")
        then (gzip_data, codes "Content-Encoding: gzip\r\n")
        else (f.raw_data, [])
    | none ↦ (f.raw_data, [])
  ]
]

-- The head of the response 200.
pub found_head : Bytes → RequestData → StaticFile → Bytes × Bytes → Bytes
unfolding to_string_for_response connection_str_by_request decimal
found_head date request f (bytes, content_header) =
    to_string_for_response request.version
    ++ (codes " 200 OK\r\nDate: "
        ++ (date
            ++ (codes "\r\n"
                ++ (connection_str_by_request request
                    ++ (content_header
                        ++ (last_modified_line f
                            ++ (etag_line f
                                ++ (codes "Content-Length: "
                                    ++ (decimal (length bytes)
                                        ++ (codes "\r\nContent-Type: "
                                            ++ (f.content_type ++ codes "\r\n\r\n")))))))))))

abbrev pub closing : Bool → List Sending
closing need_close = if need_close then close_after_send ∷ [] else []

-- The content in one write with its head where it is small, and behind it where it is not.
pub united : ℕ → Bool → Bytes → Bytes → List Sending
united united_response_limit need_close head bytes =
    if ltb (length bytes) united_response_limit
    then closing need_close ++ send (head ++ bytes) ∷ []
    else send head ∷ (closing need_close ++ send_arc bytes ∷ [])

abbrev pub answer : ℕ → Bytes → RequestData → StaticFile → List Sending
answer united_response_limit date request f =
    let need_close = need_close_by_request request in
    let content = chosen (header_value request (codes "Accept-Encoding")) f in
    if apply_browser_cache request f
    then closing need_close ++ send (not_modified date request f) ∷ []
    else united united_response_limit need_close (found_head date request f content) content.0

-- `StaticFilesCache::send_response`
pub send_response : ℕ → Bytes → Bytes → RequestData → Files → Sent
unfolding get apply_browser_cache not_modified chosen found_head united need_close_by_request
send_response united_response_limit date path request files = elim (get path files) [
  | none ↦ not_found
  | some f ↦ sent (answer united_response_limit date request f)
]
