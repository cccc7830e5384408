-- ===== src/Zip/Archives.antt =====
-- internal/vfs/zip/archive.go: Open, Lstat and Readlink on an archive that has been read.
use gitlab_pages_mirror.Common.{
  ℕ, ◌+◌, ◌%◌, ◌^◌, Text, not, Option, none, some, [], ◌∷◌, Result, ok, err, ltb, ◌==◌, take,
  length, if◌then◌else◌,
}
use gitlab_pages_mirror.Common.Int.{ℤ, pos, sub_ℕ}
use gitlab_pages_mirror.Ranges.Readers.{Reader, new_reader}
use gitlab_pages_mirror.Zip.Entries.{
  Header, StreamEnd, at_end, cut_off, broken, ZipLibrary, Archive, find_file, find_directory,
}
use gitlab_pages_mirror.Zip.Lru.{LruCache, find_or_fetch}

pub data ZipError : Type 0 where
  not_symlink symlink_size not_file not_exist fetch_failed : ZipError
  unsupported_method : ℕ → ZipError

abbrev pub max_symlink_size : ℕ
max_symlink_size = 256

-- zip.Store and zip.Deflate
abbrev pub method_store : ℕ
method_store = 0

abbrev pub method_deflate : ℕ
method_deflate = 8

-- int64(n) of a uint64.
unfoldable pub to_int64 : ℕ → ℤ
to_int64 n = let m = n % 2 ^ 64 in if ltb m (2 ^ 63) then pos m else sub_ℕ m (2 ^ 64)

-- The file that Open returns: the section of the archive, inflated or as it is.
pub data OpenFile : Type 0 where
  deflated stored : Reader → OpenFile

abbrev pub answer_missing {ℓ} : {A : Type ℓ} → ZipError → Option Header → Result ZipError A
answer_missing e (some _) = err e
answer_missing e none = err not_exist

unfoldable pub lstat : Archive → Text → Result ZipError Header
unfolding find_file find_directory
lstat a name = elim (find_file a name) [
  | some file ↦ ok file
  | none ↦ elim (find_directory a name) [ some directory ↦ ok directory | none ↦ err not_exist ]
]

-- The reader of a file whose data begins at this offset.
unfoldable pub section : Header → ℤ → Result ZipError OpenFile
unfolding new_reader to_int64
section file offset =
    let reader = new_reader offset (to_int64 file.compressed_size) in
    if file.method == method_deflate
    then ok (deflated reader)
    else if file.method == method_store
    then ok (stored reader)
    else err (unsupported_method file.method)

module _ (lib : ZipLibrary) where
  module _ (C : LruCache ℤ) where
    open C use {State}

    unfoldable pub open_fetched : Header → State × Option ℤ → State × Result ZipError OpenFile
    unfolding section
    open_fetched file (s, none) = (s, err fetch_failed)
    open_fetched file (s, some offset) = (s, section file offset)

    -- Open, on the file and the directory that are found under the name.
    unfoldable pub open_found :
        ℕ → Text → Text → State → Option Header → Option Header → State × Result ZipError OpenFile
    unfolding find_or_fetch open_fetched
    open_found now namespace name s none directory = (s, answer_missing not_file directory)
    open_found now namespace name s (some file) directory =
        if not (lib.mode file).is_regular
        then (s, err not_file)
        else open_fetched file (find_or_fetch C now namespace name (lib.data_offset file) s)

    -- Open; the cache is that of the data offsets.
    unfoldable pub open_file : ℕ → Text → Archive → Text → State → State × Result ZipError OpenFile
    unfolding find_file find_directory open_found
    open_file now namespace a name s =
        open_found now namespace name s (find_file a name) (find_directory a name)

  -- io.ReadFull of less than its buffer: io.EOF without a byte, and io.ErrUnexpectedEOF with some,
  -- which the fetch function takes for the end of the link. It takes that of the reader itself for
  -- the same.
  abbrev pub short_bytes : StreamEnd → Text → Option Text
  short_bytes at_end [] = none
  short_bytes at_end (c ∷ s) = some (c ∷ s)
  short_bytes cut_off s = some s
  short_bytes broken s = none

  -- What the fetch function of Readlink gives, with a buffer of one byte more than a link may have.
  abbrev pub first_bytes : Option (Text × StreamEnd) → Option Text
  first_bytes none = none
  first_bytes (some (s, end)) =
      if ltb max_symlink_size (length s)
      then some (take (max_symlink_size + 1) s)
      else short_bytes end s

  unfoldable pub read_link : Header → Option Text
  read_link file = first_bytes (lib.contents file)

  module _ (C : LruCache Text) where
    open C use {State}

    abbrev pub link_fetched : State × Option Text → State × Result ZipError Text
    link_fetched (s, none) = (s, err fetch_failed)
    link_fetched (s, some symlink) =
        (s, if ltb max_symlink_size (length symlink) then err symlink_size else ok symlink)

    -- Readlink, on the file and the directory that are found under the name.
    unfoldable pub readlink_found :
        ℕ → Text → Text → State → Option Header → Option Header → State × Result ZipError Text
    unfolding find_or_fetch read_link
    readlink_found now namespace name s none directory = (s, answer_missing not_symlink directory)
    readlink_found now namespace name s (some file) directory =
        if not (lib.mode file).is_symlink
        then (s, err not_symlink)
        else link_fetched (find_or_fetch C now namespace name (read_link file) s)

    -- Readlink; the cache is that of the links.
    unfoldable pub readlink : ℕ → Text → Archive → Text → State → State × Result ZipError Text
    unfolding find_file find_directory readlink_found
    readlink now namespace a name s =
        readlink_found now namespace name s (find_file a name) (find_directory a name)
