-- ===== src/Zip/Entries.antt =====
-- internal/vfs/zip/archive.go: the tables of an archive, made from the entries of its directory.
-- The package archive/zip is a parameter.
use gitlab_pages_mirror.Common.{
  ℕ, Text, codes, Bool, Option, List, [], ◌∷◌, ◌++◌, text_eq, has_prefix, clean, path_split_dir,
  Dict, dict_empty, dict_get, dict_put, dict_has, if◌then◌else◌,
}
use gitlab_pages_mirror.Common.Int.{ℤ}

-- zip.FileHeader, as far as the program reads it; a zip.File is its header here.
pub record Header : Type 0 where
  pub name : Text
  pub method : ℕ
  pub compressed_size : ℕ
  pub size : ℕ
  pub attributes : ℕ
  pub modified : ℕ

-- os.FileMode, as far as the program asks.
pub record Mode : Type 0 where
  pub is_dir : Bool
  pub is_regular : Bool
  pub is_symlink : Bool

-- How the bytes of a file's reader end: with io.EOF, with an io.ErrUnexpectedEOF of its own, as for
-- a body that is closed early, or with another error.
pub data StreamEnd : Type 0 where
  at_end cut_off broken : StreamEnd

-- The package archive/zip over one remote archive: Mode of a header, DataOffset of a file, and what
-- a file's reader gives and how that ends, none where opening fails.
pub record ZipLibrary : Type 0 where
  pub mode : Header → Mode
  pub data_offset : Header → Option ℤ
  pub contents : Header → Option (Text × StreamEnd)

abbrev pub dir_prefix : Text
dir_prefix = codes "public/"

-- The tables of a zipArchive.
pub record Archive : Type 0 where
  pub files : Dict Header
  pub directories : Dict Header

unfoldable pub empty_archive : Archive
unfolding dict_empty
empty_archive = record { files = dict_empty; directories = dict_empty }

abbrev pub directory_header : Text → Header
directory_header name = record {
  name = name;
  method = 0;
  compressed_size = 0;
  size = 0;
  attributes = 0;
  modified = 0;
}

-- addPathDirectory, on the directory that path.Split gives.
unfoldable pub add_directory : Text → Archive → Archive
unfolding dict_get dict_put text_eq
add_directory dir a =
    if text_eq dir []
    then a
    else if dict_has a.directories dir
    then a
    else record a { directories = dict_put a.directories dir (directory_header dir) }

unfoldable pub add_path_directory : Text → Archive → Archive
unfolding path_split_dir add_directory
add_path_directory pathname a = add_directory (path_split_dir pathname) a

module _ (lib : ZipLibrary) where
  unfoldable pub put_entry : Header → Archive → Archive
  unfolding dict_put
  put_entry f a =
      if (lib.mode f).is_dir
      then record a { directories = dict_put a.directories f.name f }
      else record a { files = dict_put a.files f.name f }

  -- One round of the loop of readArchive.
  unfoldable pub add_entry : Header → Archive → Archive
  unfolding has_prefix put_entry add_path_directory
  add_entry f a =
      if has_prefix f.name dir_prefix then add_path_directory f.name (put_entry f a) else a

  -- The loop of readArchive.
  unfoldable pub add_entries : List Header → Archive → Archive
  unfolding add_entry
  add_entries [] a = a
  add_entries (f ∷ rest) a = add_entries rest (add_entry f a)

unfoldable pub find_file : Archive → Text → Option Header
unfolding clean dict_get
find_file a name = dict_get a.files (clean (dir_prefix ++ name))

unfoldable pub find_directory : Archive → Text → Option Header
unfolding clean dict_get
find_directory a name = dict_get a.directories (clean (dir_prefix ++ name) ++ b'/' ∷ [])
