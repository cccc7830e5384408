-- ===== src/Zip/Finding.antt =====
-- internal/vfs/zip/archive.go: what the tables hold after an archive is read.
use gitlab_pages_mirror.Common.{
  Text, text_eq, text_eq_iff, has_prefix, clean, path_split_dir, Bool, true, false, not, ◌&&◌, ◌||◌,
  Option, none, some, List, [], ◌∷◌, ◌++◌, ◌≡◌, refl, ap, ◌∙◌, arith, dict_get, dict_put, dict_has,
  dict_get-put, dict_empty, if◌then◌else◌, is_some, if-cases, Dict,
}
use gitlab_pages_mirror.Zip.Entries.{
  Header, ZipLibrary, Archive, empty_archive, directory_header, add_directory, add_path_directory,
  put_entry, add_entry, add_entries, dir_prefix, find_file, find_directory,
}

module _ (lib : ZipLibrary) where
  -- A file under public/ with this name.
  abbrev pub is_public_file : Text → Header → Bool
  is_public_file k f = has_prefix f.name dir_prefix && (not (lib.mode f).is_dir && text_eq f.name k)

  -- A directory under public/ with this name, or what stands directly in such a directory.
  abbrev pub is_in_directory : Text → Header → Bool
  is_in_directory k f =
      has_prefix f.name dir_prefix
      && (((lib.mode f).is_dir && text_eq f.name k)
          || (not (text_eq (path_split_dir f.name) []) && text_eq (path_split_dir f.name) k))

  -- The last file with this name, behind what was known before.
  abbrev pub last_file : Text → List Header → Option Header → Option Header
  last_file k [] known = known
  last_file k (f ∷ rest) known = last_file k rest (if is_public_file k f then some f else known)

  abbrev pub any_in : Text → List Header → Bool → Bool
  any_in k [] known = known
  any_in k (f ∷ rest) known = any_in k rest (known || is_in_directory k f)

  dict_has-put :
      (m : Dict Header) (k j : Text) (v : Header)
      → dict_has (dict_put m k v) j ≡ (dict_has m j || text_eq k j)
  dict_has-put m k j v = rw (dict_get-put m k j v) (ground arith)

  add_directory_files : (dir : Text) (a : Archive) → (add_directory dir a).files ≡ a.files
  unfolding add_directory
  add_directory_files dir a = ground arith

  -- A directory that is known already is known in either case.
  known_in :
      (dir k : Text) (m : Dict Header)
      → dict_has m dir ≡ true
      → dict_has m k ≡ (dict_has m k || text_eq dir k)
  known_in dir k m h = ground (arith, text_eq_iff dir k)

  add_directory_has :
      (dir k : Text) (a : Archive)
      → dict_has (add_directory dir a).directories k
        ≡ (dict_has a.directories k || (not (text_eq dir []) && text_eq dir k))
  unfolding add_directory
  add_directory_has dir k a =
      if-cases
        (λ (x : Archive).
          dict_has x.directories k
          ≡ (dict_has a.directories k || (not (text_eq dir []) && text_eq dir k)))
        (text_eq dir []) _ _ (λ e. ground (arith, e))
        (λ e.
          if-cases
            (λ (x : Archive).
              dict_has x.directories k
              ≡ (dict_has a.directories k || (not (text_eq dir []) && text_eq dir k)))
            (dict_has a.directories dir) _ _ (λ h. rw e (known_in dir k a.directories h))
            (λ h. rw e (dict_has-put a.directories dir k (directory_header dir))))

  put_entry_files :
      (k : Text) (f : Header) (a : Archive)
      → dict_get (put_entry lib f a).files k
        ≡ (if not (lib.mode f).is_dir && text_eq f.name k then some f else dict_get a.files k)
  unfolding put_entry
  put_entry_files k f a =
      if-cases
        (λ (x : Archive).
          dict_get x.files k
          ≡ (if not (lib.mode f).is_dir && text_eq f.name k then some f else dict_get a.files k))
        (lib.mode f).is_dir _ _ (λ e. rw e refl) (λ e. rw e (dict_get-put a.files f.name k f))

  put_entry_has :
      (k : Text) (f : Header) (a : Archive)
      → dict_has (put_entry lib f a).directories k
        ≡ (dict_has a.directories k || ((lib.mode f).is_dir && text_eq f.name k))
  unfolding put_entry
  put_entry_has k f a =
      if-cases
        (λ (x : Archive).
          dict_has x.directories k
          ≡ (dict_has a.directories k || ((lib.mode f).is_dir && text_eq f.name k)))
        (lib.mode f).is_dir _ _ (λ e. rw e (dict_has-put a.directories f.name k f))
        (λ e. rw e (ground arith))

  entry_files :
      (k : Text) (f : Header) (a : Archive)
      → dict_get (add_entry lib f a).files k
        ≡ (if is_public_file k f then some f else dict_get a.files k)
  unfolding add_entry add_path_directory
  entry_files k f a =
      if-cases
        (λ (x : Archive).
          dict_get x.files k ≡ (if is_public_file k f then some f else dict_get a.files k))
        (has_prefix f.name dir_prefix) _ _
        (λ e. rw e (
          ap (λ m. dict_get m k) (add_directory_files (path_split_dir f.name) (put_entry lib f a))
          ∙ put_entry_files k f a))
        (λ e. rw e refl)

  entry_has :
      (k : Text) (f : Header) (a : Archive)
      → dict_has (add_entry lib f a).directories k
        ≡ (dict_has a.directories k || is_in_directory k f)
  unfolding add_entry add_path_directory
  entry_has k f a =
      if-cases
        (λ (x : Archive).
          dict_has x.directories k ≡ (dict_has a.directories k || is_in_directory k f))
        (has_prefix f.name dir_prefix) _ _
        (λ e. rw e (
          add_directory_has (path_split_dir f.name) k (put_entry lib f a)
          ∙ rw (put_entry_has k f a) (ground arith)))
        (λ e. rw e (ground arith))

  -- What the tables answer to any key after the loop.
  add_entries_answers :
      (k : Text) (es : List Header) (a : Archive)
      → (dict_get (add_entries lib es a).files k ≡ last_file k es (dict_get a.files k))
        × (dict_has (add_entries lib es a).directories k ≡ any_in k es (dict_has a.directories k))
  unfolding add_entries
  add_entries_answers k [] a = (refl, refl)
  add_entries_answers k (f ∷ rest) a =
      let (files, directories) = add_entries_answers k rest (add_entry lib f a) in
      (
        files ∙ ap (last_file k rest) (entry_files k f a),
        directories ∙ ap (any_in k rest) (entry_has k f a),
      )

  -- After an archive is read, a file is found exactly as the last entry under public/ that is no
  -- directory and has the cleaned name, and a directory is found exactly when it is an entry
  -- under public/ or directly holds one.
  pub add_entries_finds :
      (es : List Header) (name : Text)
      → (find_file (add_entries lib es empty_archive) name
          ≡ last_file (clean (dir_prefix ++ name)) es none)
        × (is_some (find_directory (add_entries lib es empty_archive) name)
            ≡ any_in (clean (dir_prefix ++ name) ++ b'/' ∷ []) es false)
  unfolding find_file find_directory empty_archive dict_empty dict_get
  add_entries_finds es name = (
    (add_entries_answers (clean (dir_prefix ++ name)) es empty_archive).0,
    (add_entries_answers (clean (dir_prefix ++ name) ++ b'/' ∷ []) es empty_archive).1,
  )
