-- ===== src/Zip/Opening.antt =====
-- internal/vfs/zip/archive.go: opening an archive, which many requests do at the same time.
use gitlab_pages_mirror.Common.{
  ℕ, Text, Bool, true, false, Option, none, some, List, [], ◌∷◌, ◌++◌, Result, ok, err, ◌≡◌,
  if◌then◌else◌,
}
use gitlab_pages_mirror.Common.Int.{ℤ}
use gitlab_pages_mirror.Ranges.Resources.{
  RangeError, HttpClient, Resource, set_url, set_error, new_resource,
}
use gitlab_pages_mirror.Zip.Entries.{Header, ZipLibrary, Archive, empty_archive, add_entries}

-- An error of httprange, of archive/zip, or of the context of the request.
pub data OpenError : Type 0 where
  range_error : RangeError → OpenError
  bad_archive context_ended : OpenError

-- A zipArchive: `started` is that of its once, `reading` the addresses of the goroutines readArchive
-- that run, and `number` that of its cache namespace.
pub record ZipArchive : Type 0 where
  pub started : Bool
  pub reading : List Text
  pub done : Bool
  pub error : Option OpenError
  pub resource : Option Resource
  pub tables : Archive
  pub number : ℕ

unfoldable pub new_archive : ℕ → ZipArchive
unfolding empty_archive
new_archive number = record {
  started = false;
  reading = [];
  done = false;
  error = none;
  resource = none;
  tables = empty_archive;
  number = number;
}

pub data Status : Type 0 where
  opening opened : Status
  open_failed : OpenError → Status
  corrupted : RangeError → Status

abbrev pub status_of : Bool → Option OpenError → Option (Option RangeError) → Status
status_of false e r = opening
status_of true (some e) r = open_failed e
status_of true none (some (some e)) = corrupted e
status_of true none (some none) = opened
status_of true none none = opened

abbrev pub resource_error : Option Resource → Option (Option RangeError)
resource_error none = none
resource_error (some r) = some r.error

unfoldable pub open_status : ZipArchive → Status
open_status a = status_of a.done a.error (resource_error a.resource)

abbrev pub on_resource : (Resource → Resource) → Option Resource → Option Resource
on_resource f none = none
on_resource f (some r) = some (f r)

-- What openArchive answers at once; none when it waits for the archive to be read.
abbrev pub status_answer : Status → Option (Option OpenError)
status_answer opening = none
status_answer opened = some none
status_answer (open_failed e) = some (some e)
status_answer (corrupted e) = some (some (range_error e))

abbrev pub start : Status → Text → ZipArchive → ZipArchive
start opening url a =
    if a.started then a else record a { started = true; reading = url ∷ a.reading }
start _ url a = a

-- openArchive up to its wait.
unfoldable pub open_archive : Text → ZipArchive → ZipArchive × Option (Option OpenError)
unfolding set_url open_status
open_archive url a =
    let a' = record a { resource = on_resource (set_url url) a.resource } in
    (start (open_status a') url a', status_answer (open_status a'))

-- The rest of openArchive, where the archive is done, or the context is.
unfoldable pub await_archive : ZipArchive → Bool → Option (Option OpenError)
await_archive a context_done =
    if a.done then some a.error else if context_done then some (some context_ended) else none

module _ (lib : ZipLibrary) (parse_int : Text → Option ℤ) (client : HttpClient)
    (list : Resource → Resource × Result OpenError (List Header)) where
  unfoldable pub read_tables : Resource × Result OpenError (List Header) → ZipArchive → ZipArchive
  unfolding add_entries empty_archive
  read_tables (r, err e) a = record a { done = true; resource = some r; error = some e }
  read_tables (r, ok entries) a = record a {
    done = true;
    resource = some r;
    tables = add_entries lib entries a.tables;
  }

  unfoldable pub read_resource : Result RangeError Resource → ZipArchive → ZipArchive
  unfolding read_tables
  read_resource (err e) a = record a { done = true; resource = none; error = some (range_error e) }
  read_resource (ok r) a = read_tables (list r) a

  -- readArchive; `list` is zip.NewReader over the ranged reader of the resource.
  unfoldable pub read_archive : Text → ZipArchive → ZipArchive
  unfolding new_resource read_resource
  read_archive url a = read_resource (new_resource parse_int client url) a

  -- What happens to an archive: a request opens it, one of its goroutines ends, or a read of its resource
  -- finds that the resource is not usable any more.
  pub data Step : ZipArchive → ZipArchive → Type 0 where
    request : (url : Text) (a : ZipArchive) → Step a (open_archive url a).0
    finish :
        (url : Text) (before after : List Text) (a : ZipArchive)
        → a.reading ≡ before ++ url ∷ after
        → Step a (read_archive url (record a { reading = before ++ after }))
    break :
        (e : RangeError) (r : Resource) (a : ZipArchive)
        → a.resource ≡ some r
        → a.done ≡ true
        → Step a (record a { resource = some (set_error e r) })

  pub data Steps : ZipArchive → ZipArchive → Type 0 where
    none_yet : (a : ZipArchive) → Steps a a
    and_then : (a b c : ZipArchive) → Steps a b → Step b c → Steps a c
