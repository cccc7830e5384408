-- ===== src/Zip/Vfs.antt =====
-- internal/vfs/zip/vfs.go: the cache of archives. The package go-cache is a parameter: what its
-- documentation says of adding, deleting and finding items. The cache holds addresses into a heap
-- of archives; each operation runs under the lock of the file system.
use gitlab_pages_mirror.Common.{
  ℕ, zero, suc, ◌+◌, Bool, true, false, Text, Option, none, some, List, [], ◌∷◌, ◌++◌, ◌≡◌, ◌⊎◌,
  Result, ok, err, ltb, length, get_elem?, set, if◌then◌else◌,
}
use gitlab_pages_mirror.Ranges.Resources.{not_found}
use gitlab_pages_mirror.Zip.Opening.{
  OpenError, range_error, ZipArchive, new_archive, Status, opening, opened, open_failed, corrupted,
  open_status, open_archive,
}

-- cache.Cache of go-cache with its expiration: an item is found with the time at which it expires.
pub record ArchiveCache : Type 1 where
  pub State : Type 0
  pub new_cache : ℕ → ℕ → State
  pub get : ℕ → State → Text → Option (ℕ × ℕ)
  pub set_default : ℕ → State → Text → ℕ → State
  pub delete : State → Text → State
  pub add : ℕ → State → Text → ℕ → Option State
  pub get-new_cache : (t e c : ℕ) (k : Text) → get t (new_cache e c) k ≡ none
  pub get-delete_self : (t : ℕ) (s : State) (k : Text) → get t (delete s k) k ≡ none
  pub get-delete_old :
      (t : ℕ) (s : State) (k j : Text) (i : ℕ × ℕ)
      → get t (delete s k) j ≡ some i
      → get t s j ≡ some i
  pub add_absent :
      (t : ℕ) (s : State) (k : Text) (v : ℕ)
      → get t s k ≡ none
      → (s' : State) × (add t s k v ≡ some s')
  pub get-add :
      (t u : ℕ) (s s' : State) (k j : Text) (v : ℕ) (i : ℕ × ℕ)
      → add t s k v ≡ some s'
      → get u s' j ≡ some i
      → (i.0 ≡ v) ⊎ (get u s j ≡ some i)
  pub get-set_default :
      (t u : ℕ) (s : State) (k j : Text) (v : ℕ) (i : ℕ × ℕ)
      → get u (set_default t s k v) j ≡ some i
      → (i.0 ≡ v) ⊎ (get u s j ≡ some i)

pub data RootError : Type 0 where
  already_cached dangling not_exist : RootError
  open_error : OpenError → RootError

-- What Root makes of an error: a missing archive is a missing file for its callers.
abbrev pub known_error : RootError → RootError
known_error (open_error (range_error not_found)) = not_exist
known_error e = e

module _ (C : ArchiveCache) where
  open C use {State, get, set_default, delete, add}

  pub record World : Type 0 where
    pub cache : State
    pub heap : List ZipArchive
    pub now : ℕ

  -- The end of findOrCreateArchive, on what cache.Add answers.
  abbrev pub added : World → Option State → World × Result RootError ℕ
  added w (some s) = (record w { cache = s }, ok (length w.heap))
  added w none = (w, err already_cached)

  abbrev pub with_new : World → World × Result RootError ℕ → World × Result RootError ℕ
  unfolding new_archive
  with_new w (w', r) = (record w' { heap = w.heap ++ new_archive (suc (length w.heap)) ∷ [] }, r)

  -- The part of findOrCreateArchive that makes an archive; its number counts the archives made.
  unfoldable pub create_archive : World → Text → World × Result RootError ℕ
  unfolding with_new
  create_archive w key =
      let w' = record w { cache = delete w.cache key } in
      with_new w (added w' (add w.now w'.cache key (length w.heap)))

  module _ (refresh : ℕ) where
    -- findOrCreateArchive, on the status of the archive that is found.
    unfoldable pub use_found : World → Text → ℕ → ℕ → Status → World × Result RootError ℕ
    unfolding create_archive
    use_found w key a expiry opening = (w, ok a)
    use_found w key a expiry (open_failed e) = (w, ok a)
    use_found w key a expiry opened =
        if ltb expiry (w.now + refresh)
        then (record w { cache = set_default w.now w.cache key a }, ok a)
        else (w, ok a)
    use_found w key a expiry (corrupted e) = create_archive w key

    unfoldable pub found_at : World → Text → ℕ → ℕ → Option ZipArchive → World × Result RootError ℕ
    unfolding use_found open_status
    found_at w key a expiry none = (w, err dangling)
    found_at w key a expiry (some x) = use_found w key a expiry (open_status x)

    unfoldable pub on_item : World → Text → Option (ℕ × ℕ) → World × Result RootError ℕ
    unfolding found_at create_archive
    on_item w key none = create_archive w key
    on_item w key (some (a, expiry)) = found_at w key a expiry (get_elem? w.heap a)

    unfoldable pub find_or_create_archive : World → Text → World × Result RootError ℕ
    unfolding on_item
    find_or_create_archive w key = on_item w key (get w.now w.cache key)

    -- findOrOpenArchive behind openArchive: the error of the opening, or the archive, with false as
    -- long as the archive has to be waited for.
    abbrev pub pending : ℕ → Option (Option OpenError) → Result RootError (ℕ × Bool)
    pending a none = ok (a, false)
    pending a (some none) = ok (a, true)
    pending a (some (some e)) = err (open_error e)

    -- openArchive of the archive at an address, up to its wait.
    unfoldable pub open_at :
        Text → World → ℕ → Option ZipArchive → World × Result RootError (ℕ × Bool)
    unfolding open_archive
    open_at path w a none = (w, err dangling)
    open_at path w a (some x) = (
      record w { heap = set w.heap a (open_archive path x).0 },
      pending a (open_archive path x).1,
    )

    unfoldable pub open_found :
        Text → World × Result RootError ℕ → World × Result RootError (ℕ × Bool)
    unfolding open_at
    open_found path (w, err e) = (w, err e)
    open_found path (w, ok a) = open_at path w a (get_elem? w.heap a)

    -- findOrOpenArchive, up to its wait.
    unfoldable pub find_or_open_archive : Text → Text → World → World × Result RootError (ℕ × Bool)
    unfolding open_found find_or_create_archive
    find_or_open_archive key path w = open_found path (find_or_create_archive w key)

    -- One round of the loop of Root: `go` is the rest of the loop.
    unfoldable pub root_round :
        (World → Option (World × Result RootError (ℕ × Bool)))
        → World × Result RootError (ℕ × Bool)
        → Option (World × Result RootError (ℕ × Bool))
    root_round go (w, err already_cached) = go w
    root_round go (w, err e) = some (w, err (known_error e))
    root_round go (w, ok r) = some (w, ok r)

    -- The loop of Root.
    unfoldable pub root : ℕ → Text → Text → World → Option (World × Result RootError (ℕ × Bool))
    unfolding root_round find_or_open_archive
    root zero key path w = none
    root (suc fuel) key path w =
        let rest = root fuel key path in root_round rest (find_or_open_archive key path w)

-- What Root answers behind the wait, when the archive is done or the context is.
unfoldable pub root_answer : ℕ → Option OpenError → Result RootError ℕ
root_answer a none = ok a
root_answer a (some e) = err (known_error (open_error e))

-- What url.Parse gives, and URL.String.
pub record UrlParser : Type 1 where
  pub Rest : Type 0
  pub parse : Text → Option (Rest × (Text × Text))
  pub print : Rest → Text → Text → Text

-- keyFromPath: the address without its query and its fragment.
unfoldable pub key_from_path : UrlParser → Text → Option Text
key_from_path urls path = elim (urls.parse path) [
  | none ↦ none
  | some (rest, (query, fragment)) ↦ some (urls.print rest [] [])
]
