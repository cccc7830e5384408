-- ===== src/Zip/Tests.antt =====
-- A small archive with a page, a link and a file outside public/, and caches that forget nothing.
use gitlab_pages_mirror.Common.{
  ℕ, zero, suc, ◌+◌, Text, text_eq, text_eq_refl, codes, Bool, true, false, Option, none, some,
  List, [], ◌∷◌, ◌≡◌, refl, sym, ap, ◌∙◌, ◌⊎◌, inl, inr, ok, Dict, dict_get, dict_put, dict_remove,
  dict_get-put, dict_get-empty, dict_empty, dict_get-remove, take, drop, arith, Bool-cases, is_some,
  clean, ◌++◌,
}
use gitlab_pages_mirror.Common.Int.{ℤ, pos}
use gitlab_pages_mirror.Ranges.Resources.{new_resource}
use gitlab_pages_mirror.Ranges.Readers.{Reader, read_full, no_error}
use gitlab_pages_mirror.Ranges.Tests.{file, server, server-IsHonest, remote}
use gitlab_pages_mirror.Zip.Entries.{
  Header, at_end, ZipLibrary, Archive, dir_prefix, empty_archive, add_entries, find_file,
  find_directory,
}
use gitlab_pages_mirror.Zip.Lru.{LruCache, cache_namespace, find_or_fetch}
use gitlab_pages_mirror.Zip.Reads.{IsSound, find_or_fetch-IsSound}
use gitlab_pages_mirror.Zip.Finding.{last_file, any_in, add_entries_finds}
use gitlab_pages_mirror.Zip.Archives.{stored, open_file, readlink}
use gitlab_pages_mirror.Zip.Links.{link_of, link_answer, readlink-link_answer}
use gitlab_pages_mirror.Zip.Opened.{offset_of, open_file_reads}
use gitlab_pages_mirror.Zip.Opening.{
  ZipArchive, new_archive, open_archive, open_status, read_archive, Steps, request, finish,
  none_yet, and_then,
}
use gitlab_pages_mirror.Zip.Rounds
use gitlab_pages_mirror.Zip.Settling.{IsKept, Steps-new-IsKept}
use gitlab_pages_mirror.Zip.Vfs.{
  ArchiveCache, World, find_or_create_archive, find_or_open_archive, root,
}
use gitlab_pages_mirror.Zip.Rounds.{IsUsable, EndsWith, root_ends}
use gitlab_pages_mirror.Zip.Reconfigure.{ZipServing, ZipVfs, new_zip_vfs, reconfigure, reset_cache}
use gitlab_pages_mirror.Zip.Lifetime.{Reach, created, asked, reconfigured, Reach-IsUsable}

abbrev page : Header
page = record {
  name = codes "public/index.html";
  method = 0;
  compressed_size = 5;
  size = 5;
  attributes = 0;
  modified = 0;
}

abbrev link : Header
link = record {
  name = codes "public/a/link";
  method = 0;
  compressed_size = 4;
  size = 4;
  attributes = 1;
  modified = 0;
}

abbrev secret : Header
secret = record {
  name = codes "secret";
  method = 0;
  compressed_size = 5;
  size = 5;
  attributes = 0;
  modified = 0;
}

abbrev entries : List Header
entries = page ∷ link ∷ secret ∷ []

abbrev library : ZipLibrary
library = record {
  mode = λ f. elim f.attributes [
    | zero ↦ record { is_dir = false; is_regular = true; is_symlink = false }
    | suc n ↦ record { is_dir = false; is_regular = false; is_symlink = true }
  ];
  data_offset = λ f. some (pos 4);
  contents = λ f. some (codes "Hello", at_end);
}

abbrev archive : Archive
archive = add_entries library entries empty_archive

abbrev found_item {ℓ} : {V : Type ℓ} → Option V → Option (V × Bool)
found_item none = none
found_item (some v) = some (v, false)

module _ {V : Type 0} where
  put_self :
      (s : Dict V) (k : Text) (v w : V) (e : Bool)
      → found_item (dict_get (dict_put s k v) k) ≡ some (w, e)
      → w ≡ v
  put_self s k v w e h =
      let e0 : dict_get (dict_put s k v) k ≡ some v =
        dict_get-put s k k v ∙ rw (text_eq_refl k) refl in
      cc (sym (ap found_item e0) ∙ h)

  put_ne :
      (s : Dict V) (k j : Text) (v : V) (i : V × Bool)
      → text_eq k j ≡ false
      → found_item (dict_get (dict_put s k v) j) ≡ some i
      → found_item (dict_get s j) ≡ some i
  put_ne s k j v i d h =
      let e0 : dict_get (dict_put s k v) j ≡ dict_get s j = dict_get-put s k j v ∙ rw d refl in
      ap found_item (sym e0) ∙ h

abbrev kept_items : (V : Type 0) → LruCache V
kept_items V = record {
  State = Dict V;
  get = λ t s k. found_item (dict_get s k);
  set = λ t s k v. dict_put s k v;
  get-set_self = λ t u s k v w e h. put_self s k v w e h;
  get-set_ne = λ t u s k j v i d h. put_ne s k j v i d h;
}

-- Items that expire ten seconds after they are looked at.
abbrev timed : ℕ → Option ℕ → Option (ℕ × ℕ)
timed t none = none
timed t (some v) = some (v, t + 10)

abbrev add_item : Dict ℕ → Text → ℕ → Option ℕ → Option (Dict ℕ)
add_item s k v none = some (dict_put s k v)
add_item s k v (some _) = none

timed-delete_self : (t : ℕ) (s : Dict ℕ) (k : Text) → timed t (dict_get (dict_remove s k) k) ≡ none
timed-delete_self t s k =
    let e0 : dict_get (dict_remove s k) k ≡ none =
      dict_get-remove s k k ∙ rw (text_eq_refl k) refl in
    ap (timed t) e0

timed-delete_old :
    (t : ℕ) (s : Dict ℕ) (k j : Text) (i : ℕ × ℕ)
    → timed t (dict_get (dict_remove s k) j) ≡ some i
    → timed t (dict_get s j) ≡ some i
timed-delete_old t s k j i h = elim (Bool-cases (text_eq k j)) [
  | inl e ↦
      let e0 : dict_get (dict_remove s k) j ≡ none = dict_get-remove s k j ∙ rw e refl in
      cc (sym (ap (timed t) e0) ∙ h)
  | inr e ↦
      let e0 : dict_get (dict_remove s k) j ≡ dict_get s j = dict_get-remove s k j ∙ rw e refl in
      ap (timed t) (sym e0) ∙ h
]

timed-put :
    (u : ℕ) (s : Dict ℕ) (k j : Text) (v : ℕ) (i : ℕ × ℕ)
    → timed u (dict_get (dict_put s k v) j) ≡ some i
    → (i.0 ≡ v) ⊎ (timed u (dict_get s j) ≡ some i)
timed-put u s k j v i h = elim (Bool-cases (text_eq k j)) [
  | inl e ↦
      let e0 : dict_get (dict_put s k v) j ≡ some v = dict_get-put s k j v ∙ rw e refl in
      let same : some (v, u + 10) ≡ some i = sym (ap (timed u) e0) ∙ h in inl (ground (arith, same))
  | inr e ↦
      let e0 : dict_get (dict_put s k v) j ≡ dict_get s j = dict_get-put s k j v ∙ rw e refl in
      inr (ap (timed u) (sym e0) ∙ h)
]

add_item_absent :
    (t : ℕ) (s : Dict ℕ) (k : Text) (v : ℕ) (o : Option ℕ)
    → timed t o ≡ none
    → (s' : Dict ℕ) × (add_item s k v o ≡ some s')
add_item_absent t s k v none h = (dict_put s k v, refl)
add_item_absent t s k v (some x) h = cc

add_item_put :
    (s s' : Dict ℕ) (k : Text) (v : ℕ) (o : Option ℕ)
    → add_item s k v o ≡ some s'
    → dict_put s k v ≡ s'
add_item_put s s' k v none h = cc
add_item_put s s' k v (some x) h = cc

abbrev archives : ArchiveCache
archives = record {
  State = Dict ℕ;
  new_cache = λ e c. dict_empty;
  get = λ t s k. timed t (dict_get s k);
  set_default = λ t s k v. dict_put s k v;
  delete = λ s k. dict_remove s k;
  add = λ t s k v. add_item s k v (dict_get s k);
  get-new_cache = λ t e c k. ap (timed t) (dict_get-empty k);
  get-delete_self = timed-delete_self;
  get-delete_old = timed-delete_old;
  add_absent = λ t s k v h. add_item_absent t s k v (dict_get s k) h;
  get-add = λ t u s s' k j v i h e.
      timed-put u s k j v i
        (ap (λ m. timed u (dict_get m j)) (add_item_put s s' k v (dict_get s k) h) ∙ e);
  get-set_default = λ t u s k j v i h. timed-put u s k j v i h;
}

abbrev no_archives : World archives
no_archives = record { cache = []; heap = []; now = 3 }

no_archives-IsWellFormed : Rounds.IsWellFormed archives no_archives
unfolding dict_get
no_archives-IsWellFormed = record { held = λ t k i h. cc; numbered = λ a x h. cc }

add_entries_finds_example :
    (find_file (add_entries library entries empty_archive) (codes "/a/../index.html")
      ≡ last_file library (clean (dir_prefix ++ codes "/a/../index.html")) entries none)
    × (is_some
          (find_directory (add_entries library entries empty_archive) (codes "/a/../index.html"))
        ≡ any_in library
            (clean (dir_prefix ++ codes "/a/../index.html") ++ b'/' ∷ [])
            entries
            false)
add_entries_finds_example = add_entries_finds library entries (codes "/a/../index.html")

-- An empty cache is sound.
nothing_cached : {V : Type 0} {truth : ℕ → Text → Option V} → IsSound (kept_items V) truth []
unfolding dict_get
nothing_cached = record { cached = λ t i key v e h. cc }

abbrev tables : ℕ → Archive
tables n = archive

find_or_fetch-IsSound_example :
    ((find_or_fetch
        (kept_items ℤ)
        3
        (cache_namespace 12)
        (codes "index.html")
        (offset_of library tables 12 (codes "index.html"))
        []).1
      ≡ offset_of library tables 12 (codes "index.html"))
    × IsSound
        (kept_items ℤ)
        (offset_of library tables)
        (find_or_fetch
          (kept_items ℤ)
          3
          (cache_namespace 12)
          (codes "index.html")
          (offset_of library tables 12 (codes "index.html"))
          []).0
find_or_fetch-IsSound_example =
    find_or_fetch-IsSound (kept_items ℤ) (offset_of library tables) 3 12 (codes "index.html") []
      nothing_cached

readlink-link_answer_example :
    ((readlink library (kept_items Text) 3 (cache_namespace 12) archive (codes "a/link") []).1
      ≡ link_answer library tables
          (find_file archive (codes "a/link"))
          (find_directory archive (codes "a/link")))
    × IsSound
        (kept_items Text)
        (link_of library tables)
        (readlink library (kept_items Text) 3 (cache_namespace 12) archive (codes "a/link") []).0
readlink-link_answer_example =
    readlink-link_answer library tables (kept_items Text) 3 12 (codes "a/link") [] nothing_cached

page_found : find_file archive (codes "index.html") ≡ some page
unfolding find_file add_entries empty_archive
page_found = refl

open_file_reads_example :
    (r r' : Reader) × ((open_file library
        (kept_items ℤ)
        3
        (cache_namespace 12)
        archive
        (codes "index.html")
        []).1
      ≡ ok (stored r))
    × (read_full server (λ n. n) 5 5 [] remote r
        ≡ some (remote, (take 5 (drop 4 file), no_error, r')))
open_file_reads_example =
    open_file_reads library tables (kept_items ℤ) file server remote server-IsHonest refl
      (omega arith) 3 12 (codes "index.html") [] page 4 nothing_cached page_found refl refl refl
      (omega arith) (λ n. n)

abbrev archive_url : Text
archive_url = codes "https://files/1.zip"

abbrev asked_archive : ZipArchive
asked_archive = record (new_archive 1) { started = true; reading = archive_url ∷ [] }

abbrev ReadSteps : ZipArchive → ZipArchive → Type 0
ReadSteps a b = Steps library (λ s. none) server (λ r. (r, ok entries)) a b

done_archive : ZipArchive
done_archive =
    read_archive library (λ s. none) server (λ r. (r, ok entries)) archive_url
      (record asked_archive { reading = [] })

-- Two requests open the archive before it is read.
asked_twice : ReadSteps (new_archive 1) asked_archive
unfolding open_archive open_status new_archive
asked_twice =
    and_then (new_archive 1) asked_archive asked_archive
      (and_then (new_archive 1) (new_archive 1) asked_archive (none_yet (new_archive 1))
        (request archive_url (new_archive 1)))
      (request archive_url asked_archive)

Steps-new-IsKept_example :
    (done_archive.reading ≡ []) × IsKept done_archive (open_archive archive_url done_archive).0
unfolding done_archive read_archive new_resource
Steps-new-IsKept_example =
    Steps-new-IsKept library (λ s. none) server (λ r. (r, ok entries)) 1 done_archive
      (open_archive archive_url done_archive).0
      (and_then (new_archive 1) asked_archive done_archive asked_twice
        (finish archive_url [] [] asked_archive refl))
      refl
      (and_then done_archive done_archive (open_archive archive_url done_archive).0
        (none_yet done_archive) (request archive_url done_archive))

abbrev serving : ZipServing
serving = record {
  expiration_interval = 60;
  cleanup_interval = 30;
  refresh_interval = 30;
  open_timeout = 30;
}

-- After one archive, Reconfigure empties the cache.
abbrev used_vfs : ZipVfs archives
used_vfs = record (new_zip_vfs archives 3 serving) {
  world =
      (find_or_open_archive archives 30 (codes "https://files/1.zip")
        (codes "https://files/1.zip?sign=x") (new_zip_vfs archives 3 serving).world).0;
}

abbrev reset_vfs : ZipVfs archives
reset_vfs = reset_cache archives (record used_vfs { file_paths = some (codes "/srv" ∷ []) })

reset_vfs-Reach : Reach archives library (λ s. none) server (λ r. (r, ok entries)) reset_vfs
unfolding reconfigure new_zip_vfs
reset_vfs-Reach =
    reconfigured serving (some (codes "/srv" ∷ [])) true {v = used_vfs}
      (asked (codes "https://files/1.zip") (codes "https://files/1.zip?sign=x") (created 3 serving))
      refl

Reach-IsUsable_example :
    (a : ℕ) × ((find_or_create_archive archives reset_vfs.settings.refresh_interval reset_vfs.world
        (codes "https://files/1.zip")).1
      ≡ ok a)
    × IsUsable archives
        (find_or_create_archive archives reset_vfs.settings.refresh_interval reset_vfs.world
          (codes "https://files/1.zip")).0
        a
Reach-IsUsable_example =
    Reach-IsUsable archives library (λ s. none) server (λ r. (r, ok entries)) reset_vfs
      (codes "https://files/1.zip") reset_vfs-Reach

root_ends_example :
    EndsWith archives 60
      (codes "https://files/1.zip?sign=x")
      (find_or_create_archive archives 60 no_archives (codes "https://files/1.zip"))
      (root archives 60 1
        (codes "https://files/1.zip")
        (codes "https://files/1.zip?sign=x")
        no_archives)
root_ends_example =
    root_ends archives 60 0 (codes "https://files/1.zip") (codes "https://files/1.zip?sign=x")
      no_archives no_archives-IsWellFormed
