-- ===== src/Zip/Opened.antt =====
-- internal/vfs/zip/archive.go and internal/httprange: reading a file that Open gives.
use gitlab_pages_mirror.Common.{
  ℕ, ◌+◌, ◌≤◌, ◌<◌, ◌^◌, Text, true, not, Option, none, some, [], Result, ok, err, ◌≡◌, refl, sym,
  ap, ◌∙◌, take, drop, length, arith, ◌==◌, if◌then◌else◌, if-cases, subst,
}
use gitlab_pages_mirror.Common.Int.{ℤ, pos}
use gitlab_pages_mirror.Ranges.Resources.{Resource, HttpClient}
use gitlab_pages_mirror.Ranges.Readers.{Reader, new_reader, read_full, no_error}
use gitlab_pages_mirror.Ranges.Sections.{IsHonest}
use gitlab_pages_mirror.Ranges.Reading.{read_full-IsAt}
use gitlab_pages_mirror.Ranges.ReadAt.{new_reader-IsAt}
use gitlab_pages_mirror.Zip.Entries.{Header, ZipLibrary, Archive, find_file, find_directory}
use gitlab_pages_mirror.Zip.Lru.{LruCache, cache_namespace, find_or_fetch}
use gitlab_pages_mirror.Zip.Reads.{IsSound, find_or_fetch-IsSound}
use gitlab_pages_mirror.Zip.Links.{on_found}
use gitlab_pages_mirror.Zip.Archives.{
  ZipError, not_file, not_exist, fetch_failed, method_store, to_int64, OpenFile, stored, section,
  open_file, open_found, open_fetched, deflated, method_deflate, unsupported_method,
}

to_int64_exact : (n : ℕ) → n < 2 ^ 63 → to_int64 n ≡ pos n
unfolding to_int64
to_int64_exact n h = ground arith

section-stored :
    (file : Header) (o : ℤ)
    → file.method ≡ method_store
    → file.compressed_size < 2 ^ 63
    → section file o ≡ ok (stored (new_reader o (pos file.compressed_size)))
unfolding section
section-stored file o m h =
    ap
      (λ z.
        if file.method == method_deflate
        then ok (deflated (new_reader o z))
        else if file.method == method_store
        then ok (stored (new_reader o z))
        else err (unsupported_method file.method))
      (to_int64_exact file.compressed_size h)
    ∙ ground arith

module _ (lib : ZipLibrary) (tables : ℕ → Archive) where
  -- What the fetch function of Open gives, by archive and name.
  abbrev pub offset_of : ℕ → Text → Option ℤ
  offset_of i name = on_found lib tables lib.data_offset (find_file (tables i) name)

  abbrev section_at : Header → Option ℤ → Result ZipError OpenFile
  section_at file none = err fetch_failed
  section_at file (some o) = section file o

  -- What Open should answer.
  abbrev pub open_answer : Option Header → Option Header → Result ZipError OpenFile
  open_answer (some file) d =
      if (lib.mode file).is_regular then section_at file (lib.data_offset file) else err not_file
  open_answer none (some _) = err not_file
  open_answer none none = err not_exist

  module _ (C : LruCache ℤ) where
    open C use {State}

    fetched_state : (file : Header) (t : State × Option ℤ) → (open_fetched lib C file t).0 ≡ t.0
    unfolding open_fetched
    fetched_state file (s, none) = refl
    fetched_state file (s, some o) = refl

    fetched_result :
        (file : Header) (t : State × Option ℤ) (o : Option ℤ)
        → t.1 ≡ o
        → (open_fetched lib C file t).1 ≡ section_at file o
    unfolding open_fetched
    fetched_result file (s, none) none e = refl
    fetched_result file (s, none) (some o) e = cc
    fetched_result file (s, some o') none e = cc
    fetched_result file (s, some o') (some o) e = ap (section_at file) e

    open_found-open_answer :
        (now i : ℕ) (name : Text) (s : State) (f d : Option Header)
        → IsSound C offset_of s
        → offset_of i name ≡ on_found lib tables lib.data_offset f
        → ((open_found lib C now (cache_namespace i) name s f d).1 ≡ open_answer f d)
          × IsSound C offset_of (open_found lib C now (cache_namespace i) name s f d).0
    unfolding open_found
    open_found-open_answer now i name s none none sound e = (refl, sound)
    open_found-open_answer now i name s none (some directory) sound e = (refl, sound)
    open_found-open_answer now i name s (some file) d sound e =
        if-cases
          (λ (t : State × Result ZipError OpenFile).
            (t.1 ≡ open_answer (some file) d) × IsSound C offset_of t.0)
          (not (lib.mode file).is_regular) _ _ (λ h. (ground arith, sound))
          (λ h.
            let t = find_or_fetch C now (cache_namespace i) name (lib.data_offset file) s in
            let (answer, kept) =
              subst
                (λ o.
                  ((find_or_fetch C now (cache_namespace i) name o s).1 ≡ o)
                  × IsSound C offset_of (find_or_fetch C now (cache_namespace i) name o s).0)
                e (find_or_fetch-IsSound C offset_of now i name s sound) in
            (
              fetched_result file t (lib.data_offset file) answer ∙ ground arith,
              subst (IsSound C offset_of) (sym (fetched_state file t)) kept,
            ))

    -- On every branch Open answers as it would without its cache, which stays sound for all
    -- archives: a file that is not regular, a directory and a missing name are told apart.
    pub open_file-open_answer :
        (now i : ℕ) (name : Text) (s : State)
        → IsSound C offset_of s
        → ((open_file lib C now (cache_namespace i) (tables i) name s).1
            ≡ open_answer (find_file (tables i) name) (find_directory (tables i) name))
          × IsSound C offset_of (open_file lib C now (cache_namespace i) (tables i) name s).0
    unfolding open_file
    open_file-open_answer now i name s sound =
        open_found-open_answer now i name s (find_file (tables i) name)
          (find_directory (tables i) name) sound refl

    found_answer :
        (f d : Option Header) (file : Header) (o : ℕ)
        → f ≡ some file
        → (lib.mode file).is_regular ≡ true
        → lib.data_offset file ≡ some (pos o)
        → open_answer f d ≡ section file (pos o)
    found_answer f d file o e r h = rw (e, r, h) refl

    -- With a sound cache, take a regular stored file whose data lies inside an archive of less
    -- than 2^63 bytes, which its server serves unchanged. Opening it and then reading it in full
    -- gives exactly the bytes of the archive at its data offset, as many as its compressed size,
    -- in whatever pieces the network delivers them.
    pub open_file_reads :
        (content : Text) (client : HttpClient) (resource : Resource)
        → IsHonest content client
        → resource.size ≡ pos (length content)
        → length content < 2 ^ 63
        → (now i : ℕ) (name : Text) (s : State) (file : Header) (o : ℕ) → IsSound C offset_of s
        → find_file (tables i) name ≡ some file
        → (lib.mode file).is_regular ≡ true
        → file.method ≡ method_store
        → lib.data_offset file ≡ some (pos o)
        → o + file.compressed_size ≤ length content
        → (choices : ℕ → ℕ)
        → (r r' : Reader) × ((open_file lib C now (cache_namespace i) (tables i) name s).1
            ≡ ok (stored r))
          × (read_full client choices file.compressed_size file.compressed_size [] resource r
              ≡ some (resource, (take file.compressed_size (drop o content), no_error, r')))
    open_file_reads content client resource honest total bounded now i name s file o sound found
          regular method offset fits choices =
        let r = new_reader (pos o) (pos file.compressed_size) in
        let at = new_reader-IsAt content resource o file.compressed_size fits total bounded in
        let (r', e, _) =
          read_full-IsAt content client honest resource choices file.compressed_size
            file.compressed_size o file.compressed_size 0 [] r at (omega arith) (omega arith) in
        (
          r,
          r',
          (open_file-open_answer now i name s sound).0
              ∙ found_answer (find_file (tables i) name) (find_directory (tables i) name) file o
                  found regular offset
              ∙ section-stored file (pos o) method (omega arith),
          e
              ∙ ap
                  (λ k. some (resource, (take file.compressed_size (drop k content), no_error, r')))
                  {x = o + 0} (omega arith),
        )
