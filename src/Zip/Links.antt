-- ===== src/Zip/Links.antt =====
-- internal/vfs/zip/archive.go: what Readlink gives, with the cache of links in any sound state.
use gitlab_pages_mirror.Common.{
  ℕ, false, suc, ◌<◌, Text, not, Option, none, some, [], ◌∷◌, Result, ok, err, ◌≡◌, refl, sym, ap,
  ◌∙◌, ltb, take, length, arith, if◌then◌else◌, if-cases, Bool-cases, inl, inr, subst,
}
use gitlab_pages_mirror.Common.Int.{ℤ}
use gitlab_pages_mirror.Zip.Entries.{
  Header, StreamEnd, at_end, cut_off, broken, ZipLibrary, Archive, find_file, find_directory,
}
use gitlab_pages_mirror.Zip.Lru.{LruCache, cache_namespace, find_or_fetch}
use gitlab_pages_mirror.Zip.Reads.{IsSound, find_or_fetch-IsSound}
use gitlab_pages_mirror.Zip.Archives.{
  ZipError, not_symlink, symlink_size, not_exist, fetch_failed, max_symlink_size, read_link,
  readlink, link_fetched, short_bytes, first_bytes, readlink_found,
}
use gitlab_pages_mirror.Common.Slices.{length-take}

module _ (lib : ZipLibrary) (tables : ℕ → Archive) where
  abbrev pub on_found {ℓ} : {A : Type ℓ} → (Header → Option A) → Option Header → Option A
  on_found f (some file) = f file
  on_found f none = none

  -- What the fetch functions of Open and Readlink give, by archive and name.
  abbrev pub offset_of : ℕ → Text → Option ℤ
  offset_of i name = on_found lib.data_offset (find_file (tables i) name)

  abbrev pub link_of : ℕ → Text → Option Text
  link_of i name = on_found (read_link lib) (find_file (tables i) name)

  -- The answer of Readlink, without a cache, for a link of at most 256 bytes.
  abbrev pub short_link : StreamEnd → Text → Result ZipError Text
  short_link at_end [] = err fetch_failed
  short_link at_end (c ∷ s) = ok (c ∷ s)
  short_link cut_off s = ok s
  short_link broken s = err fetch_failed

  abbrev pub link_contents : Option (Text × StreamEnd) → Result ZipError Text
  link_contents none = err fetch_failed
  link_contents (some (s, end)) =
      if ltb max_symlink_size (length s) then err symlink_size else short_link end s

  -- What Readlink should answer.
  abbrev pub link_answer : Option Header → Option Header → Result ZipError Text
  link_answer (some file) d =
      if (lib.mode file).is_symlink then link_contents (lib.contents file) else err not_symlink
  link_answer none (some _) = err not_symlink
  link_answer none none = err not_exist

  module _ (C : LruCache Text) where
    open C use {State}

    long_take : (n : ℕ) (s : Text) → n < length s → length (take (suc n) s) ≡ suc n
    long_take n s h = length-take {0} (suc n) s ∙ ground arith

    short_fetched :
        (end : StreamEnd) (text : Text) (s : State)
        → ltb max_symlink_size (length text) ≡ false
        → (link_fetched lib C (s, short_bytes lib end text)).1 ≡ short_link end text
    short_fetched at_end [] s h = refl
    short_fetched at_end (c ∷ text) s h = rw h refl
    short_fetched cut_off text s h = rw h refl
    short_fetched broken text s h = refl

    link_read :
        (contents : Option (Text × StreamEnd)) (s : State)
        → (link_fetched lib C (s, first_bytes lib contents)).1 ≡ link_contents contents
    link_read none s = refl
    link_read (some (text, end)) s = elim (Bool-cases (ltb max_symlink_size (length text))) [
      | inl long ↦ rw (long, long_take max_symlink_size text (ground arith)) refl
      | inr short ↦ rw short (short_fetched end text s short)
    ]

    link_state : (t : State × Option Text) → (link_fetched lib C t).0 ≡ t.0
    link_state (s, none) = refl
    link_state (s, some text) = refl

    link_result :
        (t : State × Option Text) (o : Option Text)
        → t.1 ≡ o
        → (link_fetched lib C t).1 ≡ (link_fetched lib C (t.0, o)).1
    link_result (s, o') o e = ap (λ x. (link_fetched lib C (s, x)).1) e

    readlink_found-link_answer :
        (now i : ℕ) (name : Text) (s : State) (f d : Option Header)
        → IsSound C link_of s
        → link_of i name ≡ on_found (read_link lib) f
        → ((readlink_found lib C now (cache_namespace i) name s f d).1 ≡ link_answer f d)
          × IsSound C link_of (readlink_found lib C now (cache_namespace i) name s f d).0
    unfolding readlink_found read_link
    readlink_found-link_answer now i name s none none sound e = (refl, sound)
    readlink_found-link_answer now i name s none (some directory) sound e = (refl, sound)
    readlink_found-link_answer now i name s (some file) d sound e =
        if-cases
          (λ (t : State × Result ZipError Text).
            (t.1 ≡ link_answer (some file) d) × IsSound C link_of t.0)
          (not (lib.mode file).is_symlink) _ _ (λ h. (ground arith, sound))
          (λ h.
            let t = find_or_fetch C now (cache_namespace i) name (read_link lib file) s in
            let (answer, kept) =
              subst
                (λ o.
                  ((find_or_fetch C now (cache_namespace i) name o s).1 ≡ o)
                  × IsSound C link_of (find_or_fetch C now (cache_namespace i) name o s).0)
                e (find_or_fetch-IsSound C link_of now i name s sound) in
            (
              link_result t (read_link lib file) answer
                  ∙ link_read (lib.contents file) t.0
                  ∙ ground arith,
              subst (IsSound C link_of) (sym (link_state t)) kept,
            ))

    -- Whatever the cache of links holds of other archives, Readlink answers what the reader of the
    -- link of the archive at hand gives: its whole bytes when the reader ends there, and an error for
    -- more than 256 bytes, for none, for a reader that fails, and for what is no link, a directory or
    -- a missing name. Only a reader that ends with io.ErrUnexpectedEOF itself is believed: the part
    -- of the link before that is the answer. The cache stays sound for all archives.
    pub readlink-link_answer :
        (now i : ℕ) (name : Text) (s : State)
        → IsSound C link_of s
        → ((readlink lib C now (cache_namespace i) (tables i) name s).1
            ≡ link_answer (find_file (tables i) name) (find_directory (tables i) name))
          × IsSound C link_of (readlink lib C now (cache_namespace i) (tables i) name s).0
    unfolding readlink
    readlink-link_answer now i name s sound =
        readlink_found-link_answer now i name s (find_file (tables i) name)
          (find_directory (tables i) name) sound refl
