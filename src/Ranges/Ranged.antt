-- ===== src/Ranges/Ranged.antt =====
-- internal/httprange/http_ranged_reader.go: the reader that archive/zip reads an archive through,
-- and the cached reader that it has while the list of the files is read.
use gitlab_pages_mirror.Common.{
  ℕ, ◌+◌, ◌≤◌, ◌<◌, ◌^◌, Text, ◌≡◌, refl, ap, ◌∙◌, Option, none, some, List, [], ◌∷◌, map, take,
  drop, length, All, arith,
}
use gitlab_pages_mirror.Common.Int.{ℤ, pos}
use gitlab_pages_mirror.Ranges.Resources.{Resource, HttpClient}
use gitlab_pages_mirror.Ranges.Readers.{
  Reader, ReadEnd, new_reader, no_error, ephemeral_read, cached_read,
}
use gitlab_pages_mirror.Ranges.Sections.{IsHonest, IsAt}
use gitlab_pages_mirror.Ranges.ReadAt.{exact_slices, new_reader-IsAt}

pub record RangedReader : Type 0 where
  pub resource : Resource
  pub cached_reader : Option Reader

-- NewRangedReader
unfoldable pub new_ranged_reader : Resource → RangedReader
new_ranged_reader resource = record { resource = resource; cached_reader = none }

abbrev pub after_ephemeral :
    RangedReader → Option (Resource × (Text × ReadEnd)) → Option (RangedReader × (Text × ReadEnd))
after_ephemeral rr none = none
after_ephemeral rr (some (resource, result)) = some (record rr { resource = resource }, result)

abbrev pub after_cached :
    RangedReader
    → Option (Resource × (Text × ReadEnd × Reader))
    → Option (RangedReader × (Text × ReadEnd))
after_cached rr none = none
after_cached rr (some (resource, (bytes, e, r))) =
    some (record rr { resource = resource; cached_reader = some r }, (bytes, e))

-- ReadAt, on the cached reader that there is.
unfoldable pub read_by :
    HttpClient
    → (ℕ → ℕ)
    → ℕ
    → ℤ
    → RangedReader
    → Option Reader
    → Option (RangedReader × (Text × ReadEnd))
unfolding ephemeral_read cached_read
read_by client choices len offset rr none =
    after_ephemeral rr (ephemeral_read client choices len offset rr.resource)
read_by client choices len offset rr (some r) =
    after_cached rr (cached_read client choices len offset rr.resource r)

unfoldable pub read_at :
    HttpClient → (ℕ → ℕ) → ℕ → ℤ → RangedReader → Option (RangedReader × (Text × ReadEnd))
unfolding read_by
read_at client choices len offset rr = read_by client choices len offset rr rr.cached_reader

module _ {A : Type 0} where
  abbrev pub uncached : Option (RangedReader × A) → Option (RangedReader × A)
  uncached none = none
  uncached (some (rr, a)) = some (record rr { cached_reader = none }, a)

  -- WithCachedReader, with what its function gives.
  unfoldable pub with_cached_reader :
      (RangedReader → Option (RangedReader × A)) → RangedReader → Option (RangedReader × A)
  unfolding new_reader
  with_cached_reader read_func rr =
      uncached
        (read_func (record rr { cached_reader = some (new_reader (pos 0) rr.resource.size) }))

abbrev pub put_first :
    (Text × ReadEnd)
    → Option (RangedReader × List (Text × ReadEnd))
    → Option (RangedReader × List (Text × ReadEnd))
put_first result none = none
put_first result (some (rr, results)) = some (rr, result ∷ results)

-- Reads one after another: of a length, at an offset. The network chooses anew for each.
abbrev pub read_next :
    (RangedReader → Option (RangedReader × List (Text × ReadEnd)))
    → Option (RangedReader × (Text × ReadEnd))
    → Option (RangedReader × List (Text × ReadEnd))
read_next rest none = none
read_next rest (some (rr, result)) = put_first result (rest rr)

abbrev pub read_parts :
    HttpClient
    → (ℕ → ℕ → ℕ)
    → List (ℕ × ℕ)
    → RangedReader
    → Option (RangedReader × List (Text × ReadEnd))
read_parts client choices [] rr = some (rr, [])
read_parts client choices ((len, offset) ∷ parts) rr =
    read_next (read_parts client choices parts)
      (read_at client (choices (length parts)) len (pos offset) rr)

module _ (content : Text) (client : HttpClient) (honest : IsHonest content client)
    (resource : Resource) (total : resource.size ≡ pos (length content))
    (bounded : length content < 2 ^ 63) where
  abbrev Fits : ℕ × ℕ → Type 0
  Fits (len, offset) = offset + len ≤ length content

  abbrev pub slice : ℕ × ℕ → Text × ReadEnd
  slice (len, offset) = (take len (drop offset content), no_error)

  abbrev cached : Reader → RangedReader
  cached r = record { resource = resource; cached_reader = some r }

  -- Reads through a cached reader give the slices, and leave it somewhere in the file.
  cached_parts :
      (choices : ℕ → ℕ → ℕ) (parts : List (ℕ × ℕ)) (position : ℕ) (r : Reader)
      → All Fits parts
      → IsAt content resource 0 (length content) position r
      → (r' : Reader) × (read_parts client choices parts (cached r)
          ≡ some (cached r', map slice parts))
  unfolding read_at
  cached_parts choices [] position r h at = (r, refl)
  cached_parts choices ((len, offset) ∷ parts) position r h at =
      let (r1, e1, at1) =
        (exact_slices content client honest resource total bounded (choices (length parts)) len
          offset position r h.0 at).1 in
      let (r2, e2) = cached_parts choices parts (offset + len) r1 h.1 at1 in
      (
        r2,
        ap (λ o. read_next (read_parts client choices parts) (after_cached (cached r) o)) e1
            ∙ ap (put_first (slice (len, offset))) e2,
      )

  uncached_parts :
      (choices : ℕ → ℕ → ℕ) (parts : List (ℕ × ℕ))
      → All Fits parts
      → read_parts client choices parts (new_ranged_reader resource)
        ≡ some (new_ranged_reader resource, map slice parts)
  unfolding new_ranged_reader read_at
  uncached_parts choices [] h = refl
  uncached_parts choices ((len, offset) ∷ parts) h =
      let e =
        (exact_slices content client honest resource total bounded (choices (length parts)) len
          offset 0 (new_reader (pos 0) (pos (length content))) h.0
          (new_reader-IsAt content resource 0 (length content) (omega arith) total bounded)).0 in
      ap
        (λ o.
          read_next (read_parts client choices parts)
            (after_ephemeral (new_ranged_reader resource) o))
        e
      ∙ ap (put_first (slice (len, offset))) (uncached_parts choices parts h.1)

  -- Over a remote file of less than 2^63 bytes that its server serves unchanged, any sequence of
  -- ReadAt calls inside the file, in any order, gives exactly the bytes of the file at each offset,
  -- without an error: through one cached reader as well as with a new request for each call. The
  -- cached reader is gone afterwards.
  pub with_cached_reader-slices :
      (choices : ℕ → ℕ → ℕ) (parts : List (ℕ × ℕ))
      → All Fits parts
      → (with_cached_reader (read_parts client choices parts) (new_ranged_reader resource)
          ≡ some (new_ranged_reader resource, map slice parts))
        × (read_parts client choices parts (new_ranged_reader resource)
            ≡ some (new_ranged_reader resource, map slice parts))
  unfolding with_cached_reader new_ranged_reader
  with_cached_reader-slices choices parts h =
      let r = new_reader (pos 0) (pos (length content)) in
      let at = new_reader-IsAt content resource 0 (length content) (omega arith) total bounded in
      let (r', e) = cached_parts choices parts 0 r h at in
      (
        ap
              (λ (size : ℤ).
                uncached (read_parts client choices parts (cached (new_reader (pos 0) size))))
              total
            ∙ ap uncached e,
        uncached_parts choices parts h,
      )
