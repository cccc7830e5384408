-- ===== src/Ranges/ReadAt.antt =====
-- internal/httprange/http_ranged_reader.go: ReadAt, with and without a cached reader.
use gitlab_pages_mirror.Common.{
  ℕ, ◌+◌, ◌-◌, ◌≤◌, ◌<◌, ◌^◌, Text, Bool, true, false, ◌≡◌, refl, sym, ap, ◌∙◌, subst, inl, ◌⊎◌,
  none, some, [], ok, take, drop, length, arith, ◌||◌,
}
use gitlab_pages_mirror.Common.Int.{ℤ, pos, ltz, ◌+64◌, ◌-ℤ◌, +64_exact}
use gitlab_pages_mirror.Ranges.Resources.{Resource, HttpClient}
use gitlab_pages_mirror.Ranges.Readers.{
  Reader, new_reader, range_end, seek, seek_to, seek_start, close, eqz, recycled, no_error,
  ephemeral_read, read_sought, cached_read,
}
use gitlab_pages_mirror.Ranges.Sections.{IsHonest, IsAt, end-IsAt}
use gitlab_pages_mirror.Ranges.Reading.{read_full-IsAt}

module _ (content : Text) (resource : Resource) where
  pub new_reader-IsAt :
      (start size : ℕ)
      → start + size ≤ length content
      → resource.size ≡ pos (length content)
      → length content < 2 ^ 63
      → IsAt content resource start size 0 (new_reader (pos start) (pos size))
  unfolding new_reader
  new_reader-IsAt start size fits total bounded = record {
    starts = refl;
    sized = refl;
    stands = ap pos (omega arith);
    inside = omega arith;
    fits = fits;
    total = total;
    bounded = bounded;
    body = inl refl;
  }

  recycled-IsAt :
      (still : Bool) (start size position target : ℕ) (r : Reader)
      → IsAt content resource start size position r
      → target ≤ size
      → (still ≡ true → target ≡ position)
      → IsAt content resource start size target
          (record (recycled still r) { offset = pos (start + target) })
  unfolding close
  recycled-IsAt true start size position target r at h k = record {
    starts = at.starts;
    sized = at.sized;
    stands = refl;
    inside = h;
    fits = at.fits;
    total = at.total;
    bounded = at.bounded;
    body =
        subst (λ p. (r.res ≡ none) ⊎ (r.res ≡ some (take (size - p) (drop (start + p) content))))
          (sym (k refl)) at.body;
  }
  recycled-IsAt false start size position target r at h k = record {
    starts = at.starts;
    sized = at.sized;
    stands = refl;
    inside = h;
    fits = at.fits;
    total = at.total;
    bounded = at.bounded;
    body = inl refl;
  }

  eqz_pos : (a b : ℕ) (o : ℤ) → o ≡ pos b → eqz (pos a) o ≡ true → a ≡ b
  eqz_pos a b o e h = ground arith

  -- The reader that a seek to a place in its part leaves.
  abbrev moved : ℕ → Reader → Reader
  moved target r = record (recycled (eqz (pos target) r.offset) r) { offset = pos target }

  moved-IsAt :
      (start size position target : ℕ) (r : Reader)
      → IsAt content resource start size position r
      → target ≤ size
      → IsAt content resource start size target (moved (start + target) r)
  moved-IsAt start size position target r at h =
      recycled-IsAt (eqz (pos (start + target)) r.offset) start size position target r at h (λ e.
        let same = eqz_pos (start + target) (start + position) r.offset at.stands e in omega arith)

  within :
      (target start e : ℕ) (rs re : ℤ)
      → rs ≡ pos start
      → re ≡ pos e
      → start ≤ target
      → target ≤ e
      → (ltz (pos target) rs || ltz re (pos target) ≡ false)
        × (pos target -ℤ rs ≡ pos (target - start))
  unfolding ◌-ℤ◌
  within target start e rs re hs he h k = ground arith

  seek-IsAt :
      (start size position target : ℕ) (r : Reader)
      → IsAt content resource start size position r
      → target ≤ size
      → seek (pos target) seek_start r ≡ (moved (start + target) r, ok (pos target))
  unfolding seek seek_to
  seek-IsAt start size position target r at h =
      let e : r.range_start +64 pos target ≡ pos (start + target) =
        ap (λ (a : ℤ). a +64 pos target) at.starts
        ∙ +64_exact start target (omega (arith, at.fits, at.bounded)) in
      let (inside, result) =
        within (start + target) start (start + size) r.range_start (range_end r) at.starts
          (end-IsAt content resource start size position r at) (omega arith) (omega arith) in
      ap (λ t. seek_to t r) e
      ∙ rw inside (ap (λ x. (moved (start + target) r, ok x)) (result ∙ ap pos (omega arith)))

module _ (content : Text) (client : HttpClient) (honest : IsHonest content client)
    (resource : Resource) (total : resource.size ≡ pos (length content))
    (bounded : length content < 2 ^ 63) where
  -- Over a remote file of less than 2^63 bytes that its server serves unchanged, a ReadAt that
  -- ends inside the file gives exactly the bytes of the file at its offset, without an error:
  -- with a fresh reader, and with a cached reader over the whole file, wherever that one stands,
  -- which then stands behind the bytes.
  pub exact_slices :
      (choices : ℕ → ℕ) (len offset position : ℕ) (r : Reader)
      → offset + len ≤ length content
      → IsAt content resource 0 (length content) position r
      → (ephemeral_read client choices len (pos offset) resource
          ≡ some (resource, (take len (drop offset content), no_error)))
        × ((r' : Reader) × (cached_read client choices len (pos offset) resource r
              ≡ some (resource, (take len (drop offset content), no_error, r')))
            × IsAt content resource 0 (length content) (offset + len) r')
  unfolding ephemeral_read read_sought cached_read
  exact_slices choices len offset position r h at =
      let fresh = new_reader-IsAt content resource offset len h total bounded in
      let (r1, e1, at1) =
        read_full-IsAt content client honest resource choices len len offset len 0 []
          (new_reader (pos offset) (pos len)) fresh (omega arith) (omega arith) in
      let there =
        moved-IsAt content resource 0 (length content) position offset r at (omega arith) in
      let (r2, e2, at2) =
        read_full-IsAt content client honest resource choices len len 0 (length content) offset []
          (moved content resource (0 + offset) r) there h (omega arith) in
      (
        rw (e1, ephemeral_read)
            (ap (λ k. some (resource, (take len (drop k content), no_error))) {x = offset + 0}
              (omega arith)),
        (
          r2,
          ap (read_sought client choices len resource)
                (seek-IsAt content resource 0 (length content) position offset r at (omega arith))
              ∙ (e2
                  ∙ ap (λ k. some (resource, (take len (drop k content), no_error, r2)))
                      {x = 0 + offset} (omega arith)),
          at2,
        ),
      )
