-- ===== src/Ranges/Reading.antt =====
-- internal/httprange: reads of a reader over a remote file that does not change, in whatever pieces
-- the network delivers it.
use gitlab_pages_mirror.Common.{
  ℕ, zero, suc, ◌+◌, ◌-◌, ◌≤◌, ◌<◌, Text, ◌≡◌, refl, sym, ap, ◌∙◌, subst, inr, some, [], ◌∷◌, ◌++◌,
  take, drop, length, arith, append_assoc, append-nil,
}
use gitlab_pages_mirror.Common.Slices.{
  length-take, length-drop, take-take, drop-take, drop-drop, take-append-take,
}
use gitlab_pages_mirror.Common.Int.{ℤ, pos, ◌+64◌, +64_exact}
use gitlab_pages_mirror.Ranges.Resources.{Resource, HttpClient}
use gitlab_pages_mirror.Ranges.Readers.{
  Reader, amount, read_body, read, read_more, read_full, no_error,
}
use gitlab_pages_mirror.Ranges.Sections.{IsHonest, IsAt, ensure_response-IsAt}

module _ (content : Text) (client : HttpClient) (honest : IsHonest content client)
    (resource : Resource) where
  read_body-some :
      (choice len : ℕ) (body : Text) (r : Reader)
      → 0 < length body
      → read_body choice len body r ≡ (
        take (amount choice len body) body,
        no_error,
        record r {
          res = some (drop (amount choice len body) body);
          offset = r.offset +64 pos (amount choice len body);
        },
      )
  unfolding read_body
  read_body-some choice len [] r h = absurd (omega arith)
  read_body-some choice len (c ∷ body) r h = refl

  -- What a read before the end of the part comes to.
  abbrev Reads : ℕ → ℕ → ℕ → ℕ → ℕ → Reader → Type 0
  Reads choice len start size position r =
      (n : ℕ) × (r' : Reader) × (read client choice len resource r
        ≡ (resource, (take n (drop (start + position) content), no_error, r')))
      × (0 < n)
      × (n ≤ len)
      × (n ≤ size - position)
      × IsAt content resource start size (position + n) r'

  amount_bounds :
      (choice len : ℕ) (body : Text)
      → 0 < len
      → 0 < length body
      → (0 < amount choice len body)
        × (amount choice len body ≤ len)
        × (amount choice len body ≤ length body)
  amount_bounds choice len body h k = ground arith

  -- The rest of the part.
  abbrev rest_at : ℕ → ℕ → ℕ → Text
  rest_at start size position = take (size - position) (drop (start + position) content)

  rest_length :
      (start size position : ℕ)
      → start + size ≤ length content
      → length (rest_at start size position) ≡ size - position
  rest_length start size position h =
      length-take {0} (size - position) (drop (start + position) content)
      ∙ ground (arith, length-drop {0} (start + position) content)

  advanced :
      (start size position n : ℕ) (r : Reader)
      → IsAt content resource start size position r
      → n ≤ size - position
      → 0 < n
      → IsAt content resource start size (position + n) (record r {
        res = some (drop n (rest_at start size position));
        offset = r.offset +64 pos n;
      })
  advanced start size position n r at h k = record {
    starts = at.starts;
    sized = at.sized;
    stands =
        ap (λ (o : ℤ). o +64 pos n) at.stands
        ∙ +64_exact (start + position) n (omega (arith, at.fits, at.bounded))
        ∙ ap pos (omega arith);
    inside = omega arith;
    fits = at.fits;
    total = at.total;
    bounded = at.bounded;
    body = inr (
        ap some (
          drop-take n (size - position) (drop (start + position) content)
          ∙ ap (take (size - position - n)) (drop-drop n (start + position) content)
          ∙ ap (λ k. take k (drop (start + position + n) content)) {x = size - position - n}
              (omega arith)
          ∙ ap (λ k. take (size - (position + n)) (drop k content)) {x = start + position + n}
              (omega arith)));
  }

  read-IsAt :
      (choice len start size position : ℕ) (r : Reader)
      → IsAt content resource start size position r
      → position < size
      → Reads choice (suc len) start size position r
  unfolding read
  read-IsAt choice len start size position r at h =
      let rest = rest_at start size position in
      let long = rest_length start size position at.fits in
      let n = amount choice (suc len) rest in
      let bounds = amount_bounds choice (suc len) rest (omega arith) (omega (arith, long)) in
      let inside : n ≤ size - position = omega (arith, bounds.2, long) in
      let ensured =
        ensure_response-IsAt content client honest resource start size position r at h in
      (
        n,
        record r { res = some (drop n rest); offset = r.offset +64 pos n },
        rw ensured (
            ap (λ t. (resource, t))
              (read_body-some choice (suc len) rest (record r { res = some rest })
                  (omega (arith, long))
                ∙ ap
                    (λ t. (
                      t,
                      no_error,
                      record r { res = some (drop n rest); offset = r.offset +64 pos n },
                    ))
                    (take-take n (size - position) (drop (start + position) content) inside))),
        bounds.0,
        bounds.1,
        inside,
        advanced start size position n r at inside bounds.0,
      )

  piece_length : (o n : ℕ) → o + n ≤ length content → length (take n (drop o content)) ≡ n
  piece_length o n h =
      length-take {0} n (drop o content) ∙ ground (arith, length-drop {0} o content)

  -- A piece and what is read behind it are one piece.
  joined :
      (start position n len m : ℕ) (got : Text)
      → m ≡ len - n
      → n ≤ len
      → (got ++ take n (drop (start + position) content))
          ++ take m (drop (start + (position + n)) content)
        ≡ got ++ take len (drop (start + position) content)
  joined start position n len m got e h =
      let xs = drop (start + position) content in
      let behind : drop (start + (position + n)) content ≡ drop n xs =
        ap (λ k. drop k content) {y = start + position + n} (omega arith)
        ∙ sym (drop-drop n (start + position) content) in
      append_assoc got (take n xs) (take m (drop (start + (position + n)) content))
      ∙ ap (◌++◌ got) (
          ap (λ ys. take n xs ++ take m ys) behind
          ∙ take-append-take n m xs
          ∙ ap (λ k. take k xs) {x = n + m} (omega arith))

  -- A full read of as many bytes as are left of the part at most gives exactly the next bytes of
  -- the content, without an error and within as many rounds as bytes are wanted, in whatever
  -- pieces the network delivers them.
  pub read_full-IsAt :
      (choices : ℕ → ℕ) (fuel len start size position : ℕ) (got : Text) (r : Reader)
      → IsAt content resource start size position r
      → position + len ≤ size
      → len ≤ fuel
      → (r' : Reader) × (read_full client choices fuel len got resource r
          ≡ some (resource, (got ++ take len (drop (start + position) content), no_error, r')))
        × IsAt content resource start size (position + len) r'
  unfolding read_full
  read_full-IsAt choices fuel zero start size position got r at h k = (
    r,
    rw (append-nil got) refl,
    subst (λ p. IsAt content resource start size p r) {x = position} (omega arith) at,
  )
  read_full-IsAt choices zero (suc len) start size position got r at h k = absurd (omega arith)
  read_full-IsAt choices (suc fuel) (suc len) start size position got r at h k =
      let (n, r1, e, n_pos, n_len, n_size, at1) =
        read-IsAt (choices fuel) len start size position r at (omega arith) in
      let piece = take n (drop (start + position) content) in
      let exact = piece_length (start + position) n (omega (arith, at.fits, n_size)) in
      let (r', rest, at') =
        read_full-IsAt choices fuel (suc len - length piece) start size (position + n)
          (got ++ piece) r1 at1 (omega (arith, exact, n_len)) (omega (arith, exact, n_pos)) in
      (
        r',
        ap (read_more (read_full client choices fuel) (suc len) got) e
            ∙ (rest
                ∙ ap (λ t. some (resource, (t, no_error, r')))
                    (joined start position n (suc len) (suc len - length piece) got
                      (omega (arith, exact)) n_len)),
        subst (λ p. IsAt content resource start size p r')
            {x = position + n + (suc len - length piece)} (omega (arith, exact, n_len)) at',
      )
