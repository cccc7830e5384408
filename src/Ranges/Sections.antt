-- ===== src/Ranges/Sections.antt =====
-- internal/httprange: readers over a remote file that does not change.
use gitlab_pages_mirror.Common.{
  ℕ, suc, ◌+◌, ◌-◌, ◌≤◌, ◌<◌, ◌^◌, Text, ◌≡◌, refl, ap, ◌∙◌, ◌⊎◌, inl, inr, none, some, ok, take,
  drop, length, arith,
}
use gitlab_pages_mirror.Common.Int.{ℤ, pos, negsuc, ◌+ℤ◌, ◌+64◌, +64_exact}
use gitlab_pages_mirror.Ranges.Resources.{
  Resource, RangeRequest, RangeResponse, HttpClient, range_request,
}
use gitlab_pages_mirror.Ranges.Readers.{
  Reader, ensure_from, range_end, prepare_request, set_response, ensure_response,
}

-- A server that answers a range of the content with just that range.
pub record IsHonest (content : Text) (client : HttpClient) : Type 0 where
  pub answer :
      (q : RangeRequest) (a b : ℕ)
      → q.first ≡ pos a
      → q.last ≡ pos b
      → a ≤ b
      → b < length content
      → (res : RangeResponse) × (client q ≡ some res)
        × (res.status ≡ 206)
        × (res.body ≡ take (suc b - a) (drop a content))

-- The abstract view of a reader: the part of the content from `start` with `size` bytes, and the
-- position in it. A response that is open holds the rest of the part.
pub record IsAt (content : Text) (resource : Resource) (start size position : ℕ) (r : Reader)
    : Type 0 where
  pub starts : r.range_start ≡ pos start
  pub sized : r.range_size ≡ pos size
  pub stands : r.offset ≡ pos (start + position)
  pub inside : position ≤ size
  pub fits : start + size ≤ length content
  pub total : resource.size ≡ pos (length content)
  pub bounded : length content < 2 ^ 63
  pub body :
      (r.res ≡ none) ⊎ (r.res ≡ some (take (size - position) (drop (start + position) content)))

pub end-IsAt :
    (content : Text) (resource : Resource) (start size position : ℕ) (r : Reader)
    → IsAt content resource start size position r
    → range_end r ≡ pos (start + size)
end-IsAt content resource start size position r at =
    ap (λ (a : ℤ). a +64 r.range_size) at.starts
    ∙ ap (λ (b : ℤ). pos start +64 b) at.sized
    ∙ +64_exact start size (omega (arith, at.fits, at.bounded))

last_byte : (e : ℕ) → 0 < e → e < 2 ^ 63 → (pos e +64 negsuc 0 ≡ pos (e - 1))
unfolding ◌+64◌ ◌+ℤ◌
last_byte e h k = ground arith

-- A request that passes the tests.
prepared :
    (resource : Resource) (s n o e total : ℕ)
    → s ≤ o
    → o < e
    → e ≤ total
    → (f : ℤ) (r : Reader) → r.range_start ≡ pos s
    → r.range_size ≡ pos n
    → r.offset ≡ pos o
    → range_end r ≡ pos e
    → resource.size ≡ pos total
    → pos e +64 negsuc 0 ≡ f
    → prepare_request resource r ≡ ok (range_request resource (pos o) f)
unfolding prepare_request
prepared resource s n o e total h k l f r rs rn ro re rt last =
    rw (re, rs, rn, ro, rt, last) (ground arith)

prepare-IsAt :
    (content : Text) (resource : Resource) (start size position : ℕ) (r : Reader)
    → IsAt content resource start size position r
    → position < size
    → prepare_request resource r
      ≡ ok (range_request resource (pos (start + position)) (pos (start + size - 1)))
prepare-IsAt content resource start size position r at h =
    prepared resource start size (start + position) (start + size) (length content) (omega arith)
      (omega arith) at.fits (pos (start + size - 1)) r at.starts at.sized at.stands
      (end-IsAt content resource start size position r at) at.total
      (last_byte (start + size) (omega arith) (omega (arith, at.fits, at.bounded)))

module _ (content : Text) (client : HttpClient) (honest : IsHonest content client)
    (resource : Resource) where
  opened :
      (r : Reader) (body : Text)
      → r.res ≡ some body
      → ensure_response client resource r ≡ (resource, ok r)
  unfolding ensure_response
  opened r body b = ap (ensure_from client resource r) b

  partial :
      (res : RangeResponse) (r : Reader) (body : Text)
      → res.status ≡ 206
      → res.body ≡ body
      → set_response res resource r ≡ (resource, ok (record r { res = some body }))
  unfolding set_response
  partial res r body s b = rw s (ap (λ t. (resource, ok (record r { res = some t }))) b)

  -- A reader before the end of its part gets a response that holds the rest of the part.
  pub ensure_response-IsAt :
      (start size position : ℕ) (r : Reader)
      → IsAt content resource start size position r
      → position < size
      → ensure_response client resource r ≡ (
        resource,
        ok (record r { res = some (take (size - position) (drop (start + position) content)) }),
      )
  unfolding ensure_response
  ensure_response-IsAt start size position r at h = elim at.body [
    | inr b ↦ opened r _ b ∙ ap (λ x. (resource, ok (record r { res = x }))) b
    | inl b ↦
        let (res, sent, status, body) =
          honest.answer (range_request resource (pos (start + position)) (pos (start + size - 1)))
            (start + position) (start + size - 1) (unfold range_request in refl)
            (unfold range_request in refl) (omega arith) (omega (arith, at.fits)) in
        let slice : suc (start + size - 1) - (start + position) ≡ size - position = omega arith in
        ap (ensure_from client resource r) b
        ∙ rw (prepare-IsAt content resource start size position r at h, ensure_from)
            (rw (sent, ensure_from)
              (partial res r _ status
                (body ∙ ap (λ k. take k (drop (start + position) content)) slice)))
  ]
