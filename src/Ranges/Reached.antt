-- ===== src/Ranges/Reached.antt =====
-- internal/httprange/http_reader.go and http_ranged_reader.go: what the callers of a reader do with
-- it, one operation after another.
use gitlab_pages_mirror.Common.{ℕ, Text, some, ◌≡◌, subst, ok}
use gitlab_pages_mirror.Common.Int.{ℤ, pos, IsInt64}
use gitlab_pages_mirror.Ranges.Resources.{Resource, HttpClient, RangeRequest}
use gitlab_pages_mirror.Ranges.Readers.{
  Reader, Whence, ReadEnd, new_reader, close, seek, read, cached_read, prepare_request, seek_start,
}
use gitlab_pages_mirror.Ranges.Bounds.{IsTyped, IsInRange, prepare_request-IsInRange}
use gitlab_pages_mirror.Ranges.Typed.{
  close-IsTyped, seek-IsTyped, read-IsTyped, read_sought-IsTyped,
}

-- What a caller does with a reader: the numbers of a Seek are of type int64, and so is the length
-- of a buffer. The server may answer anything.
pub data Uses : Reader → Reader → Type 0 where
  reads :
      (client : HttpClient) (choice len : ℕ) (resource : Resource) {r r' : Reader}
      → IsInt64 (pos len)
      → ((read client choice len resource r).1.2 ≡ r')
      → Uses r r'
  reads_at :
      (client : HttpClient) (choices : ℕ → ℕ) (len : ℕ) (offset : ℤ) (resource resource' : Resource)
      (bytes : Text) (e : ReadEnd) {r r' : Reader}
      → IsInt64 (pos len)
      → IsInt64 offset
      → cached_read client choices len offset resource r ≡ some (resource', (bytes, e, r'))
      → Uses r r'
  seeks :
      (offset : ℤ) (whence : Whence) {r r' : Reader}
      → IsInt64 offset
      → (seek offset whence r).0 ≡ r'
      → Uses r r'
  closes : {r r' : Reader} → close r ≡ r' → Uses r r'

-- The readers that there are: a new one, and what operations make of it.
pub data Reached : Reader → Type 0 where
  opened : {offset size : ℤ} → IsInt64 offset → IsInt64 size → Reached (new_reader offset size)
  used : {r r' : Reader} → Reached r → Uses r r' → Reached r'

Uses-IsTyped : {r r' : Reader} → Uses r r' → IsTyped r → IsTyped r'
unfolding cached_read
Uses-IsTyped {r} (reads client choice len resource i e) t =
    subst IsTyped e (read-IsTyped client choice len resource r t i)
Uses-IsTyped {r} (reads_at client choices len offset resource resource' bytes e {r' = r'} i j h) t =
    read_sought-IsTyped client choices len resource (seek offset seek_start r)
      (resource', (bytes, e, r')) (seek-IsTyped offset seek_start r t j) i h
Uses-IsTyped {r} (seeks offset whence i e) t = subst IsTyped e (seek-IsTyped offset whence r t i)
Uses-IsTyped {r} (closes e) t = subst IsTyped e (close-IsTyped r t)

-- The numbers of every reader, whatever is done with it and whatever the server answers, keep the
-- type int64 that they are declared with, though the model computes with unbounded integers.
pub Reached-IsTyped : {r : Reader} → Reached r → IsTyped r
unfolding new_reader
Reached-IsTyped (opened i j) = record { range_start = i; range_size = j; offset = i }
Reached-IsTyped (used h u) = Uses-IsTyped u (Reached-IsTyped h)

-- Whatever is done with a reader before and whatever the server answers, each request that it makes
-- asks for a range that begins at its offset and lies inside its own range and inside the resource.
pub Reached-IsInRange :
    (resource : Resource) (r : Reader) (q : RangeRequest)
    → Reached r
    → prepare_request resource r ≡ ok q
    → IsInRange resource r q
Reached-IsInRange resource r q h = prepare_request-IsInRange resource r q (Reached-IsTyped h)
