-- ===== src/Ranges/Readers.antt =====
-- internal/httprange/http_reader.go and http_ranged_reader.go: a reader over a part of a resource.
-- Sums of int64 wrap around. The readers of one resource share it, so that each operation takes
-- and gives it. Reading the body of a response gives some bytes while there are any, and then EOF;
-- a body that breaks off with another error is left out.
use gitlab_pages_mirror.Common.{
  ℕ, zero, suc, ◌-◌, Text, text_eq, Bool, true, false, not, ◌&&◌, ◌||◌, Option, none, some, [], ◌∷◌,
  ◌++◌, Result, ok, err, ◌==◌, take, drop, length, if◌then◌else◌,
}
use gitlab_pages_mirror.Common.Slices.{min}
use gitlab_pages_mirror.Common.Int.{ℤ, pos, negsuc, ltz, ◌+64◌, ◌-ℤ◌}
use gitlab_pages_mirror.Ranges.Resources.{
  RangeError, not_found, not_supported, invalid_range, seek_invalid_whence, seek_outside_range,
  request_failed, unexpected_status, RangeResponse, RangeRequest, HttpClient, Resource, set_error,
  range_request,
}

-- `res` is what is left of the body of the current response.
pub record Reader : Type 0 where
  pub res : Option Text
  pub range_start : ℤ
  pub range_size : ℤ
  pub offset : ℤ

unfoldable pub new_reader : ℤ → ℤ → Reader
new_reader offset size = record {
  res = none;
  range_start = offset;
  range_size = size;
  offset = offset;
}

abbrev pub range_end : Reader → ℤ
range_end r = r.range_start +64 r.range_size

unfoldable pub prepare_request : Resource → Reader → Result RangeError RangeRequest
unfolding ◌+64◌ ◌-ℤ◌ range_request
prepare_request resource r =
    if ltz r.range_start (pos 0) || ltz r.range_size (pos 0) || ltz resource.size (range_end r)
    then err invalid_range
    else if ltz r.offset r.range_start || not (ltz r.offset (range_end r))
    then err invalid_range
    else ok (range_request resource r.offset (range_end r +64 negsuc 0))

abbrev rejected : RangeError → Resource → Reader → Resource × Result RangeError Reader
rejected e resource r = (set_error e resource, err e)

abbrev accepted : Text → Resource → Reader → Resource × Result RangeError Reader
accepted body resource r = (resource, ok (record r { res = some body }))

abbrev is_set : Text → Bool
is_set [] = false
is_set (c ∷ s) = true

unfoldable pub set_response :
    RangeResponse → Resource → Reader → Resource × Result RangeError Reader
unfolding set_error text_eq
set_response res resource r =
    if res.status == 200
    then (if ltz (pos 0) r.offset || (is_set resource.etag && not (text_eq resource.etag res.etag))
        then rejected not_supported resource r
        else accepted res.body resource r)
    else if res.status == 404
    then rejected not_found resource r
    else if res.status == 206
    then accepted res.body resource r
    else if res.status == 416
    then rejected not_supported resource r
    else (resource, err (unexpected_status res.status))

-- ensureResponse, on the response that is there.
unfoldable pub ensure_from :
    HttpClient → Resource → Reader → Option Text → Resource × Result RangeError Reader
unfolding prepare_request set_response
ensure_from client resource r (some _) = (resource, ok r)
ensure_from client resource r none = elim (prepare_request resource r) [
  | err e ↦ (resource, err e)
  | ok request ↦ elim (client request) [
    | none ↦ (resource, err request_failed)
    | some res ↦ set_response res resource r
  ]
]

unfoldable pub ensure_response :
    HttpClient → Resource → Reader → Resource × Result RangeError Reader
unfolding ensure_from
ensure_response client resource r = ensure_from client resource r r.res

unfoldable pub close : Reader → Reader
close r = record r { res = none }

pub data Whence : Type 0 where
  seek_start seek_current seek_end other_whence : Whence

abbrev new_offset : ℤ → Whence → Reader → Option ℤ
new_offset offset seek_start r = some (r.range_start +64 offset)
new_offset offset seek_current r = some (r.offset +64 offset)
new_offset offset seek_end r = some (range_end r +64 offset)
new_offset offset other_whence r = none

abbrev pub eqz : ℤ → ℤ → Bool
eqz a b = not (ltz a b) && not (ltz b a)

-- The reader after a seek: the response stays open when nothing moves.
abbrev pub recycled : Bool → Reader → Reader
unfolding close
recycled true r = r
recycled false r = close r

-- Seek, to an offset in the resource.
unfoldable pub seek_to : ℤ → Reader → Reader × Result RangeError ℤ
unfolding ◌-ℤ◌
seek_to target r =
    if ltz target r.range_start || ltz (range_end r) target then (r, err seek_outside_range) else (
      record (recycled (eqz target r.offset) r) { offset = target },
      ok (target -ℤ r.range_start),
    )

unfoldable pub seek : ℤ → Whence → Reader → Reader × Result RangeError ℤ
unfolding ◌+64◌ seek_to
seek offset whence r = elim (new_offset offset whence r) [
  | none ↦ (r, err seek_invalid_whence)
  | some target ↦ seek_to target r
]

-- What a read ends with besides its bytes.
pub data ReadEnd : Type 0 where
  no_error eof unexpected_eof : ReadEnd
  range_failed : RangeError → ReadEnd

-- How many bytes a read of a body gives: at least one and at most `len`, by `choice`.
abbrev pub amount : ℕ → ℕ → Text → ℕ
amount choice len body = min (suc choice) (min len (length body))

-- res.Body.Read with the advance of the offset.
unfoldable pub read_body : ℕ → ℕ → Text → Reader → Text × ReadEnd × Reader
unfolding ◌+64◌
read_body choice len [] r = ([], eof, r)
read_body choice len (c ∷ body) r =
    let n = amount choice len (c ∷ body) in
    (
      take n (c ∷ body),
      no_error,
      record r { res = some (drop n (c ∷ body)); offset = r.offset +64 pos n },
    )

abbrev body_of : Reader → Text
body_of r = elim r.res [ none ↦ [] | some body ↦ body ]

-- Read into a buffer of `len` bytes.
unfoldable pub read : HttpClient → ℕ → ℕ → Resource → Reader → Resource × (Text × ReadEnd × Reader)
unfolding ensure_response read_body
read client choice zero resource r = (resource, ([], no_error, r))
read client choice (suc len) resource r =
    let (resource', result) = ensure_response client resource r in
    (
      resource',
      elim result [
        | err e ↦ ([], range_failed e, r)
        | ok r' ↦ read_body choice (suc len) (body_of r') r'
      ],
    )

-- The error of io.ReadFull at the end of the bytes.
abbrev end_of : ReadEnd → Text → ReadEnd
end_of eof (c ∷ s) = unexpected_eof
end_of e got = e

abbrev Outcome : Type 0
Outcome = Resource × (Text × ReadEnd × Reader)

-- One round of io.ReadFull behind its read: `go` reads what is still wanted.
unfoldable pub read_more :
    (ℕ → Text → Resource → Reader → Option Outcome) → ℕ → Text → Outcome → Option Outcome
read_more go len got (resource, (bytes, no_error, r)) =
    go (len - length bytes) (got ++ bytes) resource r
read_more go len got (resource, (bytes, e, r)) =
    some (resource, (got ++ bytes, end_of e (got ++ bytes), r))

-- io.ReadFull, with what is read so far. Each read without an error gives at least one byte, so
-- as many rounds as bytes are wanted are enough; `choices` is the body's choice in each round.
unfoldable pub read_full : HttpClient → (ℕ → ℕ) → ℕ → ℕ → Text → Resource → Reader → Option Outcome
unfolding read_more
read_full client choices fuel zero got resource r = some (resource, (got, no_error, r))
read_full client choices zero (suc len) got resource r = none
read_full client choices (suc fuel) (suc len) got resource r =
    read_more (read_full client choices fuel) (suc len) got
      (read client (choices fuel) (suc len) resource r)

-- ReadAt of a RangedReader without a cached reader: ephemeralRead.
unfoldable pub ephemeral_read :
    HttpClient → (ℕ → ℕ) → ℕ → ℤ → Resource → Option (Resource × (Text × ReadEnd))
unfolding read_full new_reader
ephemeral_read client choices len offset resource =
    elim (read_full client choices len len [] resource (new_reader offset (pos len))) [
      | none ↦ none
      | some (resource', (bytes, e, _)) ↦ some (resource', (bytes, e))
    ]

-- cachedRead, behind its seek.
unfoldable pub read_sought :
    HttpClient
    → (ℕ → ℕ)
    → ℕ
    → Resource
    → Reader × Result RangeError ℤ
    → Option (Resource × (Text × ReadEnd × Reader))
unfolding read_full
read_sought client choices len resource (r, err e) = some (resource, ([], range_failed e, r))
read_sought client choices len resource (r, ok _) = read_full client choices len len [] resource r

-- ReadAt with a cached reader: cachedRead.
unfoldable pub cached_read :
    HttpClient → (ℕ → ℕ) → ℕ → ℤ → Resource → Reader → Option (Resource × (Text × ReadEnd × Reader))
unfolding read_sought seek
cached_read client choices len offset resource r =
    read_sought client choices len resource (seek offset seek_start r)
