-- ===== src/Ranges/Resources.antt =====
-- internal/httprange/resource.go: the remote file that readers share, and the request that finds
-- its size. The HTTP client is a parameter.
use gitlab_pages_mirror.Common.{
  ℕ, Text, split_n, Bool, true, false, Option, none, some, List, [], ◌∷◌, Result, ok, err, ◌==◌,
  if◌then◌else◌, text_eq,
}
use gitlab_pages_mirror.Common.Int.{ℤ, pos}

pub data RangeError : Type 0 where
  not_found not_supported invalid_range seek_invalid_whence seek_outside_range : RangeError
  invalid_content_range request_failed : RangeError
  unexpected_status : ℕ → RangeError

-- What is read of an http.Response.
pub record RangeResponse : Type 0 where
  pub status : ℕ
  pub etag : Text
  pub last_modified : Text
  pub content_length : ℤ
  pub content_range : Text
  pub body : Text

-- A GET with a header Range: bytes=first-last, and the headers ETag and If-Range.
pub record RangeRequest : Type 0 where
  pub url : Text
  pub etag : Option Text
  pub if_range : Option Text
  pub first : ℤ
  pub last : ℤ

-- httpClient.Do; none is its error.
abbrev pub HttpClient : Type 0
HttpClient = RangeRequest → Option RangeResponse

pub record Resource : Type 0 where
  pub etag : Text
  pub last_modified : Text
  pub size : ℤ
  pub url : Text
  pub error : Option RangeError

unfoldable pub set_url : Text → Resource → Resource
unfolding text_eq
set_url url r = if text_eq r.url url then r else record r { url = url }

unfoldable pub is_valid : Resource → Bool
is_valid r = elim r.error [ none ↦ true | some _ ↦ false ]

unfoldable pub set_error : RangeError → Resource → Resource
set_error e r = record r { error = some e }

-- Request, with the range that its caller adds.
unfoldable pub range_request : Resource → ℤ → ℤ → RangeRequest
range_request r first last = record {
  url = r.url;
  etag = elim r.etag [ [] ↦ none | c ∷ s ↦ some (c ∷ s) ];
  if_range = elim r.etag [
    | c ∷ s ↦ none
    | [] ↦ elim r.last_modified [ [] ↦ none | c ∷ s ↦ some (c ∷ s) ]
  ];
  first = first;
  last = last;
}

abbrev new_with : Text → RangeResponse → ℤ → Resource
new_with url res size = record {
  etag = res.etag;
  last_modified = res.last_modified;
  size = size;
  url = url;
  error = none;
}

abbrev second : List Text → Option Text
second (_ ∷ s ∷ []) = some s
second _ = none

-- The size behind the slash of a Content-Range; `parse_int` is strconv.ParseInt.
unfoldable pub total_size : (Text → Option ℤ) → Text → Result RangeError ℤ
unfolding split_n
total_size parse_int content_range = elim (second (split_n b'/' 2 content_range)) [
  | none ↦ err invalid_content_range
  | some total ↦ elim (parse_int total) [ none ↦ err invalid_content_range | some size ↦ ok size ]
]

-- NewResource on the answer to its request for the first byte.
unfoldable pub resource_of : (Text → Option ℤ) → Text → RangeResponse → Result RangeError Resource
unfolding total_size
resource_of parse_int url res =
    if res.status == 200
    then ok (new_with url res res.content_length)
    else if res.status == 206
    then elim (total_size parse_int res.content_range) [
      | err e ↦ err e
      | ok size ↦ ok (new_with url res size)
    ]
    else if res.status == 416
    then err not_supported
    else if res.status == 404
    then err not_found
    else err (unexpected_status res.status)

unfoldable pub new_resource : (Text → Option ℤ) → HttpClient → Text → Result RangeError Resource
unfolding resource_of
new_resource parse_int client url =
    elim (client
      (record { url = url; etag = none; if_range = none; first = pos 0; last = pos 0 })) [
        | none ↦ err request_failed
        | some res ↦ resource_of parse_int url res
      ]
