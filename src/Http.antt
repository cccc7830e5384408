-- ===== src/Http.antt =====
-- The HTTP request as the handlers read it (net/http), with internal/request and internal/host.
use gitlab_pages_mirror.Common.{
  ℕ, Text, codes, text_eq, has_prefix, contains, cut, to_lower, Bool, ◌||◌, Option, none, some, [],
  ◌∷◌, Dict, ◌==◌, drop, if◌then◌else◌, ◌≡◌, refl,
}

pub record Request : Type 0 where
  pub method : Text
  pub host : Text
  pub scheme : Text
  pub path : Text
  pub request_uri : Text
  pub query : Dict Text
  pub headers : Dict Text
  pub tls : Bool

abbrev has_byte : ℕ → Text → Bool
has_byte b s = contains s (b ∷ [])

-- What stands before the last separator and what stands behind it.
unfoldable pub cut_last : ℕ → Text → Option (Text × Text)
cut_last sep [] = none
cut_last sep (c ∷ s) = elim (cut_last sep s) [
  | some (before, after) ↦ some (c ∷ before, after)
  | none ↦ if c == sep then some ([], s) else none
]

-- The host of net.SplitHostPort inside brackets: the first closing bracket must stand right before
-- the last colon, and no other bracket may follow.
bracketed_host : Text → Text → Option Text
unfolding contains cut
bracketed_host before port =
    let (inside, rest) = cut b']' before in
    elim rest [
      | none ↦ none
      | some (_ ∷ _) ↦ none
      | some [] ↦
          if has_byte b'[' (drop 1 inside) || has_byte b'[' port || has_byte b']' port
          then none
          else some (drop 1 inside)
    ]

-- net.SplitHostPort without the port: none is its error.
unfoldable pub split_host_port : Text → Option Text
unfolding cut_last bracketed_host has_prefix contains
split_host_port s = elim (cut_last b':' s) [
  | none ↦ none
  | some (before, port) ↦
      if has_prefix s (codes "[")
      then bracketed_host before port
      else if has_byte b':' before || has_byte b'[' s || has_byte b']' s
      then none
      else some before
]

-- request.GetHostWithoutPort
unfoldable pub get_host_without_port : Request → Text
unfolding split_host_port
get_host_without_port r = elim (split_host_port r.host) [ none ↦ r.host | some host ↦ host ]

-- host.FromString and host.FromRequest
unfoldable pub host_from_string : Text → Text
unfolding split_host_port to_lower
host_from_string s =
    let host = to_lower s in elim (split_host_port host) [ none ↦ host | some h ↦ h ]

unfoldable pub host_from_request : Request → Text
unfolding host_from_string
host_from_request r = host_from_string r.host

-- request.IsHTTPS
unfoldable pub is_https : Request → Bool
unfolding text_eq
is_https r = text_eq r.scheme (codes "https")

host_examples :
    (split_host_port (codes "a.io:80") ≡ some (codes "a.io"))
    × (split_host_port (codes "a.io") ≡ none)
    × (split_host_port (codes "[::1]:80") ≡ some (codes "::1"))
    × (split_host_port (codes "::1:80") ≡ none)
    × (host_from_string (codes "A.io:80") ≡ codes "a.io")
unfolding host_from_string
host_examples = (refl, refl, refl, refl, refl)
