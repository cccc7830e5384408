-- ===== src/Config/Flags.antt =====
-- internal/config/multi_string_flag.go: a flag that is given several times;
-- internal/validateargs/validateargs.go: arguments that may not be given; and
-- internal/middleware/headers.go: the headers that a flag gives.
use gitlab_pages_mirror.Common.{
  ℕ, zero, suc, ◌-◌, Text, codes, Bool, Option, none, some, List, [], ◌∷◌, ◌++◌, length,
  if◌then◌else◌, join, split_n, contains, has_prefix, Dict, dict_get, dict_put, leb, ◌==◌, ◌||◌,
  ◌&&◌,
}

-- A flag.Value with its separator.
pub record MultiStringFlag : Type 0 where
  pub value : List Text
  pub separator : Text

unfoldable pub sep : MultiStringFlag → Text
sep s = elim s.separator [ [] ↦ codes "," | c ∷ t ↦ c ∷ t ]

-- Set; none is errMultiStringSetEmptyValue.
unfoldable pub set_value : Text → MultiStringFlag → Option MultiStringFlag
set_value [] s = none
set_value (c ∷ t) s = some (record s { value = s.value ++ (c ∷ t) ∷ [] })

unfoldable pub flag_string : MultiStringFlag → Text
unfolding sep join
flag_string s = join (sep s) s.value

abbrev pub push_first : ℕ → List Text → List Text
push_first c [] = (c ∷ []) ∷ []
push_first c (s ∷ rest) = (c ∷ s) ∷ rest

-- strings.Split for a separator that is not empty, of which `skip` more bytes belong to the last
-- separator that was found.
unfoldable pub split_from : Text → ℕ → Text → List Text
unfolding has_prefix
split_from separator skip [] = [] ∷ []
split_from separator (suc skip) (c ∷ s) = split_from separator skip s
split_from separator zero (c ∷ s) =
    let behind = split_from separator (length separator - 1) s in
    let inside = split_from separator zero s in
    if has_prefix (c ∷ s) separator then [] ∷ behind else push_first c inside

unfoldable pub split_all : Text → List Text → List Text
unfolding split_from
split_all separator [] = []
split_all separator (s ∷ rest) = split_from separator 0 s ++ split_all separator rest

-- Split
unfoldable pub split_flag : MultiStringFlag → List Text
unfolding sep split_all
split_flag s = split_all (sep s) s.value

abbrev pub not_allowed_args : List Text
not_allowed_args =
    codes "-auth-client-id"
    ∷ codes "-auth-client-secret"
    ∷ codes "-auth-secret"
    ∷ codes "-auth-scope"
    ∷ []

abbrev pub deprecated_args : List Text
deprecated_args = codes "-sentry-dsn" ∷ []

unfoldable pub found_args : Text → List Text → List Text
unfolding contains
found_args text [] = []
found_args text (arg ∷ rest) =
    let later = found_args text rest in if contains text arg then arg ∷ later else later

-- validate: the arguments that are found, none if there is none of them.
unfoldable pub validate_args : List Text → List Text → Option (List Text)
unfolding found_args join
validate_args args invalid = elim (found_args (join (codes " ") args) invalid) [
  | [] ↦ none
  | a ∷ found ↦ some (a ∷ found)
]

-- White space at both ends, of which ASCII has six bytes.
abbrev is_space : ℕ → Bool
is_space c = (leb 9 c && leb c 13) || (c == 32)

unfoldable pub trim_left_space : Text → Text
trim_left_space [] = []
trim_left_space (c ∷ s) = let rest = trim_left_space s in if is_space c then rest else c ∷ s

unfoldable pub trim_right_space : Text → Text
trim_right_space [] = []
trim_right_space (c ∷ s) = elim (trim_right_space s) [
  | [] ↦ if is_space c then [] else c ∷ []
  | d ∷ t ↦ c ∷ d ∷ t
]

unfoldable pub trim_space : Text → Text
unfolding trim_left_space trim_right_space
trim_space s = trim_left_space (trim_right_space s)

abbrev values_of : Option (List Text) → List Text
values_of none = []
values_of (some vs) = vs

abbrev pub add_header_string : List Text → Dict (List Text) → Option (Dict (List Text))
unfolding dict_get dict_put trim_space
add_header_string (key ∷ value ∷ []) headers = some (
    dict_put headers (trim_space key)
      (values_of (dict_get headers (trim_space key)) ++ trim_space value ∷ []))
add_header_string _ headers = none

-- ParseHeaderString, with the headers so far; none is errInvalidHeaderParameter.
unfoldable pub parse_headers_from : List Text → Dict (List Text) → Option (Dict (List Text))
unfolding split_n add_header_string
parse_headers_from [] headers = some headers
parse_headers_from (s ∷ rest) headers = elim (add_header_string (split_n b':' 2 s) headers) [
  | none ↦ none
  | some headers' ↦ parse_headers_from rest headers'
]

unfoldable pub parse_header_string : List Text → Option (Dict (List Text))
unfolding parse_headers_from
parse_header_string custom = parse_headers_from custom []
