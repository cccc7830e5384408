-- ===== src/Redirects/Rules.antt =====
-- internal/redirects/redirects.go: the rules of a _redirects file, their validation and the rewrite.
use gitlab_pages_mirror.Common.{
  ℕ, ◌+◌, ◌*◌, Text, codes, text_eq, has_prefix, contains, trim_suffix, join, decimal, Bool, true,
  false, not, ◌&&◌, ◌||◌, Option, none, some, List, [], ◌∷◌, ◌++◌, Result, ok, err, length, ltb,
  leb, ◌==◌, if◌then◌else◌,
}
use gitlab_pages_mirror.Vfs.{VfsError, Root}

-- The error values of the package; `url_error` is what url.Parse returns.
pub data RedirectError : Type 0 where
  no_redirect config_not_found need_regular_file file_too_large : RedirectError
  failed_to_open_config failed_to_parse_config failed_to_parse_url : RedirectError
  no_domain_level_redirects no_starting_forward_slash no_splats no_placeholders : RedirectError
  no_params unsupported_status no_force url_error : RedirectError

-- The message of each error, as errors.New is given it; that of url.Parse is its own, and no
-- message of the package shows it.
unfoldable pub message : RedirectError → Text
message no_redirect = codes "no redirect found"
message config_not_found = codes "_redirects file not found"
message need_regular_file = codes "_redirects needs to be a regular file (not a directory)"
message file_too_large = codes "_redirects file too large"
message failed_to_open_config = codes "unable to open _redirects file"
message failed_to_parse_config = codes "failed to parse _redirects file"
message failed_to_parse_url = codes "unable to parse URL"
message no_domain_level_redirects = codes "no domain-level redirects to outside sites"
message no_starting_forward_slash = codes "url path must start with forward slash /"
message no_splats = codes "splats are not supported"
message no_placeholders = codes "placeholders are not supported"
message no_params = codes "params not supported"
message unsupported_status = codes "status not supported"
message no_force = codes "force! not supported"
message url_error = []

abbrev pub config_file : Text
config_file = codes "_redirects"

abbrev pub max_config_size : ℕ
max_config_size = 64 * 1024

-- net/url's URL, as far as the program reads it.
pub record Url : Type 0 where
  pub scheme : Text
  pub host : Text
  pub path : Text
  pub query : Text

-- netlifyRedirects.Rule; `params` is none for a nil map.
pub record Rule : Type 0 where
  pub from : Text
  pub to : Text
  pub params : Option (List (Text × Text))
  pub status : ℕ
  pub force : Bool

pub record Redirects : Type 0 where
  pub rules : List Rule
  pub error : Option RedirectError

-- A first rune of the class [a-z] without regard to case: an ASCII letter, or one of the two other
-- runes that fold to one, U+017F and U+212A.
starts_with_letter : Text → Bool
unfolding has_prefix
starts_with_letter [] = false
starts_with_letter (c ∷ s) =
    leb b'a' c && leb c b'z'
    || leb b'A' c && leb c b'Z'
    || has_prefix (c ∷ s) (0xC5 ∷ 0xBF ∷ [])
    || has_prefix (c ∷ s) (0xE2 ∷ 0x84 ∷ 0xAA ∷ [])

-- The regular expression (?i)/:[a-z]+ finds a match.
unfoldable pub has_placeholder : Text → Bool
unfolding starts_with_letter
has_placeholder [] = false
has_placeholder (a ∷ []) = false
has_placeholder (a ∷ b ∷ s) =
    a == b'/' && b == b':' && starts_with_letter s || has_placeholder (b ∷ s)

unfoldable pub normalize_path : Text → Text
unfolding trim_suffix
normalize_path path = trim_suffix path (codes "/") ++ codes "/"

-- The line of Status for a rule, by its number from 1 and what its validation said.
unfoldable pub verdict_line : ℕ → Option RedirectError → Text
unfolding message decimal
verdict_line i (some e) = codes "rule " ++ (decimal i ++ (codes ": error: " ++ message e))
verdict_line i none = codes "rule " ++ (decimal i ++ codes ": valid")

-- `parse_url` is url.Parse, and `parse_rules` the parser of the package go-redirects.
module _ (parse_url : Text → Option Url) where
  unfoldable pub validate_parsed : Url → Option RedirectError
  unfolding text_eq has_prefix contains has_placeholder
  validate_parsed url =
      if not (text_eq url.host []) || not (text_eq url.scheme [])
      then some no_domain_level_redirects
      else if not (has_prefix url.path (codes "/"))
      then some no_starting_forward_slash
      else if contains url.path (codes "*")
      then some no_splats
      else if has_placeholder url.path
      then some no_placeholders
      else none

  unfoldable pub validate_url : Text → Option RedirectError
  unfolding validate_parsed
  validate_url text = elim (parse_url text) [
    | none ↦ some failed_to_parse_url
    | some url ↦ validate_parsed url
  ]

  -- What validateRule tests after the two URLs.
  unfoldable pub validate_options : Rule → Option RedirectError
  validate_options r = elim r.params [
    | some _ ↦ some no_params
    | none ↦
        if not (r.status == 301 || r.status == 302)
        then some unsupported_status
        else if r.force
        then some no_force
        else none
  ]

  unfoldable pub validate_rule : Rule → Option RedirectError
  unfolding validate_url validate_options
  validate_rule r = elim (validate_url r.from) [
    | some e ↦ some e
    | none ↦ elim (validate_url r.to) [ some e ↦ some e | none ↦ validate_options r ]
  ]

  unfoldable pub is_valid : Rule → Bool
  unfolding validate_rule
  is_valid r = elim (validate_rule r) [ none ↦ true | some _ ↦ false ]

  -- The method `match`: the first rule of the list for the path that is valid.
  unfoldable pub match_rule : List Rule → Text → Option Rule
  unfolding is_valid normalize_path text_eq
  match_rule [] path = none
  match_rule (rule ∷ rules) path =
      if text_eq (normalize_path rule.from) (normalize_path path) && is_valid rule
      then some rule
      else match_rule rules path

  -- Rewrite: the new URL (none for nil), the status and the error.
  unfoldable pub rewrite : Redirects → Url → Option Url × ℕ × Option RedirectError
  unfolding match_rule
  rewrite r url = elim (match_rule r.rules url.path) [
    | none ↦ (none, 0, some no_redirect)
    | some rule ↦ elim (parse_url rule.to) [
      | none ↦ (none, rule.status, some url_error)
      | some new_url ↦ (some new_url, rule.status, none)
    ]
  ]

  unfoldable pub rule_line : ℕ → Rule → Text
  unfolding validate_rule verdict_line
  rule_line i rule = verdict_line i (validate_rule rule)

  unfoldable pub rule_lines : ℕ → List Rule → List Text
  unfolding rule_line
  rule_lines i [] = []
  rule_lines i (rule ∷ rules) = rule_line (i + 1) rule ∷ rule_lines (i + 1) rules

  unfoldable pub status_text : Redirects → Text
  unfolding rule_lines join
  status_text r = elim r.error [
    | some e ↦ codes "parse error: " ++ message e
    | none ↦ join (codes "\n") ((decimal (length r.rules) ++ codes " rules") ∷ rule_lines 0 r.rules)
  ]

abbrev failing : RedirectError → Redirects
failing e = record { rules = []; error = some e }

module _ (parse_rules : Text → Option (List Rule)) where
  -- What ParseRedirects does with the contents of the file.
  parse_contents : Result VfsError Text → Redirects
  parse_contents (err _) = failing failed_to_open_config
  parse_contents (ok text) = elim (parse_rules text) [
    | none ↦ failing failed_to_parse_config
    | some rules ↦ record { rules = rules; error = none }
  ]

  -- ParseRedirects, with its guards in the order of the source.
  unfoldable pub parse_redirects : Root → Redirects
  unfolding parse_contents
  parse_redirects root = elim (root.lstat config_file) [
    | err _ ↦ failing config_not_found
    | ok fi ↦
        if not fi.is_regular
        then failing need_regular_file
        else if ltb max_config_size fi.size
        then failing file_too_large
        else parse_contents (root.open_file config_file)
  ]
