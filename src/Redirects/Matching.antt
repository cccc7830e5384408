-- ===== src/Redirects/Matching.antt =====
-- internal/redirects/redirects.go: which rule a path finds.
use gitlab_pages_mirror.Common.{
  Text, codes, text_eq, has_suffix, trim_suffix, Bool, true, false, ◌&&◌, ◌≡◌, ◌↔◌, refl, Option,
  some, List, [], ◌∷◌, ◌++◌, arith, Bool-cases, inl, inr,
}
use gitlab_pages_mirror.Common.TextLaws.{trim_suffix-append}
use gitlab_pages_mirror.Redirects.Rules.{
  Url, Rule, Redirects, normalize_path, is_valid, match_rule, rewrite,
}

module _ (parse_url : Text → Option Url) where
  -- The test of the loop in `match`.
  abbrev pub applies : Text → Rule → Bool
  applies path rule =
      text_eq (normalize_path rule.from) (normalize_path path) && is_valid parse_url rule

  -- The rule stands in the list behind rules of which none applies.
  pub data IsFirst (path : Text) (rule : Rule) : List Rule → Type 0 where
    here : (rules : List Rule) → applies path rule ≡ true → IsFirst path rule (rule ∷ rules)
    later :
        (other : Rule) (rules : List Rule)
        → applies path other ≡ false
        → IsFirst path rule rules
        → IsFirst path rule (other ∷ rules)

  IsFirst-of_match :
      (rules : List Rule) (path : Text) (rule : Rule)
      → match_rule parse_url rules path ≡ some rule
      → IsFirst path rule rules
  unfolding match_rule
  IsFirst-of_match [] path rule h = ground arith
  IsFirst-of_match (first ∷ rules) path rule h = elim (Bool-cases (applies path first)) [
    | inl e ↦ let same : first ≡ rule = ground arith in rw (← same) (here rules e)
    | inr e ↦ later first rules e (IsFirst-of_match rules path rule (ground arith))
  ]

  match_of_first :
      (path : Text) (rule : Rule) (rules : List Rule)
      → IsFirst path rule rules
      → match_rule parse_url rules path ≡ some rule
  unfolding match_rule
  match_of_first path rule _ (here rules e) = rw e
  match_of_first path rule _ (later other rules e f) = rw e (match_of_first path rule rules f)

  -- `match` returns a rule exactly when it is the first of the list that applies to the path.
  pub match_rule_iff :
      (rules : List Rule) (path : Text) (rule : Rule)
      → (match_rule parse_url rules path ≡ some rule) ↔ IsFirst path rule rules
  match_rule_iff rules path rule =
      (IsFirst-of_match rules path rule, match_of_first path rule rules)

  normalize_path_slash :
      (path : Text)
      → has_suffix path (codes "/") ≡ false
      → normalize_path (path ++ codes "/") ≡ normalize_path path
  unfolding normalize_path trim_suffix
  normalize_path_slash path h = rw (h, trim_suffix-append path (codes "/"))

  match_rule_slash :
      (rules : List Rule) (path : Text)
      → has_suffix path (codes "/") ≡ false
      → match_rule parse_url rules (path ++ codes "/") ≡ match_rule parse_url rules path
  unfolding match_rule
  match_rule_slash [] path h = refl
  match_rule_slash (rule ∷ rules) path h =
      rw (normalize_path_slash path h, match_rule_slash rules path h)

  -- One trailing slash on the path of the URL makes no difference to a rewrite.
  pub rewrite_trailing_slash :
      (r : Redirects) (url : Url)
      → has_suffix url.path (codes "/") ≡ false
      → rewrite parse_url r (record url { path = url.path ++ codes "/" }) ≡ rewrite parse_url r url
  unfolding rewrite
  rewrite_trailing_slash r url h = rw (match_rule_slash r.rules url.path h, rewrite)
