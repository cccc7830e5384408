-- ===== src/Redirects/Safety.antt =====
-- internal/redirects/redirects.go: which rules pass the validation, and where a rewrite can lead.
use gitlab_pages_mirror.Common.{
  ℕ, Text, codes, text_eq_iff, has_prefix, contains, true, false, ◌≡◌, ◌↔◌, ◌⊎◌, inl, inr, Option,
  none, some, List, [], ◌∷◌, arith, Option-cases,
}
use gitlab_pages_mirror.Redirects.Rules.{
  RedirectError, no_redirect, Url, Rule, Redirects, has_placeholder, validate_parsed, validate_url,
  validate_options, validate_rule, is_valid, match_rule, rewrite,
}

-- A URL that stays on its own domain and uses no pattern.
pub record IsLocal (u : Url) : Type 0 where
  pub host : u.host ≡ []
  pub scheme : u.scheme ≡ []
  pub path : has_prefix u.path (codes "/") ≡ true
  pub no_star : contains u.path (codes "*") ≡ false
  pub no_placeholder : has_placeholder u.path ≡ false

-- The options of a rule that are supported.
pub record HasPlainOptions (r : Rule) : Type 0 where
  pub params : r.params ≡ none
  pub status : (r.status ≡ 301) ⊎ (r.status ≡ 302)
  pub force : r.force ≡ false

module _ (parse_url : Text → Option Url) where
  -- A text that parses to a local URL.
  abbrev pub ParsesLocal : Text → Type 0
  ParsesLocal text = (u : Url) × (parse_url text ≡ some u) × IsLocal u

  validate_parsed-IsLocal : (u : Url) → validate_parsed parse_url u ≡ none → IsLocal u
  unfolding validate_parsed
  validate_parsed-IsLocal u h = ground (arith, text_eq_iff u.host [], text_eq_iff u.scheme [])

  IsLocal-validate_parsed : (u : Url) → IsLocal u → validate_parsed parse_url u ≡ none
  unfolding validate_parsed
  IsLocal-validate_parsed u h = ground (arith, text_eq_iff u.host [], text_eq_iff u.scheme [])

  validate_url_sound : (text : Text) → validate_url parse_url text ≡ none → ParsesLocal text
  unfolding validate_url
  validate_url_sound text h = elim (Option-cases (parse_url text)) [
    | inl e ↦ ground (arith, e)
    | inr (u, e) ↦ (u, e, validate_parsed-IsLocal u (ground (arith, e)))
  ]

  validate_url_complete : (text : Text) → ParsesLocal text → validate_url parse_url text ≡ none
  unfolding validate_url
  validate_url_complete text (u, e, l) = rw (e, validate_url) (IsLocal-validate_parsed u l)

  options_sound : (r : Rule) → validate_options parse_url r ≡ none → HasPlainOptions r
  unfolding validate_options
  options_sound r h = ground arith

  options_complete : (r : Rule) → HasPlainOptions r → validate_options parse_url r ≡ none
  unfolding validate_options
  options_complete r h = ground arith

  valid_sound :
      (r : Rule)
      → validate_rule parse_url r ≡ none
      → ParsesLocal r.from × ParsesLocal r.to × HasPlainOptions r
  unfolding validate_rule
  valid_sound r h = (
    validate_url_sound r.from (ground arith),
    validate_url_sound r.to (ground arith),
    options_sound r (ground arith),
  )

  valid_complete :
      (r : Rule)
      → ParsesLocal r.from × ParsesLocal r.to × HasPlainOptions r
      → validate_rule parse_url r ≡ none
  unfolding validate_rule
  valid_complete r (f, t, o) =
      ground
        (arith, validate_url_complete r.from f, validate_url_complete r.to t, options_complete r o)

  -- A rule passes the validation exactly when both its URLs parse to local URLs, it has no query
  -- parameters, its status is 301 or 302, and it does not ask for force.
  pub validate_rule_iff :
      (r : Rule)
      → (validate_rule parse_url r ≡ none)
        ↔ (ParsesLocal r.from × ParsesLocal r.to × HasPlainOptions r)
  validate_rule_iff r = (valid_sound r, valid_complete r)

  match_rule-valid :
      (rules : List Rule) (path : Text) (rule : Rule)
      → match_rule parse_url rules path ≡ some rule
      → validate_rule parse_url rule ≡ none
  unfolding match_rule is_valid
  match_rule-valid [] path rule h = ground arith
  match_rule-valid (first ∷ rules) path rule h = ground (arith, match_rule-valid rules path rule)

  -- What a rewrite gives: no redirect at all, or a local URL with a redirect status and no error.
  pub data IsOutcome : Option Url × ℕ × Option RedirectError → Type 0 where
    unmatched : IsOutcome (none, 0, some no_redirect)
    local :
        (u : Url) (status : ℕ)
        → IsLocal u
        → (status ≡ 301) ⊎ (status ≡ 302)
        → IsOutcome (some u, status, none)

  rule-IsOutcome :
      (rule : Rule) (u : Url)
      → parse_url rule.to ≡ some u
      → IsLocal u
      → HasPlainOptions rule
      → (r : Redirects) (url : Url) → match_rule parse_url r.rules url.path ≡ some rule
      → IsOutcome (rewrite parse_url r url)
  unfolding rewrite
  rule-IsOutcome rule u e l o r url m = rw (m, rewrite) (rw e (local u rule.status l o.status))

  -- Whatever the rules and the URL, a rewrite either reports that no redirect applies, or it gives
  -- a URL with no host and no scheme whose path starts with a slash and has no pattern, with
  -- status 301 or 302 and no error: a target that does not parse is never reached.
  pub rewrite-IsOutcome : (r : Redirects) (url : Url) → IsOutcome (rewrite parse_url r url)
  unfolding rewrite
  rewrite-IsOutcome r url = elim (Option-cases (match_rule parse_url r.rules url.path)) [
    | inl e ↦ rw (e, rewrite) unmatched
    | inr (rule, e) ↦
        let (_, (u, p, l), o) = valid_sound rule (match_rule-valid r.rules url.path rule e) in
        rule-IsOutcome rule u p l o r url e
  ]
