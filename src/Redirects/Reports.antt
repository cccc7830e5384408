-- ===== src/Redirects/Reports.antt =====
-- internal/redirects/redirects.go: what reading the file gives, and the report on its rules.
use gitlab_pages_mirror.Common.{
  ℕ, zero, suc, ◌+◌, ◌≤◌, Text, codes, decimal, true, ◌≡◌, refl, ◌∙◌, ap, ◌↔◌, Option, none, some,
  List, [], ◌∷◌, ◌++◌, ok, get_elem?, arith, inl, inr, Result-cases,
}
use mathlib.Core.Option
use mathlib.Core.Option.{some-injective}
use native.Mathlib.Nat.{zero-add}
use gitlab_pages_mirror.Vfs.{FileInfo, Root}
use gitlab_pages_mirror.Redirects.Rules.{
  RedirectError, Url, Rule, config_file, verdict_line, max_config_size, validate_rule, rule_line,
  rule_lines, parse_redirects,
}

-- The file was there, regular, small enough, readable, and parsed to the rules.
pub record WasRead (parse_rules : Text → Option (List Rule)) (root : Root) (rules : List Rule)
    : Type 0 where
  pub info : FileInfo
  pub found : root.lstat config_file ≡ ok info
  pub regular : info.is_regular ≡ true
  pub small : info.size ≤ max_config_size
  pub text : Text
  pub opened : root.open_file config_file ≡ ok text
  pub parsed : parse_rules text ≡ some rules

module _ (parse_rules : Text → Option (List Rule)) (root : Root) where
  -- When reading the file leaves no error, the file exists, is regular, has at most 64 KiB, could
  -- be opened, and its contents parse to exactly the rules that are kept.
  pub parse_redirects-WasRead :
      (parse_redirects parse_rules root).error ≡ none
      → WasRead parse_rules root (parse_redirects parse_rules root).rules
  unfolding parse_redirects
  parse_redirects-WasRead h = elim (Result-cases (root.lstat config_file)) [
    | inr (_, e) ↦ absurd (ground arith)
    | inl (info, e) ↦ elim (Result-cases (root.open_file config_file)) [
      | inr (_, f) ↦ absurd (ground arith)
      | inl (text, f) ↦ record {
        info = info;
        found = e;
        regular = ground arith;
        small = ground arith;
        text = text;
        opened = f;
        parsed = ground arith;
      }
    ]
  ]

cancel_front : (front : Text) {a b : Text} → front ++ a ≡ front ++ b → a ≡ b
cancel_front [] h = h
cancel_front (c ∷ front) h = cancel_front front (ground arith)

-- The line of an error and that of a valid rule differ behind the number.
valid_of_verdict :
    (i : ℕ) (verdict : Option RedirectError)
    → verdict_line i verdict ≡ verdict_line i none
    → verdict ≡ none
unfolding verdict_line
valid_of_verdict i none h = refl
valid_of_verdict i (some e) h =
    absurd (ground (arith, cancel_front (decimal i) (cancel_front (codes "rule ") h)))

module _ (parse_url : Text → Option Url) where
  -- The report has one line for each rule, in order, numbered from 1.
  get_elem?-rule_lines :
      (start : ℕ) (rules : List Rule) (i : ℕ)
      → get_elem? (rule_lines parse_url start rules) i
        ≡ Option.map (rule_line parse_url (start + (i + 1))) (get_elem? rules i)
  unfolding rule_lines
  get_elem?-rule_lines start [] i = refl
  get_elem?-rule_lines start (rule ∷ rules) zero = refl
  get_elem?-rule_lines start (rule ∷ rules) (suc i) =
      let e : start + 1 + (i + 1) ≡ start + (suc i + 1) = omega arith in
      rw (get_elem?-rule_lines (start + 1) rules i, e)

  line_iff :
      (i : ℕ) (rule : Rule)
      → (rule_line parse_url i rule ≡ verdict_line i none) ↔ (validate_rule parse_url rule ≡ none)
  unfolding rule_line
  line_iff i rule = (valid_of_verdict i (validate_rule parse_url rule), λ h. ap (verdict_line i) h)

  line_at :
      (rules : List Rule) (i : ℕ) (rule : Rule)
      → get_elem? rules i ≡ some rule
      → get_elem? (rule_lines parse_url 0 rules) i ≡ some (rule_line parse_url (i + 1) rule)
  line_at rules i rule h = get_elem?-rule_lines 0 rules i ∙ rw (h, zero-add)

  -- The line for the rule at a position says that it is valid exactly when the rule passes the
  -- validation, which is what a rewrite asks of it.
  pub rule_lines_iff :
      (rules : List Rule) (i : ℕ) (rule : Rule)
      → get_elem? rules i ≡ some rule
      → (get_elem? (rule_lines parse_url 0 rules) i ≡ some (verdict_line (i + 1) none))
        ↔ (validate_rule parse_url rule ≡ none)
  rule_lines_iff rules i rule h =
      let at = line_at rules i rule h in
      let eq = line_iff (i + 1) rule in
      (λ e. eq.0 (ground (arith, at, e)), λ v. at ∙ ap some (eq.1 v))
