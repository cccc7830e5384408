-- ===== src/Source/Domains/Serverless.antt =====
-- internal/source/domains.go: the regular expression for serverless domains.
use gitlab_pages_mirror.Common.{
  ℕ, Text, Bool, true, false, ◌≡◌, ◌≢◌, ◌↔◌, ◌⊎◌, inl, inr, refl, ap, [], ◌∷◌, ◌++◌, All, arith,
  ◌==◌,
}
use gitlab_pages_mirror.Source.Domains.{
  match_classes, serverless_tail, scan_serverless, is_serverless_domain,
}

-- A text of the form that the expression describes: at least one byte that is no dot, a dash, and
-- the digits behind it.
pub record IsServerless (s : Text) : Type 0 where
  pub before : Text
  pub after : Text
  pub split : s ≡ before ++ (b'-' ∷ after)
  pub nonempty : before ≢ []
  pub no_dots : All (λ c. (c == b'.') ≡ false) before
  pub digits : match_classes serverless_tail after ≡ true

-- The same behind bytes that have been passed already.
record Splits (s : Text) : Type 0 where
  before : Text
  after : Text
  split : s ≡ before ++ (b'-' ∷ after)
  no_dots : All (λ c. (c == b'.') ≡ false) before
  digits : match_classes serverless_tail after ≡ true

scan_cases :
    (seen : Bool) (c : ℕ) (s : Text)
    → scan_serverless seen (c ∷ s) ≡ true
    → ((seen ≡ true) × (c ≡ b'-') × (match_classes serverless_tail s ≡ true))
      ⊎ (((c == b'.') ≡ false) × (scan_serverless true s ≡ true))
unfolding scan_serverless
scan_cases seen c s h = ground arith

scan_sound : (s : Text) → scan_serverless true s ≡ true → Splits s
unfolding scan_serverless
scan_sound [] h = absurd (ground arith)
scan_sound (c ∷ s) h = elim (scan_cases true c s h) [
  | inl (_, dash, d) ↦ record {
    before = [];
    after = s;
    split = ap (λ b. b ∷ s) dash;
    no_dots = tt;
    digits = d;
  }
  | inr (n, t) ↦
      let r = scan_sound s t in
      record {
        before = c ∷ r.before;
        after = r.after;
        split = ap (◌∷◌ c) r.split;
        no_dots = (n, r.no_dots);
        digits = r.digits;
      }
]

scan_complete :
    (before after : Text)
    → All (λ c. (c == b'.') ≡ false) before
    → match_classes serverless_tail after ≡ true
    → scan_serverless true (before ++ (b'-' ∷ after)) ≡ true
unfolding scan_serverless
scan_complete [] after n d = ground arith
scan_complete (c ∷ before) after n d = ground (arith, scan_complete before after n.1 d)

IsServerless-sound : (s : Text) → is_serverless_domain s ≡ true → IsServerless s
unfolding is_serverless_domain
IsServerless-sound [] h = absurd (ground arith)
IsServerless-sound (c ∷ s) h = elim (scan_cases false c s h) [
  | inl (f, _, _) ↦ absurd (cc f)
  | inr (n, t) ↦
      let r = scan_sound s t in
      record {
        before = c ∷ r.before;
        after = r.after;
        split = ap (◌∷◌ c) r.split;
        nonempty = λ e. cc;
        no_dots = (n, r.no_dots);
        digits = r.digits;
      }
]

serverless_complete :
    (before after : Text)
    → before ≢ []
    → All (λ c. (c == b'.') ≡ false) before
    → match_classes serverless_tail after ≡ true
    → is_serverless_domain (before ++ (b'-' ∷ after)) ≡ true
unfolding is_serverless_domain
serverless_complete [] after e n d = absurd (e refl)
serverless_complete (c ∷ before) after e n d = ground (arith, scan_complete before after n.1 d)

-- A name is taken for a serverless domain exactly when it has that form.
pub is_serverless_domain_iff : (s : Text) → (is_serverless_domain s ≡ true) ↔ IsServerless s
is_serverless_domain_iff s = (
  IsServerless-sound s,
  λ r. rw r.split (serverless_complete r.before r.after r.nonempty r.no_dots r.digits),
)
