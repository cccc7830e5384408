-- ===== src/Artifact/Paths.antt =====
-- internal/artifact/artifact.go: the regular expression pathExtractor,
-- (?i)\A/-/(.*)/-/jobs/(\d+)/artifacts(/[^?]*)\z, and the trimming of slashes.
use gitlab_pages_mirror.Common.{
  ℕ, Text, codes, Bool, not, ◌&&◌, Option, none, some, [], ◌∷◌, leb, ◌==◌, to_lower_byte, contains,
  if◌then◌else◌, ◌≡◌, refl,
}

-- strings.TrimLeft for one byte
unfoldable pub trim_left_byte : ℕ → Text → Text
trim_left_byte b [] = []
trim_left_byte b (c ∷ s) = let rest = trim_left_byte b s in if c == b then rest else c ∷ s

-- strings.TrimRight for one byte
unfoldable pub trim_right_byte : ℕ → Text → Text
trim_right_byte b [] = []
trim_right_byte b (c ∷ s) = elim (trim_right_byte b s) [
  | [] ↦ if c == b then [] else c ∷ []
  | d ∷ t ↦ c ∷ d ∷ t
]

-- The text behind a lower-case literal, in any case. The letter s also stands for a long s, whose
-- bytes are 197 and 191.
unfoldable pub fold_prefix : Text → Text → Option Text
unfolding to_lower_byte
fold_prefix [] s = some s
fold_prefix (p ∷ ps) [] = none
fold_prefix (p ∷ ps) (c ∷ []) =
    let rest = fold_prefix ps [] in if to_lower_byte c == p then rest else none
fold_prefix (p ∷ ps) (c ∷ d ∷ s) =
    let rest = fold_prefix ps (d ∷ s) in
    let behind = fold_prefix ps s in
    if to_lower_byte c == p
    then rest
    else if (p == b's') && ((c == 197) && (d == 191))
    then behind
    else none

abbrev is_digit : ℕ → Bool
is_digit c = leb b'0' c && leb c b'9'

unfoldable pub span_digits : Text → Text × Text
span_digits [] = ([], [])
span_digits (c ∷ s) =
    let (digits, rest) = span_digits s in if is_digit c then (c ∷ digits, rest) else ([], c ∷ s)

-- (/[^?]*)\z
abbrev file_part : Text → Text → Option (Text × Text)
file_part job [] = none
file_part job (c ∷ s) =
    if (c == b'/') && not (contains s (b'?' ∷ [])) then some (job, c ∷ s) else none

abbrev behind_job : Text × Text → Option (Text × Text)
unfolding fold_prefix contains
behind_job ([], rest) = none
behind_job (c ∷ job, rest) = elim (fold_prefix (codes "/artifacts") rest) [
  | none ↦ none
  | some s ↦ file_part (c ∷ job) s
]

-- What stands behind the first group, if it matches: the job and the file.
unfoldable pub match_tail : Text → Option (Text × Text)
unfolding fold_prefix span_digits behind_job
match_tail s = elim (fold_prefix (codes "/-/jobs/") s) [
  | none ↦ none
  | some rest ↦ behind_job (span_digits rest)
]

abbrev grown :
    ℕ
    → Option (Text × (Text × Text))
    → Option (Text × (Text × Text))
    → Option (Text × (Text × Text))
grown c (some (group, job)) here = some (c ∷ group, job)
grown c none here = here

abbrev without_group : Option (Text × Text) → Option (Text × (Text × Text))
without_group none = none
without_group (some job) = some ([], job)

-- The first group, which is as long as possible and has no line break, with the job and the file.
unfoldable pub extract_group : Text → Option (Text × (Text × Text))
unfolding match_tail
extract_group [] = without_group (match_tail [])
extract_group (c ∷ s) =
    let longer = extract_group s in
    grown c (if c == 10 then none else longer) (without_group (match_tail (c ∷ s)))

unfoldable pub extract : Text → Option (Text × (Text × Text))
unfolding extract_group
extract path = elim (fold_prefix (codes "/-/") path) [
  | none ↦ none
  | some rest ↦ extract_group rest
]

extract_examples :
    (extract (codes "/-/sub/proj/-/Jobs/12/artifacts/a/b.html")
      ≡ some (codes "sub/proj", (codes "12", codes "/a/b.html")))
    × (extract (codes "/-/p/-/jobs/1/artifacts/x/-/jobs/2/artifacts/y")
        ≡ some (codes "p/-/jobs/1/artifacts/x", (codes "2", codes "/y")))
    × (extract (codes "/-/p/-/jobs/x/artifacts/y") ≡ none)
    × (extract (codes "/-/p/-/jobs/1/artifacts") ≡ none)
unfolding extract
extract_examples = (refl, refl, refl, refl)
