-- ===== src/Redirects/Tests.antt =====
-- Sample rules against the source of internal/redirects, and the theorems at them.
use gitlab_pages_mirror.Common.{
  Text, codes, true, false, ◌≡◌, refl, Option, none, some, List, [], ◌∷◌, ok, err,
}
use gitlab_pages_mirror.Vfs.{VfsError, Root}
use gitlab_pages_mirror.Redirects.Rules.{
  Url, Rule, Redirects, rewrite, status_text, has_placeholder,
}
use gitlab_pages_mirror.Redirects.Safety.{IsOutcome, rewrite-IsOutcome}

-- A stand-in for url.Parse that takes every text for a path.
abbrev path_url : Text → Option Url
path_url p = some (record { scheme = []; host = []; path = p; query = [] })

abbrev plain : Rule
plain = record {
  from = codes "/old";
  to = codes "/new/";
  params = none;
  status = 301;
  force = false;
}

abbrev splat : Rule
splat = record plain { to = codes "/new/*" }

abbrev forced : Rule
forced = record plain { force = true }

abbrev sample : Redirects
sample = record { rules = splat ∷ forced ∷ plain ∷ []; error = none }

abbrev url : Url
url = record { scheme = []; host = codes "a.io"; path = codes "/old"; query = [] }

rewrite-sample :
    rewrite path_url sample url
    ≡ (some (record { scheme = []; host = []; path = codes "/new/"; query = [] }), 301, none)
unfolding rewrite
rewrite-sample = refl

status_sample :
    status_text path_url sample
    ≡ codes
        "3 rules\nrule 1: error: splats are not supported\nrule 2: error: force! not supported\nrule 3: valid"
unfolding status_text
status_sample = refl

placeholders :
    (has_placeholder (codes "/a/:id") ≡ true)
    × (has_placeholder (codes "/a/:1") ≡ false)
    × (has_placeholder (codes "/a:b") ≡ false)
unfolding has_placeholder
placeholders = (refl, refl, refl)

abbrev file_root : Root
file_root = record {
  lstat = λ _. ok (record { size = 65536; is_dir = false; is_regular = true; mod_time = 0 });
  open_file = λ _. ok (codes "/old /new/ 301");
  readlink = λ _. err VfsError.not_exist;
}

abbrev sample_parser : Text → Option (List Rule)
sample_parser _ = some (plain ∷ [])

rewrite-IsOutcome_example : IsOutcome path_url (rewrite path_url sample url)
rewrite-IsOutcome_example = rewrite-IsOutcome path_url sample url
