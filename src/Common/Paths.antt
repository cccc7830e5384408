-- ===== src/Common/Paths.antt =====
-- The lexical path functions of Go's packages path and path/filepath (on Unix they agree).
use mathlib.Core.Path.{◌≡◌, refl}
use mathlib.Core.Bool.{Bool, ◌&&◌, ◌||◌, not}
use mathlib.Core.List.{List, [], ◌∷◌, ◌++◌, reverse}
use gitlab_pages_mirror.Common.Tests.{◌==◌, if◌then◌else◌}
use gitlab_pages_mirror.Common.Texts.{Text, codes, text_eq, has_prefix, split, join}

abbrev slash : Text
slash = b'/' ∷ []

abbrev dot_dot : Text
dot_dot = b'.' ∷ b'.' ∷ []

unfoldable pub is_rooted : Text → Bool
unfolding has_prefix
is_rooted p = has_prefix p slash

-- Steps back from the top of the stack; a path that is not rooted keeps what it cannot resolve.
step_back : Bool → List Text → List Text
step_back rooted [] = if rooted then [] else dot_dot ∷ []
step_back rooted (top ∷ below) =
    if not rooted && text_eq top dot_dot then dot_dot ∷ top ∷ below else below

-- One element of a path against the stack of the elements kept so far, the last on top.
unfoldable pub clean_step : Bool → Text → List Text → List Text
unfolding step_back text_eq
clean_step rooted part kept =
    if text_eq part [] || text_eq part (b'.' ∷ [])
    then kept
    else if text_eq part dot_dot
    then step_back rooted kept
    else part ∷ kept

unfoldable pub clean_parts : Bool → List Text → List Text → List Text
unfolding clean_step
clean_parts rooted [] kept = kept
clean_parts rooted (part ∷ rest) kept = clean_parts rooted rest (clean_step rooted part kept)

-- path.Clean, filepath.Clean
unfoldable pub clean : Text → Text
unfolding is_rooted clean_parts split join text_eq
clean p =
    let rooted = is_rooted p in
    let parts = reverse (clean_parts rooted (split b'/' p) []) in
    let body = join slash parts in
    if rooted then slash ++ body else if text_eq body [] then b'.' ∷ [] else body

-- path.Join, filepath.Join: leading empty elements are dropped, and the rest is cleaned.
unfoldable pub path_join : List Text → Text
unfolding clean
path_join [] = []
path_join ([] ∷ rest) = path_join rest
path_join ((c ∷ s) ∷ rest) = clean (join slash ((c ∷ s) ∷ rest))

-- The directory that path.Split returns: all up to the last slash, the slash included.
unfoldable pub path_split_dir : Text → Text
path_split_dir [] = []
path_split_dir (c ∷ s) =
    let dir = path_split_dir s in
    elim dir [ [] ↦ if c == b'/' then slash else [] | d ∷ ds ↦ c ∷ d ∷ ds ]

clean_examples :
    (clean (codes "/a/./b//../c/") ≡ codes "/a/c")
    × (clean (codes "../a/../..") ≡ codes "../..")
    × (clean (codes "") ≡ codes ".")
    × (clean (codes "/../x") ≡ codes "/x")
    × (path_join (codes "" ∷ codes "a" ∷ codes "" ∷ codes "b" ∷ []) ≡ codes "a/b")
    × (path_split_dir (codes "public/a/b.html") ≡ codes "public/a/")
    × (path_split_dir (codes "x") ≡ codes "")
unfolding clean path_join path_split_dir
clean_examples = (refl, refl, refl, refl, refl, refl, refl)
