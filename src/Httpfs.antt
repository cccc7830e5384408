-- ===== src/Httpfs.antt =====
-- internal/httpfs/http_fs.go: the files that the transport for file:// addresses may open. On Unix,
-- where the separator of file paths is a slash. The working directory and os.Open are parameters.
pub mod Inside
mod Tests
use gitlab_pages_mirror.Common.{
  ℕ, Text, codes, Bool, true, false, Option, none, some, List, [], ◌∷◌, ◌++◌, map, Result, ok, err,
  clean, is_rooted, path_join, has_prefix, if◌then◌else◌,
}

pub data OpenError : Type 0 where
  permission : OpenError
  failed : ℕ → OpenError

-- filepath.Abs, in the working directory.
unfoldable pub abs : Text → Text → Text
unfolding is_rooted clean path_join
abs work path = if is_rooted path then clean path else path_join (work ∷ path ∷ [])

-- NewFileSystemPath
unfoldable pub new_file_system_path : Text → List Text → List Text
unfolding abs
new_file_system_path work allowed_paths = map (abs work) allowed_paths

unfoldable pub is_allowed : Text → List Text → Bool
unfolding has_prefix
is_allowed path [] = false
is_allowed path (allowed ∷ rest) =
    let later = is_allowed path rest in
    if has_prefix path (allowed ++ codes "/") then true else later

-- fileSystemPaths.Open
unfoldable pub open_path :
    Text → (Text → Result OpenError Text) → List Text → Text → Result OpenError Text
unfolding clean abs is_allowed
open_path work os_open allowed_paths name =
    let abs_path = abs work (clean (codes "/" ++ name)) in
    if is_allowed abs_path allowed_paths then os_open abs_path else err permission
