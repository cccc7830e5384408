-- ===== src/Local/Lookups.antt =====
-- internal/vfs/local/vfs.go: the root for the path of a project. The absolute path and
-- filepath.EvalSymlinks are parameters.
use gitlab_pages_mirror.Common.{Text, Option, none, some, Result, ok, err, ◌>>=◌, if◌then◌else◌}
use gitlab_pages_mirror.Vfs.{VfsError, failed, Root}
use gitlab_pages_mirror.Local.Roots.{Os, local_root}

-- The error of filepath.Abs, and errNotDirectory.
abbrev no_absolute_path : VfsError
no_absolute_path = failed 3

abbrev not_directory : VfsError
not_directory = failed 4

unfoldable pub find_root :
    (Text → Option Text) → (Text → Result VfsError Text) → Os → Text → Result VfsError Root
unfolding local_root
find_root abs_path eval_symlinks os path = elim (abs_path path) [
  | none ↦ err no_absolute_path
  | some root_path ↦ eval_symlinks root_path >>= λ resolved. os.lstat resolved >>= λ fi.
      if fi.is_dir then ok (local_root os resolved) else err not_directory
]
