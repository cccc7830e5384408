-- ===== src/Vfs.antt =====
-- internal/vfs: the interface through which files are read, whatever stores them.
use gitlab_pages_mirror.Common.{Text, ℕ, Bool, Result}

-- vfs.ErrNotExist against any other error, which carries a code.
pub data VfsError : Type 0 where
  not_exist : VfsError
  failed : ℕ → VfsError

-- os.FileInfo, as far as the program reads it.
pub record FileInfo : Type 0 where
  pub size : ℕ
  pub is_dir : Bool
  pub is_regular : Bool
  pub mod_time : ℕ

-- vfs.Root during one request: what each call answers at a path.
pub record Root : Type 0 where
  pub lstat : Text → Result VfsError FileInfo
  pub open_file : Text → Result VfsError Text
  pub readlink : Text → Result VfsError Text

-- vfs.VFS: the root for a lookup path.
pub record Vfs : Type 0 where
  pub root_at : Text → Result VfsError Root
