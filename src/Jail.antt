-- ===== src/Jail.antt =====
-- internal/jail/jail.go and mount_linux.go: a directory that is set up for a process that runs
-- inside it. The operating system is a parameter: each call takes its state and gives an error
-- number or none, with the state after it.
use gitlab_pages_mirror.Common.{
  ℕ, ◌<◌, Text, codes, Bool, true, false, ◌||◌, ◌≡◌, Option, none, some, List, [], ◌∷◌, ◌++◌, ◌==◌,
  ltb, length, drop, if◌then◌else◌, text_eq, split, path_join, Dict, dict_empty, dict_put, Result,
  ok, err,
}
pub mod Effects
pub mod Building
pub mod Unmounted
pub mod Mounts
pub mod Sweeps
pub mod Outcomes
pub mod Daemon
pub mod Shapes
pub mod Wired
pub mod Available
pub mod Tests

-- os.FileMode, as far as the jail reads it.
pub record FileMode : Type 0 where
  pub is_dir : Bool
  pub is_regular : Bool
  pub is_symlink : Bool
  pub is_char_device : Bool
  pub perm : ℕ

-- os.FileInfo; the device number is missing where Sys() is of another type.
pub record FileInfo : Type 0 where
  pub name : Text
  pub mode : FileMode
  pub rdev : Option ℕ

abbrev pub directory_mode : ℕ → FileMode
directory_mode perm = record {
  is_dir = false;
  is_regular = true;
  is_symlink = false;
  is_char_device = false;
  perm = perm;
}

-- EINVAL
abbrev pub invalid_argument : ℕ
invalid_argument = 22

-- The calls of the operating system, with what their documentation says of the paths that exist and
-- of those that are mount points.
pub record Os : Type 1 where
  pub State : Type 0
  pub stat : Text → State → Result ℕ FileInfo
  pub read_dir : Text → State → Result ℕ (List FileInfo)
  pub open_file : Text → State → Option ℕ
  pub mkdir : Text → FileMode → State → Option ℕ × State
  pub mknod : Text → ℕ → ℕ → State → Option ℕ × State
  pub create_file : Text → FileMode → State → Option ℕ × State
  pub copy_content : Text → Text → State → Option ℕ × State
  pub remove : Text → State → Option ℕ × State
  pub remove_all : Text → State → Option ℕ × State
  pub bind_mount : Text → Text → State → Option ℕ × State
  pub detach : Text → State → Option ℕ × State
  pub unshare_mounts : State → Option ℕ × State
  pub make_private : State → Option ℕ × State
  pub exists : State → Text → Bool
  pub mounted : State → Text → Bool
  pub mkdir_makes :
      (p : Text) (m : FileMode) (s : State)
      → (mkdir p m s).0 ≡ none
      → exists (mkdir p m s).1 p ≡ true
  pub mknod_makes :
      (p : Text) (m d : ℕ) (s : State)
      → (mknod p m d s).0 ≡ none
      → exists (mknod p m d s).1 p ≡ true
  pub create_makes :
      (p : Text) (m : FileMode) (s : State)
      → (create_file p m s).0 ≡ none
      → exists (create_file p m s).1 p ≡ true
  pub mkdir_keeps :
      (p q : Text) (m : FileMode) (s : State) → exists s q ≡ true → exists (mkdir p m s).1 q ≡ true
  pub mknod_keeps :
      (p q : Text) (m d : ℕ) (s : State) → exists s q ≡ true → exists (mknod p m d s).1 q ≡ true
  pub create_keeps :
      (p q : Text) (m : FileMode) (s : State)
      → exists s q ≡ true
      → exists (create_file p m s).1 q ≡ true
  pub copy_keeps :
      (p q t : Text) (s : State) → exists s t ≡ true → exists (copy_content p q s).1 t ≡ true
  pub remove_removes :
      (p : Text) (s : State) → (remove p s).0 ≡ none → exists (remove p s).1 p ≡ false
  pub remove_adds_none :
      (p q : Text) (s : State) → exists s q ≡ false → exists (remove p s).1 q ≡ false
  pub remove_all_removes :
      (p : Text) (s : State) → (remove_all p s).0 ≡ none → exists (remove_all p s).1 p ≡ false
  pub mkdir-mounted :
      (p q : Text) (m : FileMode) (s : State) → mounted (mkdir p m s).1 q ≡ mounted s q
  pub mknod-mounted : (p q : Text) (m d : ℕ) (s : State) → mounted (mknod p m d s).1 q ≡ mounted s q
  pub create-mounted :
      (p q : Text) (m : FileMode) (s : State) → mounted (create_file p m s).1 q ≡ mounted s q
  pub copy-mounted : (p q t : Text) (s : State) → mounted (copy_content p q s).1 t ≡ mounted s t
  pub remove-mounted : (p q : Text) (s : State) → mounted (remove p s).1 q ≡ mounted s q
  pub remove_all-mounted : (p q : Text) (s : State) → mounted (remove_all p s).1 q ≡ mounted s q
  pub bind_mounts :
      (src p : Text) (s : State)
      → (bind_mount src p s).0 ≡ none
      → mounted (bind_mount src p s).1 p ≡ true
  pub bind_mount_fails :
      (src p q : Text) (e : ℕ) (s : State)
      → (bind_mount src p s).0 ≡ some e
      → mounted (bind_mount src p s).1 q ≡ mounted s q
  pub detach_ok : (p : Text) (s : State) → (detach p s).0 ≡ none → mounted (detach p s).1 p ≡ false
  pub detach_invalid :
      (p : Text) (s : State)
      → (detach p s).0 ≡ some invalid_argument
      → mounted (detach p s).1 p ≡ false
  pub detach_mounts_none :
      (p q : Text) (s : State) → mounted s q ≡ false → mounted (detach p s).1 q ≡ false

pub data JailError : Type 0 where
  multiple_mounts : JailError
  cant_stat cant_mkdir cant_copy cant_mount cant_unmount cant_delete cant_unshare : ℕ → JailError
  not_char_device no_device_number is_directory : JailError

pub record PathAndMode : Type 0 where
  pub path : Text
  pub mode : FileMode
  pub rdev : ℕ

-- The maps are read in the order of the list: any order is that of some list.
pub record Jail : Type 0 where
  pub root : Text
  pub delete_root : Bool
  pub directories : List PathAndMode
  pub files : Dict PathAndMode
  pub bind_mounts : Dict Text

abbrev pub directory : Text → ℕ → PathAndMode
directory path perm = record { path = path; mode = directory_mode perm; rdev = 0 }

unfoldable pub into : Text → Jail
unfolding dict_empty
into path = record {
  root = path;
  delete_root = false;
  directories = [];
  files = dict_empty;
  bind_mounts = dict_empty;
}

unfoldable pub create : Text → ℕ → Jail
unfolding into
create path perm = record (into path) { delete_root = true; directories = directory path perm ∷ [] }

-- ExternalPath
unfoldable pub external_path : Text → Jail → Text
unfolding path_join
external_path internal j = path_join (j.root ∷ internal ∷ [])

unfoldable pub mk_dir : Text → ℕ → Jail → Jail
unfolding external_path
mk_dir path perm j = record j {
  directories = j.directories ++ directory (external_path path j) perm ∷ [];
}

-- The loop of MkDirAll, below `current_parent`.
unfoldable pub mk_dirs : Text → List Text → ℕ → Jail → Jail
unfolding mk_dir path_join
mk_dirs current_parent [] perm j = j
mk_dirs current_parent (sub_path ∷ sub_paths) perm j =
    let current_path = path_join (current_parent ∷ sub_path ∷ []) in
    mk_dirs current_path sub_paths perm (mk_dir current_path perm j)

unfoldable pub mk_dir_all : Text → ℕ → Jail → Jail
unfolding mk_dirs split
mk_dir_all dir perm j = mk_dirs [] (drop 1 (split b'/' dir)) perm j

unfoldable pub put_file : Text → PathAndMode → Jail → Jail
unfolding external_path dict_put
put_file dest p j = record j { files = dict_put j.files (external_path dest j) p }

unfoldable pub char_dev_with : Text → FileMode → Option ℕ → Jail → Result JailError Jail
unfolding put_file
char_dev_with path mode none j = err no_device_number
char_dev_with path mode (some rdev) j =
    ok (put_file path (record { path = path; mode = mode; rdev = rdev }) j)

-- CharDev, on what Stat gives.
unfoldable pub char_dev_of : Text → Result ℕ FileInfo → Jail → Result JailError Jail
unfolding char_dev_with
char_dev_of path (err e) j = err (cant_stat e)
char_dev_of path (ok fi) j =
    if fi.mode.is_char_device then char_dev_with path fi.mode fi.rdev j else err not_char_device

-- CopyTo, on what Stat gives.
unfoldable pub copy_of : Text → Text → Result ℕ FileInfo → Jail → Result JailError Jail
unfolding put_file
copy_of dest src (err e) j = err (cant_stat e)
copy_of dest src (ok fi) j =
    if fi.mode.is_dir
    then err is_directory
    else ok (put_file dest (record { path = src; mode = fi.mode; rdev = 0 }) j)

unfoldable pub bind : Text → Text → Jail → Jail
unfolding external_path dict_put
bind dest src j = record j { bind_mounts = dict_put j.bind_mounts (external_path dest j) src }

module _ (O : Os) where
  open O use {State, stat}

  unfoldable pub char_dev : Text → State → Jail → Result JailError Jail
  unfolding char_dev_of
  char_dev path s j = char_dev_of path (stat path s) j

  unfoldable pub copy_to : Text → Text → State → Jail → Result JailError Jail
  unfolding copy_of
  copy_to dest src s j = copy_of dest src (stat src s) j

  unfoldable pub copy : Text → State → Jail → Result JailError Jail
  unfolding copy_to
  copy path s j = copy_to path path s j
