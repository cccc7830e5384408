-- ===== src/Jail/Building.antt =====
-- internal/jail/jail.go and mount_linux.go: setting a jail up and taking it down.
use gitlab_pages_mirror.Common.{
  ℕ, ◌+◌, Text, Option, none, some, List, [], ◌∷◌, ◌++◌, ◌==◌, ltb, length, if◌then◌else◌,
}
use gitlab_pages_mirror.Jail.{
  Os, Jail, JailError, FileMode, PathAndMode, invalid_argument, multiple_mounts, cant_mkdir,
  cant_copy, cant_mount, cant_unmount, cant_delete, cant_unshare,
}
use gitlab_pages_mirror.Jail.Effects.{and_then, each}

abbrev pub wrapped : (ℕ → JailError) → Option ℕ → Option JailError
wrapped wrap none = none
wrapped wrap (some e) = some (wrap e)

-- EINVAL says that there is nothing to unmount.
abbrev pub unmount_error : Option ℕ → Option JailError
unmount_error none = none
unmount_error (some e) = if e == invalid_argument then none else some (cant_unmount e)

-- S_IFCHR, a bit above those of the permissions.
abbrev char_device_type : ℕ
char_device_type = 8192

abbrev pub reverse : List PathAndMode → List PathAndMode
reverse [] = []
reverse (d ∷ ds) = reverse ds ++ d ∷ []

module _ (O : Os) where
  open O use {
    State, open_file, mkdir, mknod, create_file, copy_content, remove, remove_all, bind_mount,
    detach, unshare_mounts, make_private,
  }

  -- The system, and the states in which os.Remove or os.RemoveAll was called, the latest first.
  pub record World : Type 0 where
    pub os : State
    pub removals : List State

  -- A call of the system, with the error of the jail for its error number.
  unfoldable pub call :
      (ℕ → JailError) → (State → Option ℕ × State) → World → Option JailError × World
  call wrap f w = (wrapped wrap (f w.os).0, record w { os = (f w.os).1 })

  abbrev pub removing : World → World
  removing w = record w { removals = w.os ∷ w.removals }

  unfoldable pub make_directory : PathAndMode → World → Option JailError × World
  unfolding call
  make_directory d w = call cant_mkdir (mkdir d.path d.mode) w

  -- os.OpenFile and io.Copy.
  unfoldable pub fill_file : Text → Text → FileMode → World → Option JailError × World
  unfolding call
  fill_file dest src perm w =
      and_then (call cant_copy (create_file dest perm) w) (call cant_copy (copy_content dest src))

  unfoldable pub copy_file : Text → Text → FileMode → World → Option JailError × World
  unfolding fill_file
  copy_file dest src perm w =
      and_then (wrapped cant_copy (open_file src w.os), w) (fill_file dest src perm)

  unfoldable pub create_character_device : Text → PathAndMode → World → Option JailError × World
  unfolding call
  create_character_device dest src w =
      call cant_copy (mknod dest (src.mode.perm + char_device_type) src.rdev) w

  unfoldable pub handle_file : Text × PathAndMode → World → Option JailError × World
  unfolding copy_file create_character_device
  handle_file (dest, src) w =
      if src.mode.is_char_device
      then create_character_device dest src w
      else copy_file dest src.path src.mode w

  -- Unshare: a mount namespace of its own, and no propagation of its mounts.
  unfoldable pub unshare : World → Option JailError × World
  unfolding call
  unshare w = and_then (call cant_unshare unshare_mounts w) (call cant_unshare make_private)

  unfoldable pub mount_one : Text × Text → World → Option JailError × World
  unfolding call
  mount_one (dest, src) w = call cant_mount (bind_mount src dest) w

  unfoldable pub mount : Jail → World → Option JailError × World
  unfolding mount_one
  mount j w = each mount_one j.bind_mounts w

  unfoldable pub unmount_one : Text × Text → World → Option JailError × World
  unmount_one (dest, src) w =
      (unmount_error (detach dest w.os).0, record w { os = (detach dest w.os).1 })

  unfoldable pub unmount : Jail → World → Option JailError × World
  unfolding unmount_one
  unmount j w = each unmount_one j.bind_mounts w

  unfoldable pub remove_path : Text → World → Option JailError × World
  unfolding call
  remove_path path w = call cant_delete (remove path) (removing w)

  abbrev pub remove_files : Jail → World → Option JailError × World
  remove_files j = each (λ f. remove_path f.0) j.files

  abbrev pub remove_directories : Jail → World → Option JailError × World
  remove_directories j = each (λ d. remove_path d.path) (reverse j.directories)

  -- removeAll
  unfoldable pub remove_jail : Jail → World → Option JailError × World
  unfolding remove_path call
  remove_jail j w =
      if j.delete_root
      then call cant_delete (remove_all j.root) (removing w)
      else and_then (remove_files j w) (remove_directories j)

  -- The end of a step of Build: removeAll after an error, whose own error is dropped.
  abbrev pub or_remove : Jail → Option JailError × World → Option JailError × World
  or_remove j (none, w) = (none, w)
  or_remove j (some e, w) = (some e, (remove_jail j w).1)

  abbrev pub make_directories : Jail → World → Option JailError × World
  make_directories j = each make_directory j.directories

  abbrev pub handle_files : Jail → World → Option JailError × World
  handle_files j = each handle_file j.files

  unfoldable pub build_parts : Jail → World → Option JailError × World
  unfolding handle_file mount make_directory
  build_parts j w = and_then (and_then (make_directories j w) (handle_files j)) (mount j)

  unfoldable pub build : Jail → World → Option JailError × World
  unfolding build_parts remove_jail
  build j w =
      if ltb 1 (length j.bind_mounts)
      then (some multiple_mounts, w)
      else or_remove j (build_parts j w)

  unfoldable pub dispose : Jail → World → Option JailError × World
  unfolding unmount remove_jail
  dispose j w = and_then (unmount j w) (remove_jail j)
