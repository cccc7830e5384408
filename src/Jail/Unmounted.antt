-- ===== src/Jail/Unmounted.antt =====
-- internal/jail: the steps of a jail but for the mount itself, on a system where no bind mount of
-- the jail stands.
use gitlab_pages_mirror.Common.{ℕ, Text, false, ◌≡◌, ◌∙◌, Option, ◌+◌, if-cases, All, All-map}
use gitlab_pages_mirror.Jail.{
  Os, Jail, JailError, PathAndMode, FileMode, cant_copy, cant_delete, cant_mkdir,
}
use gitlab_pages_mirror.Jail.Effects.{Leaves, and_then-Leaves, each-Leaves}
use gitlab_pages_mirror.Jail.Building.{
  World, call, removing, make_directory, fill_file, copy_file, reverse, create_character_device,
  handle_file, remove_path, remove_jail,
}

module _ (O : Os) where
  open O use {
    State, mounted, mkdir, mknod, create_file, copy_content, remove, remove_all, bind_mount, detach,
  }

  -- No bind mount of the jail stands.
  abbrev pub IsUnmounted : Jail → State → Type 0
  IsUnmounted j s = All (λ m. mounted s m.0 ≡ false) j.bind_mounts

  -- Nothing stands now, and nothing stood when something was removed.
  pub record IsSafe (j : Jail) (w : World O) : Type 0 where
    pub now : IsUnmounted j w.os
    pub before : All (IsUnmounted j) w.removals

  -- A call that mounts nothing.
  IsTame : (State → Option ℕ × State) → Type 0
  IsTame f = (s : State) (q : Text) → mounted s q ≡ false → mounted (f s).1 q ≡ false

  call-IsSafe :
      (j : Jail) (wrap : ℕ → JailError) (f : State → Option ℕ × State) (w : World O)
      → IsTame f
      → IsSafe j w
      → Leaves (IsSafe j) (call O wrap f w)
  unfolding IsTame call
  call-IsSafe j wrap f w t i = record {
    state = record { now = All-map j.bind_mounts (λ m h. t w.os m.0 h) i.now; before = i.before };
  }

  removing-IsSafe : (j : Jail) (w : World O) → IsSafe j w → IsSafe j (removing O w)
  removing-IsSafe j w i = record { now = i.now; before = (i.now, i.before) }

  pub make_directory-IsSafe :
      (j : Jail) (d : PathAndMode) (w : World O)
      → IsSafe j w
      → Leaves (IsSafe j) (make_directory O d w)
  unfolding IsTame make_directory
  make_directory-IsSafe j d w =
      call-IsSafe j cant_mkdir (mkdir d.path d.mode) w
        λ s q h. O.mkdir-mounted d.path q d.mode s ∙ h

  fill_file-IsSafe :
      (j : Jail) (dest src : Text) (m : FileMode) (w : World O)
      → IsSafe j w
      → Leaves (IsSafe j) (fill_file O dest src m w)
  unfolding fill_file IsTame
  fill_file-IsSafe j dest src m w i =
      and_then-Leaves (call O cant_copy (create_file dest m) w)
        (call O cant_copy (copy_content dest src))
        (call-IsSafe j cant_copy (create_file dest m) w (λ s q h. O.create-mounted dest q m s ∙ h)
          i)
        λ v k.
          call-IsSafe j cant_copy (copy_content dest src) v
            (λ s q h. O.copy-mounted dest src q s ∙ h) k

  pub handle_file-IsSafe :
      (j : Jail) (f : Text × PathAndMode) (w : World O)
      → IsSafe j w
      → Leaves (IsSafe j) (handle_file O f w)
  unfolding handle_file copy_file create_character_device IsTame
  handle_file-IsSafe j (dest, src) w i =
      if-cases (λ (x : Option JailError × World O). Leaves (IsSafe j) x) src.mode.is_char_device _ _
        (λ h.
          call-IsSafe j cant_copy (mknod dest (src.mode.perm + 8192) src.rdev) w
            (λ s q h. O.mknod-mounted dest q (src.mode.perm + 8192) src.rdev s ∙ h) i)
        λ h.
          and_then-Leaves _ (fill_file O dest src.path src.mode) (record { state = i })
            (λ v k. fill_file-IsSafe j dest src.path src.mode v k)

  remove_path-IsSafe :
      (j : Jail) (path : Text) (w : World O) → IsSafe j w → Leaves (IsSafe j) (remove_path O path w)
  unfolding remove_path IsTame
  remove_path-IsSafe j path w i =
      call-IsSafe j cant_delete (remove path) (removing O w)
        (λ s q h. O.remove-mounted path q s ∙ h) (removing-IsSafe j w i)

  pub remove_jail-IsSafe :
      (j : Jail) (w : World O) → IsSafe j w → Leaves (IsSafe j) (remove_jail O j w)
  unfolding remove_jail IsTame
  remove_jail-IsSafe j w i =
      if-cases (λ (x : Option JailError × World O). Leaves (IsSafe j) x) j.delete_root _ _
        (λ h.
          call-IsSafe j cant_delete (remove_all j.root) (removing O w)
            (λ s q h. O.remove_all-mounted j.root q s ∙ h) (removing-IsSafe j w i))
        λ h.
          and_then-Leaves _ _
            (each-Leaves (λ f. remove_path O f.0) j.files w i
              (λ f v k. remove_path-IsSafe j f.0 v k))
            λ v k.
              each-Leaves (λ d. remove_path O d.path) (reverse j.directories) v k
                (λ d u l. remove_path-IsSafe j d.path u l)
