-- ===== src/Jail/Outcomes.antt =====
-- internal/jail/jail.go: what Build leaves behind.
use gitlab_pages_mirror.Common.{
  ℕ, ◌+◌, ◌<◌, ◌≤◌, Text, true, false, ◌≡◌, refl, sym, ap, ◌∙◌, subst, Option, none, some, List,
  ◌∷◌, ltb, ltb→lt, length, if-cases, arith, All, All-map,
}
use gitlab_pages_mirror.Jail.{
  Os, Jail, JailError, PathAndMode, FileMode, multiple_mounts, cant_copy, cant_mkdir,
}
use gitlab_pages_mirror.Jail.Effects.{
  Leaves, and_then, and_then_done, and_then-Leaves, each-Leaves, each-All, and_then-none,
}
use gitlab_pages_mirror.Jail.Building.{
  World, call, wrapped, make_directory, fill_file, copy_file, create_character_device, handle_file,
  mount, remove_jail, or_remove, make_directories, handle_files, build_parts, build,
}
use gitlab_pages_mirror.Jail.Sweeps.{unwrapped, Swept, remove_jail-Swept}

module _ (O : Os) where
  open O use {
    State, exists, mounted, mkdir, mknod, create_file, copy_content, open_file, remove, remove_all,
    bind_mount,
  }

  abbrev Here : Text → World O → Type 0
  Here p w = exists w.os p ≡ true

  -- How Build can end that starts in the state `u`.
  pub data Outcome (j : Jail) (u : World O) : Option JailError × World O → Type 0 where
    refused : 1 < length j.bind_mounts → Outcome j u (some multiple_mounts, u)
    cleaned :
        (e : JailError) (v : World O)
        → length j.bind_mounts ≤ 1
        → build_parts O j u ≡ (some e, v)
        → Swept O j (remove_jail O j v)
        → Outcome j u (some e, (remove_jail O j v).1)
    built :
        (v : World O) {w : World O}
        → length j.bind_mounts ≤ 1
        → All (λ d. Here d.path v) j.directories
        → All (λ f. Here f.0 v) j.files
        → mount O j v ≡ (none, w)
        → Outcome j u (none, w)

  make_directory-Here :
      (d : PathAndMode) (w : World O)
      → (make_directory O d w).0 ≡ none
      → Here d.path (make_directory O d w).1
  unfolding make_directory call
  make_directory-Here d w h =
      O.mkdir_makes d.path d.mode w.os (unwrapped cant_mkdir (mkdir d.path d.mode w.os).0 h)

  make_directory_keeps :
      (d : PathAndMode) (q : Text) (w : World O) → Here q w → Here q (make_directory O d w).1
  unfolding make_directory call
  make_directory_keeps d q w h = O.mkdir_keeps d.path q d.mode w.os h

  -- The two parts of copying a file, on the state after the first.
  copied-Here :
      (dest src : Text) (m : FileMode) (w : World O)
      → (fill_file O dest src m w).0 ≡ none
      → Here dest (fill_file O dest src m w).1
  unfolding fill_file call
  copied-Here dest src m w h =
      let (a, b, e) =
        and_then_done (call O cant_copy (create_file dest m) w)
          (call O cant_copy (copy_content dest src)) h in
      subst (Here dest) (sym e) (
        O.copy_keeps dest src dest (create_file dest m w.os).1
          (O.create_makes dest m w.os (unwrapped cant_copy (create_file dest m w.os).0 a)))

  fill_file_keeps :
      (dest src : Text) (m : FileMode) (q : Text) (w : World O)
      → Here q w
      → Leaves (Here q) (fill_file O dest src m w)
  unfolding fill_file call
  fill_file_keeps dest src m q w h =
      and_then-Leaves (call O cant_copy (create_file dest m) w)
        (call O cant_copy (copy_content dest src))
        (record { state = O.create_keeps dest q m w.os h })
        λ v k. record { state = O.copy_keeps dest src q v.os k }

  copy_file-Here :
      (dest src : Text) (m : FileMode) (w : World O)
      → (copy_file O dest src m w).0 ≡ none
      → Here dest (copy_file O dest src m w).1
  unfolding copy_file
  copy_file-Here dest src m w h =
      let (a, b, e) =
        and_then_done (wrapped cant_copy (open_file src w.os), w) (fill_file O dest src m) h in
      subst (Here dest) (sym e) (copied-Here dest src m w b)

  -- What a file's step comes to when it has no error.
  Puts : Text → Option JailError × World O → Type 0
  Puts p x = x.0 ≡ none → Here p x.1

  handle_file-Here :
      (f : Text × PathAndMode) (w : World O)
      → (handle_file O f w).0 ≡ none
      → Here f.0 (handle_file O f w).1
  unfolding handle_file create_character_device call Puts
  handle_file-Here (dest, src) w =
      if-cases (Puts dest) src.mode.is_char_device _ _
        (λ d h.
          O.mknod_makes dest (src.mode.perm + 8192) src.rdev w.os
            (unwrapped cant_copy (mknod dest (src.mode.perm + 8192) src.rdev w.os).0 h))
        λ d h. copy_file-Here dest src.path src.mode w h

  handle_file_keeps :
      (f : Text × PathAndMode) (q : Text) (w : World O)
      → Here q w
      → Leaves (Here q) (handle_file O f w)
  unfolding handle_file create_character_device copy_file call
  handle_file_keeps (dest, src) q w h =
      if-cases (λ (x : Option JailError × World O). Leaves (Here q) x) src.mode.is_char_device _ _
        (λ d. record { state = O.mknod_keeps dest q (src.mode.perm + 8192) src.rdev w.os h })
        λ d.
          and_then-Leaves _ (fill_file O dest src.path src.mode) (record { state = h })
            (λ v k. fill_file_keeps dest src.path src.mode q v k)

  handle_files_keep : (j : Jail) (q : Text) (w : World O) → Here q w → Here q (handle_files O j w).1
  handle_files_keep j q w h =
      (each-Leaves {P = Here q} (handle_file O) j.files w h
        (λ f v k. handle_file_keeps f q v k)).state

  parts-Here :
      (j : Jail) (w v : World O)
      → (make_directories O j w).0 ≡ none
      → (make_directories O j w).1 ≡ v
      → (handle_files O j v).0 ≡ none
      → All (λ d. Here d.path (handle_files O j v).1) j.directories
        × All (λ f. Here f.0 (handle_files O j v).1) j.files
  parts-Here j w v h e k = (
    All-map j.directories (λ d g. handle_files_keep j d.path v g)
        (subst (λ u. All (λ d. Here d.path u) j.directories) e
          (each-All (λ d. Here d.path) (make_directory O) j.directories w make_directory-Here
            (λ d g u. make_directory_keeps g d.path u) h)),
    each-All (λ f. Here f.0) (handle_file O) j.files v handle_file-Here
        (λ f g u l. (handle_file_keeps g f.0 u l).state) k,
  )

  or_remove-Outcome :
      (j : Jail) (w : World O) (x : Option JailError × World O)
      → length j.bind_mounts ≤ 1
      → build_parts O j w ≡ x
      → Outcome j w (or_remove O j x)
  unfolding build_parts
  or_remove-Outcome j w (some e, v) few h = cleaned e v few h (remove_jail-Swept O j v)
  or_remove-Outcome j w (none, v) few h =
      let x = and_then (make_directories O j w) (handle_files O j) in
      let none_at : (build_parts O j w).0 ≡ none = ap (λ (y : Option JailError × World O). y.0) h in
      let (a, b, e) = and_then_done x (mount O j) none_at in
      let (c, d, f) = and_then_done (make_directories O j w) (handle_files O j) a in
      let (dirs, files) = parts-Here j w (make_directories O j w).1 c refl d in
      built x.1 few (subst (λ u. All (λ d. Here d.path u) j.directories) (sym f) dirs)
        (subst (λ u. All (λ g. Here g.0 u) j.files) (sym f) files)
        (sym (and_then-none x (mount O j) a) ∙ h)

  -- Build fails at once, with the system unchanged, exactly for more than one bind mount. Otherwise
  -- it ends without an error only from a state in which every directory and every file of the jail
  -- is there and the mount has succeeded; after an error it ends in the state that removeAll makes
  -- of the one in which the failing step left the system, and there either removeAll has failed too
  -- or the root of a jail that it may delete is gone, and else each file and each directory.
  pub build-Outcome : (j : Jail) (w : World O) → Outcome j w (build O j w)
  unfolding build
  build-Outcome j w =
      if-cases (Outcome j w) (ltb 1 (length j.bind_mounts)) _ _
        (λ h. refused (ltb→lt 1 (length j.bind_mounts) h))
        λ h. or_remove-Outcome j w (build_parts O j w) (ground (arith, h)) refl

  -- Build of a jail that may delete its root, when the root is the first directory and cannot be
  -- made, as when it exists already: the root is removed all the same, with all that was in it.
  pub build-existing :
      (j : Jail) (d : PathAndMode) (ds : List PathAndMode) (e : ℕ) (w : World O)
      → j.directories ≡ d ∷ ds
      → j.delete_root ≡ true
      → ltb 1 (length j.bind_mounts) ≡ false
      → (mkdir d.path d.mode w.os).0 ≡ some e
      → build O j w ≡ (
        some (cant_mkdir e),
        record {
          os = (remove_all j.root (mkdir d.path d.mode w.os).1).1;
          removals = (mkdir d.path d.mode w.os).1 ∷ w.removals;
        },
      )
  unfolding build build_parts remove_jail make_directory call
  build-existing j d ds e w hd hr hm h = rw (hm, hd, h, hr) refl
