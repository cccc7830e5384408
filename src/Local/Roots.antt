-- ===== src/Local/Roots.antt =====
-- internal/vfs/local/root.go: paths below the root directory, and the three calls on them.
use gitlab_pages_mirror.Common.{
  Text, codes, true, subst, is_rooted, text_eq, text_eq_iff, text_eq_refl, has_prefix, trim_prefix,
  path_join, not, ◌≡◌, refl, sym, ◌∙◌, ◌⊎◌, inl, inr, [], ◌∷◌, ◌++◌, Result, ok, err, if◌then◌else◌,
  Bool-cases, Result-cases, arith,
}
use gitlab_pages_mirror.Common.DirectPaths.{IsDirect, path_join-IsDirect}
use gitlab_pages_mirror.Common.TextLaws.{append-trim_prefix, trim_prefix_absent}
use gitlab_pages_mirror.Vfs.{VfsError, failed, FileInfo, Root}

-- The calls on the operating system: os.Lstat, os.Readlink, os.OpenFile with O_NOFOLLOW followed by
-- Stat and the reading of the file, and filepath.Rel from the directory of a path.
pub record Os : Type 0 where
  pub lstat : Text → Result VfsError FileInfo
  pub readlink : Text → Result VfsError Text
  pub open_file : Text → Result VfsError (FileInfo × Text)
  pub relative : Text → Text → Result VfsError Text

-- invalidPathError and errNotFile.
abbrev invalid_path : VfsError
invalid_path = failed 1

abbrev not_file : VfsError
not_file = failed 2

-- validatePath: the full path and the path below the root.
unfoldable pub validate_path : Text → Text → Result VfsError (Text × Text)
unfolding path_join text_eq trim_prefix
validate_path root_path path =
    let full_path = path_join (root_path ∷ path ∷ []) in
    let vfs_path = trim_prefix full_path (root_path ++ codes "/") in
    if text_eq root_path full_path
    then ok (full_path, [])
    else if text_eq full_path vfs_path
    then err invalid_path
    else ok (full_path, vfs_path)

module _ (os : Os) (root_path : Text) where
  unfoldable pub local_lstat : Text → Result VfsError FileInfo
  unfolding validate_path
  local_lstat name = elim (validate_path root_path name) [
    | err e ↦ err e
    | ok (full_path, _) ↦ os.lstat full_path
  ]

  -- Readlink at a full path: a target below the root becomes relative.
  follow : Text → Result VfsError Text
  unfolding has_prefix
  follow full_path = elim (os.readlink full_path) [
    | err e ↦ err e
    | ok target ↦
        if has_prefix target (root_path ++ codes "/")
        then os.relative full_path target
        else ok target
  ]

  unfoldable pub local_readlink : Text → Result VfsError Text
  unfolding validate_path follow
  local_readlink name = elim (validate_path root_path name) [
    | err e ↦ err e
    | ok (full_path, _) ↦ follow full_path
  ]

  unfoldable pub local_open : Text → Result VfsError Text
  unfolding validate_path
  local_open name = elim (validate_path root_path name) [
    | err e ↦ err e
    | ok (full_path, _) ↦ elim (os.open_file full_path) [
      | err e ↦ err e
      | ok (fi, content) ↦ if not fi.is_regular then err not_file else ok content
    ]
  ]

  -- The root as the interface has it.
  unfoldable pub local_root : Root
  unfolding local_lstat local_readlink local_open
  local_root = record { lstat = local_lstat; readlink = local_readlink; open_file = local_open }

-- An absolute path of plain names, without steps, that is the root directory itself or goes on from
-- it.
abbrev pub IsWithin : Text → Text → Type 0
IsWithin root_path path =
    IsDirect path
    × ((path ≡ root_path) ⊎ ((rest : Text) × (path ≡ (root_path ++ codes "/") ++ rest)))

validate_path-IsWithin :
    (root_path name full rest : Text)
    → is_rooted root_path ≡ true
    → validate_path root_path name ≡ ok (full, rest)
    → IsWithin root_path full
unfolding validate_path
validate_path-IsWithin root_path name full rest r h =
    let direct = path_join-IsDirect root_path name r in
    let joined = path_join (root_path ∷ name ∷ []) in
    let below = root_path ++ codes "/" in
    elim (Bool-cases (text_eq root_path joined)) [
      | inl e ↦ (
        subst IsDirect (ground (arith, e, h)) direct,
        inl (ground (arith, e, h, text_eq_iff root_path joined)),
      )
      | inr e ↦ elim (Bool-cases (has_prefix joined below)) [
        | inl p ↦
            let same : joined ≡ full = ground (arith, e, h) in
            (
              subst IsDirect same direct,
              inr (trim_prefix joined below, sym same ∙ sym (append-trim_prefix joined below p)),
            )
        | inr p ↦
            absurd (ground (arith, e, h, trim_prefix_absent joined below p, text_eq_refl joined))
      ]
    ]

-- Two operating systems whose calls agree at the root directory and at the paths below it.
pub record AgreeWithin (root_path : Text) (first second : Os) : Type 0 where
  pub lstat : (p : Text) → IsWithin root_path p → first.lstat p ≡ second.lstat p
  pub readlink : (p : Text) → IsWithin root_path p → first.readlink p ≡ second.readlink p
  pub open_file : (p : Text) → IsWithin root_path p → first.open_file p ≡ second.open_file p
  pub relative : (p t : Text) → first.relative p t ≡ second.relative p t

-- Whatever name is asked for, a local root with an absolute path calls the operating system only at
-- its directory and at paths of plain names below it, without steps: its answers are the same on two
-- operating systems that agree there. What a system does with symbolic links in the directories of
-- such a path is part of its calls.
pub local_root-isolated :
    (root_path : Text) (first second : Os) (name : Text)
    → is_rooted root_path ≡ true
    → AgreeWithin root_path first second
    → ((local_root first root_path).lstat name ≡ (local_root second root_path).lstat name)
      × ((local_root first root_path).readlink name ≡ (local_root second root_path).readlink name)
      × ((local_root first root_path).open_file name ≡ (local_root second root_path).open_file name)
unfolding local_root local_lstat local_readlink local_open follow
local_root-isolated root_path first second name rooted agree =
    let read_same : (p : Text)
        → IsWithin root_path p
        → follow first root_path p ≡ follow second root_path p =
      λ p within.
        rw (agree.readlink p within, follow)
          (elim (Result-cases (second.readlink p)) [
            | inr (e, k) ↦ rw (k, follow) refl
            | inl (target, k) ↦ rw (k, agree.relative p target, follow) refl
          ]) in
    elim (Result-cases (validate_path root_path name)) [
      | inr (e, h) ↦ rw (h, local_lstat, local_readlink, local_open) (refl, refl, refl)
      | inl (t, h) ↦
          let within = validate_path-IsWithin root_path name t.0 t.1 rooted h in
          rw (h, local_lstat, local_readlink, local_open)
            (agree.lstat t.0 within, read_same t.0 within, rw (agree.open_file t.0 within) refl)
    ]
