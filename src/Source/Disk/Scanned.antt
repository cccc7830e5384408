-- ===== src/Source/Disk/Scanned.antt =====
-- internal/source/disk/map.go: what the walk over a group finds.
use gitlab_pages_mirror.Common.{
  ℕ, zero, suc, Text, true, ◌≡◌, refl, List, [], ◌∷◌, All, if◌then◌else◌, All-append, path_join,
  Bool-cases, inl, inr, Option-cases,
}
use gitlab_pages_mirror.Source.Disk.Scanning.{
  Dirent, JobResult, Files, is_ignored, read_project, read_entries, read_projects,
}

module _ (fs : Files) (group : Text) where
  -- A result for a project of the group that has a folder `public`, with its own configuration.
  pub record IsProject (j : JobResult) : Type 0 where
    pub in_group : j.group ≡ group
    pub public : fs.has_public group j.project ≡ true
    pub config : j.config ≡ fs.config group j.project

  read_project-IsProject :
      (deeper : Text → List JobResult)
      → ((path : Text) → All IsProject (deeper path))
      → (parent name : Text) → All IsProject (read_project fs deeper group parent name)
  unfolding read_project
  read_project-IsProject deeper h parent name = elim (Bool-cases (is_ignored name)) [
    | inl i ↦ rw (i, read_project) tt
    | inr i ↦ elim (Bool-cases (fs.has_public group (path_join (parent ∷ name ∷ [])))) [
      | inl p ↦ rw (i, p, read_project) (record { in_group = refl; public = p; config = refl }, tt)
      | inr p ↦ rw (i, p, read_project) (h (path_join (parent ∷ name ∷ [])))
    ]
  ]

  read_entries-IsProject :
      (deeper : Text → List JobResult)
      → ((path : Text) → All IsProject (deeper path))
      → (parent : Text) (ds : List Dirent) → All IsProject (read_entries fs deeper group parent ds)
  unfolding read_entries
  read_entries-IsProject deeper h parent [] = tt
  read_entries-IsProject deeper h parent (d ∷ ds) =
      All-append IsProject (if d.is_dir then read_project fs deeper group parent d.name else [])
        (read_entries fs deeper group parent ds)
        (elim (Bool-cases d.is_dir) [
          | inl e ↦ rw e (read_project-IsProject deeper h parent d.name)
          | inr e ↦ rw e tt
        ])
        (read_entries-IsProject deeper h parent ds)

  -- However deep the walk goes, each of its results is a project of the group that has a folder
  -- `public`, with the configuration of that project.
  pub read_projects-IsProject :
      (left : ℕ) (parent : Text) → All IsProject (read_projects fs left group parent)
  unfolding read_projects
  read_projects-IsProject zero parent =
      elim (Option-cases (fs.dirents (path_join (group ∷ parent ∷ [])))) [
        | inl e ↦ rw (e, read_projects) tt
        | inr (ds, e) ↦ rw (e, read_projects) (read_entries-IsProject (λ _. []) (λ _. tt) parent ds)
      ]
  read_projects-IsProject (suc left) parent =
      elim (Option-cases (fs.dirents (path_join (group ∷ parent ∷ [])))) [
        | inl e ↦ rw (e, read_projects) tt
        | inr (ds, e) ↦
            rw (e, read_projects)
              (read_entries-IsProject (read_projects fs left group) (read_projects-IsProject left)
                parent ds)
      ]
