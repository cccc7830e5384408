-- ===== src/Source/Disk/Scanning.antt =====
-- internal/source/disk/map.go: the walk over the groups. The file system is a parameter: the
-- entries of a directory, what has a folder `public`, and the configuration of a project.
use gitlab_pages_mirror.Common.{
  ℕ, zero, suc, Text, codes, text_eq, has_prefix, has_suffix, path_join, Bool, not, ◌||◌, Option,
  none, some, List, [], ◌∷◌, ◌++◌, if◌then◌else◌,
}
use gitlab_pages_mirror.Source.Disk.Maps.{MultiDomainConfig, Map, read_project_config}

-- One entry of a directory: its name, and whether it is a directory.
pub record Dirent : Type 0 where
  pub name : Text
  pub is_dir : Bool

pub record JobResult : Type 0 where
  pub group : Text
  pub project : Text
  pub config : Option MultiDomainConfig

-- A name that readProject skips.
unfoldable pub is_ignored : Text → Bool
unfolding has_prefix has_suffix
is_ignored name = has_prefix name (codes ".") || has_suffix name (codes ".deleted")

-- How many levels below the projects of a group are read: level 0 to 22, since readProject goes
-- down from a level that is at most 21.
abbrev pub levels : ℕ
levels = 22

-- ReadDirents, Lstat of a group's project and the reading of its config.json.
pub record Files : Type 0 where
  pub dirents : Text → Option (List Dirent)
  pub has_public : Text → Text → Bool
  pub config : Text → Text → Option MultiDomainConfig

module _ (fs : Files) where
  -- readProject; `deeper` reads a subgroup, and nothing below the last level.
  unfoldable pub read_project : (Text → List JobResult) → Text → Text → Text → List JobResult
  unfolding is_ignored path_join
  read_project deeper group parent name =
      let project_path = path_join (parent ∷ name ∷ []) in
      if is_ignored name
      then []
      else if not (fs.has_public group project_path)
      then deeper project_path
      else record { group = group; project = project_path; config = fs.config group project_path }
        ∷ []

  unfoldable pub read_entries : (Text → List JobResult) → Text → Text → List Dirent → List JobResult
  unfolding read_project
  read_entries deeper group parent [] = []
  read_entries deeper group parent (d ∷ ds) =
      (if d.is_dir then read_project deeper group parent d.name else [])
      ++ read_entries deeper group parent ds

  -- readProjects with the levels that are left below this one.
  unfoldable pub read_projects : ℕ → Text → Text → List JobResult
  unfolding read_entries path_join
  read_projects zero group parent = elim (fs.dirents (path_join (group ∷ parent ∷ []))) [
    | none ↦ []
    | some ds ↦ read_entries (λ _. []) group parent ds
  ]
  read_projects (suc left) group parent = elim (fs.dirents (path_join (group ∷ parent ∷ []))) [
    | none ↦ []
    | some ds ↦ read_entries (read_projects left group) group parent ds
  ]

  -- The groups of ReadGroups that are handed to the workers and that the workers read.
  unfoldable pub group_names : List Dirent → List Text
  unfolding has_prefix text_eq
  group_names [] = []
  group_names (d ∷ ds) =
      let rest = group_names ds in
      if not d.is_dir || has_prefix d.name (codes ".") || text_eq d.name (codes "@hashed")
      then rest
      else d.name ∷ rest

-- The consumer of ReadGroups, over the job results in the order in which they arrive; none is a
-- panic.
unfoldable pub read_results : Text → List JobResult → Map → Option Map
unfolding read_project_config
read_results root_domain [] dm = some dm
read_results root_domain (r ∷ results) dm =
    elim (read_project_config root_domain r.group r.project r.config dm) [
      | none ↦ none
      | some dm' ↦ read_results root_domain results dm'
    ]
