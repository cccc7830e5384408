-- ===== src/Source/Disk/Groups.antt =====
-- internal/source/disk/group.go, custom.go and config.go: a tree of groups with their projects, and
-- the two resolvers. A group is reached from one place only, so its pointers are values here.
use gitlab_pages_mirror.Common.{
  ℕ, Text, codes, text_eq, has_suffix, to_lower, split_n, join, path_join, Bool, false, not, Option,
  none, some, List, [], ◌∷◌, ◌++◌, Dict, dict_empty, dict_get, Result, ok, err, drop, length, leb,
  if◌then◌else◌,
}
use gitlab_pages_mirror.Http.{Request, host_from_request}
use gitlab_pages_mirror.Serving.Requests.{Serving, ServingRequest}
use gitlab_pages_mirror.Source.Api.{ApiError, domain_does_not_exist}

pub record DomainConfig : Type 0 where
  pub domain : Text
  pub certificate : Text
  pub key : Text
  pub https_only : Bool
  pub id : ℕ
  pub access_control : Bool

pub record ProjectConfig : Type 0 where
  pub namespace_project : Bool
  pub https_only : Bool
  pub access_control : Bool
  pub id : ℕ

-- The method Valid of domainConfig.
unfoldable pub is_valid_domain : DomainConfig → Text → Bool
unfolding text_eq to_lower has_suffix
is_valid_domain c root_domain =
    if text_eq c.domain []
    then false
    else not (has_suffix (to_lower c.domain) (codes "." ++ root_domain))

-- Group with its maps; `Subgroups` is the map of subgroups.
mutual
  pub data Group : Type 0 where
    group : Text → Dict ProjectConfig → Subgroups → Group

  pub data Subgroups : Type 0 where
    empty : Subgroups
    subgroup : Text → Group → Subgroups → Subgroups

abbrev pub projects_of : Group → Dict ProjectConfig
projects_of (group name projects subgroups) = projects

abbrev pub subgroups_of : Group → Subgroups
subgroups_of (group name projects subgroups) = subgroups

abbrev pub name_of : Group → Text
name_of (group name projects subgroups) = name

unfoldable pub find_subgroup : Subgroups → Text → Option Group
unfolding text_eq
find_subgroup empty k = none
find_subgroup (subgroup j g rest) k = if text_eq j k then some g else find_subgroup rest k

-- subgroups[k] = g, by a new first entry that hides an older one.
unfoldable pub put_subgroup : Subgroups → Text → Group → Subgroups
put_subgroup m k g = subgroup k g m

unfoldable pub new_group : Text → Group
new_group name = group name dict_empty empty

abbrev pub max_project_depth : ℕ
max_project_depth = 24

-- digProjectWithSubpath: the project, its path as the URL spells it, and the path inside it.
unfoldable pub dig_project : Text → List Text → Group → Option (ProjectConfig × Text × Text)
unfolding path_join to_lower dict_get find_subgroup
dig_project parent_path [] g = none
dig_project parent_path (head ∷ tail) g =
    let current_path = path_join (parent_path ∷ head ∷ []) in
    elim (dict_get (projects_of g) (to_lower head)) [
      | some project ↦ some (project, current_path, path_join tail)
      | none ↦ elim (find_subgroup (subgroups_of g) (to_lower head)) [
        | some sub ↦ dig_project current_path tail sub
        | none ↦ none
      ]
    ]

-- The project, its prefix, its path, and the path inside it.
pub record Located : Type 0 where
  pub project : ProjectConfig
  pub prefix : Text
  pub project_path : Text
  pub sub_path : Text

-- The group project, when the URL names no project.
unfoldable pub group_project : Group → Text → List Text → Option Located
unfolding dict_get join text_eq
group_project g host parts =
    if text_eq host [] then none else elim (dict_get (projects_of g) host) [
      | none ↦ none
      | some p ↦ some (record {
        project = p;
        prefix = codes "/";
        project_path = host;
        sub_path = join (codes "/") (drop 1 parts);
      })
    ]

-- getProjectConfigWithSubpath, on the host without a port and the path of the URL.
unfoldable pub locate_project : Group → Text → Text → Option Located
unfolding split_n dig_project group_project
locate_project g host path =
    let parts = split_n b'/' max_project_depth path in
    let found = if leb 2 (length parts) then dig_project [] (drop 1 parts) g else none in
    elim found [
      | some (p, project_path, url_path) ↦ some (record {
        project = p;
        prefix = codes "/" ++ project_path;
        project_path = project_path;
        sub_path = url_path;
      })
      | none ↦ group_project g host parts
    ]

-- Resolve of a Group.
unfoldable pub resolve_group : Group → Request → Result ApiError ServingRequest
unfolding locate_project path_join host_from_request
resolve_group g r = elim (locate_project g (host_from_request r) r.path) [
  | none ↦ err domain_does_not_exist
  | some l ↦ ok (record {
    serving = Serving.local;
    lookup_path = record {
      serving_type = codes "file";
      prefix = l.prefix;
      path = path_join (name_of g ∷ l.project_path ∷ codes "public" ∷ []) ++ codes "/";
      is_namespace_project = l.project.namespace_project;
      is_https_only = l.project.https_only;
      has_access_control = l.project.access_control;
      project_id = l.project.id;
    };
    sub_path = l.sub_path;
  })
]

-- Resolve of a customProjectResolver.
unfoldable pub resolve_custom :
    Option DomainConfig → Text → Request → Result ApiError ServingRequest
resolve_custom none path r = err domain_does_not_exist
resolve_custom (some config) path r = ok (record {
  serving = Serving.local;
  lookup_path = record {
    serving_type = codes "file";
    prefix = codes "/";
    path = path;
    is_namespace_project = false;
    is_https_only = config.https_only;
    has_access_control = config.access_control;
    project_id = config.id;
  };
  sub_path = r.path;
})
