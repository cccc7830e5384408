-- ===== src/Source/Disk/Maps.antt =====
-- internal/source/disk/map.go and disk.go: the map from domain names to domains.
use gitlab_pages_mirror.Common.{
  ℕ, Text, codes, text_eq, to_lower, split_n, path_join, Bool, true, false, Option, none, some,
  List, [], ◌∷◌, ◌++◌, Dict, dict_get, dict_put, if◌then◌else◌,
}
use gitlab_pages_mirror.Source.Disk.Groups.{
  DomainConfig, ProjectConfig, is_valid_domain, Group, group, projects_of, subgroups_of, name_of,
  find_subgroup, put_subgroup, new_group, max_project_depth,
}

pub record MultiDomainConfig : Type 0 where
  pub domains : List DomainConfig
  pub https_only : Bool
  pub id : ℕ
  pub access_control : Bool

-- The two implementations of the interface Resolver in this package.
pub data Resolver : Type 0 where
  group_resolver : Group → Resolver
  custom_resolver : Option DomainConfig → Text → Resolver

-- domain.Domain with such a resolver.
pub record DiskDomain : Type 0 where
  pub name : Text
  pub certificate_cert : Text
  pub certificate_key : Text
  pub resolver : Resolver

abbrev pub Map : Type 0
Map = Dict DiskDomain

-- The subgroup of a name, or a new one.
abbrev pub subgroup_or_new : Group → Text → Group
subgroup_or_new g name = elim (find_subgroup (subgroups_of g) name) [
  | some sub ↦ sub
  | none ↦ new_group name
]

-- The loop of updateGroupDomain over the subgroups of the path, and the write of the project.
unfoldable pub put_project : List Text → ProjectConfig → Group → Group
unfolding dict_put find_subgroup put_subgroup new_group
put_project [] config g = g
put_project (name ∷ []) config g =
    group (name_of g) (dict_put (projects_of g) name config) (subgroups_of g)
put_project (name ∷ next ∷ rest) config g =
    let sub = put_project (next ∷ rest) config (subgroup_or_new g name) in
    group (name_of g) (projects_of g) (put_subgroup (subgroups_of g) name sub)

abbrev pub last_of : List Text → Text
last_of [] = []
last_of (s ∷ []) = s
last_of (s ∷ t ∷ rest) = last_of (t ∷ rest)

abbrev pub domain_name : Text → Text → Text
domain_name group_name root_domain = to_lower (group_name ++ (codes "." ++ root_domain))

-- What updateGroupDomain does once it has a group; none is the failed type assertion, a panic.
abbrev pub group_of : Text → Text → Option DiskDomain → Option Group
group_of group_name name none = some (new_group group_name)
group_of group_name name (some d) = elim d.resolver [
  | group_resolver g ↦ some g
  | custom_resolver _ _ ↦ none
]

abbrev certificates_of : Option DiskDomain → Text × Text
certificates_of none = ([], [])
certificates_of (some d) = (d.certificate_cert, d.certificate_key)

abbrev pub domain_with : Text → Option DiskDomain → Group → DiskDomain
domain_with name old g = record {
  name = elim old [ none ↦ name | some d ↦ d.name ];
  certificate_cert = (certificates_of old).0;
  certificate_key = (certificates_of old).1;
  resolver = group_resolver g;
}

-- updateGroupDomain; none is a panic.
unfoldable pub update_group_domain : Text → Text → Text → Bool → Bool → ℕ → Map → Option Map
unfolding dict_get dict_put split_n put_project text_eq to_lower
update_group_domain root_domain group_name project_path https_only access_control id dm =
    let name = domain_name group_name root_domain in
    let parts = split_n b'/' max_project_depth (to_lower project_path) in
    let old = dict_get dm name in
    elim (group_of group_name name old) [
      | none ↦ none
      | some g ↦
          let config : ProjectConfig = record {
            namespace_project = text_eq name (last_of parts);
            https_only = https_only;
            access_control = access_control;
            id = id;
          } in
          some (dict_put dm name (domain_with name old (put_project parts config g)))
    ]

-- addDomain with updateDomainMap, which only logs a duplicate.
unfoldable pub add_domain : Text → Text → DomainConfig → Map → Map
unfolding dict_put path_join to_lower
add_domain group_name project_name config dm = dict_put dm (to_lower config.domain) (record {
  name = to_lower config.domain;
  certificate_cert = config.certificate;
  certificate_key = config.key;
  resolver =
      custom_resolver (some config) (path_join (group_name ∷ project_name ∷ codes "public" ∷ []));
})

unfoldable pub add_domains : Text → Text → Text → List DomainConfig → Map → Map
unfolding add_domain is_valid_domain
add_domains root_domain group_name project_name [] dm = dm
add_domains root_domain group_name project_name (c ∷ configs) dm =
    add_domains root_domain group_name project_name configs
      (if is_valid_domain c root_domain then add_domain group_name project_name c dm else dm)

-- readProjectConfig; none for the config is one that could not be read, and none for the result a
-- panic.
unfoldable pub read_project_config :
    Text → Text → Text → Option MultiDomainConfig → Map → Option Map
unfolding update_group_domain add_domains
read_project_config root_domain group_name project_name none dm =
    update_group_domain root_domain group_name project_name false false 0 dm
read_project_config root_domain group_name project_name (some config) dm =
    elim (update_group_domain root_domain group_name project_name config.https_only
      config.access_control config.id dm) [
        | none ↦ none
        | some dm' ↦ some (add_domains root_domain group_name project_name config.domains dm')
      ]

-- Disk: `dm` is none until the first update.
pub record Disk : Type 0 where
  pub dm : Option Map

unfoldable pub get_disk_domain : Disk → Text → Option DiskDomain
unfolding dict_get to_lower
get_disk_domain d host = elim d.dm [ none ↦ none | some m ↦ dict_get m (to_lower host) ]

unfoldable pub disk_is_ready : Disk → Bool
disk_is_ready d = elim d.dm [ none ↦ false | some _ ↦ true ]

unfoldable pub update_domains : Map → Disk → Disk
update_domains m d = record { dm = some m }
