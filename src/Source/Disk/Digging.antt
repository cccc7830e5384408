-- ===== src/Source/Disk/Digging.antt =====
-- internal/source/disk/group.go and map.go: a project that was put into a group is found there.
use gitlab_pages_mirror.Common.{
  Text, text_eq_refl, to_lower, path_join, ◌≡◌, refl, ◌∙◌, none, some, List, [], ◌∷◌, ◌++◌, map,
  dict_get, dict_get-put,
}
use gitlab_pages_mirror.Source.Disk.Groups.{
  ProjectConfig, Group, Subgroups, projects_of, subgroups_of, find_subgroup, put_subgroup,
  dig_project,
}
use gitlab_pages_mirror.Source.Disk.Maps.{subgroup_or_new, put_project}

-- On the way down to the project, no project bears the name of a subgroup that is passed.
abbrev pub IsUnshadowed : List Text → Group → Type 0
IsUnshadowed [] g = Unit
IsUnshadowed (k ∷ []) g = Unit
IsUnshadowed (k ∷ l ∷ keys) g =
    (dict_get (projects_of g) (to_lower k) ≡ none)
    × IsUnshadowed (l ∷ keys) (subgroup_or_new g (to_lower k))

-- The path that digProjectWithSubpath builds on its way.
abbrev pub walk : Text → List Text → Text
walk path [] = path
walk path (k ∷ keys) = walk (path_join (path ∷ k ∷ [])) keys

dig_step_project :
    (parent head : Text) (tail : List Text) (g : Group) (p : ProjectConfig)
    → dict_get (projects_of g) (to_lower head) ≡ some p
    → dig_project parent (head ∷ tail) g ≡ some (p, path_join (parent ∷ head ∷ []), path_join tail)
unfolding dig_project
dig_step_project parent head tail g p h = rw (h, dig_project)

dig_step_subgroup :
    (parent head : Text) (tail : List Text) (g sub : Group)
    → dict_get (projects_of g) (to_lower head) ≡ none
    → find_subgroup (subgroups_of g) (to_lower head) ≡ some sub
    → dig_project parent (head ∷ tail) g ≡ dig_project (path_join (parent ∷ head ∷ [])) tail sub
unfolding dig_project
dig_step_subgroup parent head tail g sub h f = rw (h, dig_project) (rw (f, dig_project))

find_subgroup-put_subgroup :
    (m : Subgroups) (k : Text) (g : Group) → find_subgroup (put_subgroup m k g) k ≡ some g
find_subgroup-put_subgroup m k g =
    let same = text_eq_refl k in unfold find_subgroup put_subgroup in rw same

-- A project that is put into a group under some keys is found again by the same keys, whatever
-- the case in which the URL spells them and whatever path follows, when no project hides a
-- subgroup on the way; the path inside the project is what follows the keys.
pub dig_project-put_project :
    (parent : Text) (first : Text) (keys tail : List Text) (config : ProjectConfig) (g : Group)
    → IsUnshadowed (first ∷ keys) g
    → dig_project parent
        (first ∷ (keys ++ tail))
        (put_project (map to_lower (first ∷ keys)) config g)
      ≡ some (config, walk parent (first ∷ keys), path_join tail)
dig_project-put_project parent first [] tail config g h =
    dig_step_project parent first tail (put_project (to_lower first ∷ []) config g) config (
      unfold put_project in
      rw
        (
          dict_get-put (projects_of g) (to_lower first) (to_lower first) config,
          text_eq_refl (to_lower first),
        )
        refl)
dig_project-put_project parent first (next ∷ keys) tail config g h =
    let below =
      put_project (map to_lower (next ∷ keys)) config (subgroup_or_new g (to_lower first)) in
    dig_step_subgroup parent first (next ∷ (keys ++ tail))
      (put_project (map to_lower (first ∷ next ∷ keys)) config g) below (unfold put_project in h.0)
      (unfold put_project in find_subgroup-put_subgroup (subgroups_of g) (to_lower first) below)
    ∙ dig_project-put_project (path_join (parent ∷ first ∷ [])) next keys tail config
        (subgroup_or_new g (to_lower first)) h.1
