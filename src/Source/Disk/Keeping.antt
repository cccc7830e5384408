-- ===== src/Source/Disk/Keeping.antt =====
-- internal/source/disk/map.go: what holds of the map of domains, in whatever order the results of
-- the walk arrive.
use mathlib.Core.Path.{subst}
use mathlib.Core.List.{map-append}
use gitlab_pages_mirror.Common.{
  to_lower_byte, split_n, if◌then◌else◌, ℕ, Text, codes, text_eq, text_eq_iff, has_suffix, to_lower,
  Bool, true, false, ◌≡◌, refl, sym, ap, ◌∙◌, Option, none, some, List, [], ◌∷◌, ◌++◌, dict_get,
  dict_put, dict_get-put, arith, Bool-cases, Option-cases, inl, inr,
}
use gitlab_pages_mirror.Source.Disk.Maps.{domain_name, domain_with, group_of, last_of, put_project}
use gitlab_pages_mirror.Common.TextLaws.{has_suffix-append}
use gitlab_pages_mirror.Source.Disk.Groups.{
  DomainConfig, ProjectConfig, is_valid_domain, Group, new_group, max_project_depth,
}
use gitlab_pages_mirror.Source.Disk.Maps.{
  MultiDomainConfig, group_resolver, custom_resolver, DiskDomain, Map, update_group_domain,
  add_domain, add_domains, read_project_config,
}
use gitlab_pages_mirror.Source.Disk.Scanning.{JobResult, read_results}

-- Every domain is filed under its own name, and one below the root domain belongs to a group.
pub record IsSound (root_domain : Text) (dm : Map) : Type 0 where
  pub named : (k : Text) (d : DiskDomain) → dict_get dm k ≡ some d → d.name ≡ k
  pub grouped :
      (k : Text) (d : DiskDomain)
      → dict_get dm k ≡ some d
      → has_suffix k (codes "." ++ root_domain) ≡ true
      → (g : Group) × (d.resolver ≡ group_resolver g)

put-IsSound :
    (root_domain k : Text) (d : DiskDomain) (dm : Map)
    → d.name ≡ k
    → (has_suffix k (codes "." ++ root_domain) ≡ true
        → (g : Group) × (d.resolver ≡ group_resolver g))
    → IsSound root_domain dm
    → IsSound root_domain (dict_put dm k d)
put-IsSound root_domain k d dm name belongs s = record {
  named = λ j e h. elim (Bool-cases (text_eq k j)) [
    | inl eq ↦ ground (arith, dict_get-put dm k j d, text_eq_iff k j)
    | inr ne ↦ s.named j e (ground (arith, dict_get-put dm k j d))
  ];
  grouped = λ j e h suffix. elim (Bool-cases (text_eq k j)) [
    | inl eq ↦
        let key = (text_eq_iff k j).0 eq in
        let (g, r) = belongs (rw key suffix) in (g, ground (arith, dict_get-put dm k j d))
    | inr ne ↦ s.grouped j e (ground (arith, dict_get-put dm k j d)) suffix
  ];
}

domain_name_suffix :
    (root_domain group_name : Text)
    → to_lower root_domain ≡ root_domain
    → has_suffix (domain_name group_name root_domain) (codes "." ++ root_domain) ≡ true
domain_name_suffix root_domain group_name lower =
    unfold to_lower in
    subst (λ t. has_suffix t (codes "." ++ root_domain) ≡ true)
      (sym (
        map-append to_lower_byte group_name (codes "." ++ root_domain)
        ∙ ap (λ t. to_lower group_name ++ (codes "." ++ t)) lower))
      (has_suffix-append (to_lower group_name) (codes "." ++ root_domain))

-- The group whose project is updated is there or new, and the domain that holds it has its name.
group_to_update :
    (root_domain group_name : Text) (dm : Map)
    → to_lower root_domain ≡ root_domain
    → IsSound root_domain dm
    → let name = domain_name group_name root_domain in
      (g : Group) × ((h : Group) → (domain_with name (dict_get dm name) h).name ≡ name)
      × (group_of group_name name (dict_get dm name) ≡ some g)
group_to_update root_domain group_name dm lower s =
    let name = domain_name group_name root_domain in
    elim (Option-cases (dict_get dm name)) [
      | inl e ↦ rw e (new_group group_name, λ h. refl, refl)
      | inr (d, e) ↦
          let (g, r) = s.grouped name d e (domain_name_suffix root_domain group_name lower) in
          rw e (
            g,
            λ h. s.named name d e,
            ap (λ r. elim r [ group_resolver g ↦ some g | custom_resolver _ _ ↦ none ]) r,
          )
    ]

update_group_domain-IsSound :
    (root_domain group_name project_path : Text) (https_only access_control : Bool) (id : ℕ)
    (dm : Map)
    → to_lower root_domain ≡ root_domain
    → IsSound root_domain dm
    → (dm' : Map) × (update_group_domain root_domain group_name project_path https_only
          access_control id dm
        ≡ some dm')
      × IsSound root_domain dm'
unfolding update_group_domain
update_group_domain-IsSound root_domain group_name project_path https_only access_control id dm
      lower s =
    let name = domain_name group_name root_domain in
    let old = dict_get dm name in
    let (g, named, e) = group_to_update root_domain group_name dm lower s in
    let config : ProjectConfig = record {
      namespace_project =
          text_eq name (last_of (split_n b'/' max_project_depth (to_lower project_path)));
      https_only = https_only;
      access_control = access_control;
      id = id;
    } in
    let g' = put_project (split_n b'/' max_project_depth (to_lower project_path)) config g in
    let d = domain_with name old g' in
    (
      dict_put dm name d,
      rw (e, update_group_domain) refl,
      put-IsSound root_domain name d dm (named g') (λ _. (g', refl)) s,
    )

add_domain-IsSound :
    (root_domain group_name project_name : Text) (c : DomainConfig) (dm : Map)
    → is_valid_domain c root_domain ≡ true
    → IsSound root_domain dm
    → IsSound root_domain (add_domain group_name project_name c dm)
unfolding is_valid_domain add_domain
add_domain-IsSound root_domain group_name project_name c dm valid s =
    put-IsSound root_domain (to_lower c.domain) _ dm refl (λ suffix. ground arith) s

add_domains-IsSound :
    (root_domain group_name project_name : Text) (configs : List DomainConfig) (dm : Map)
    → IsSound root_domain dm
    → IsSound root_domain (add_domains root_domain group_name project_name configs dm)
unfolding add_domains
add_domains-IsSound root_domain group_name project_name [] dm s = s
add_domains-IsSound root_domain group_name project_name (c ∷ configs) dm s =
    add_domains-IsSound root_domain group_name project_name configs
      (if is_valid_domain c root_domain then add_domain group_name project_name c dm else dm)
      (elim (Bool-cases (is_valid_domain c root_domain)) [
        | inl e ↦ rw e (add_domain-IsSound root_domain group_name project_name c dm e s)
        | inr e ↦ rw e s
      ])

read_project_config-IsSound :
    (root_domain group_name project_name : Text) (config : Option MultiDomainConfig) (dm : Map)
    → to_lower root_domain ≡ root_domain
    → IsSound root_domain dm
    → (dm' : Map) × (read_project_config root_domain group_name project_name config dm ≡ some dm')
      × IsSound root_domain dm'
unfolding read_project_config
read_project_config-IsSound root_domain group_name project_name none dm lower s =
    unfold read_project_config in
    update_group_domain-IsSound root_domain group_name project_name false false 0 dm lower s
read_project_config-IsSound root_domain group_name project_name (some config) dm lower s =
    let (dm', e, s') =
      update_group_domain-IsSound root_domain group_name project_name config.https_only
        config.access_control config.id dm lower s in
    (
      add_domains root_domain group_name project_name config.domains dm',
      rw (e, read_project_config) refl,
      add_domains-IsSound root_domain group_name project_name config.domains dm' s',
    )

-- With a root domain in lower case, reading the results of the walk never panics, whatever they
-- are and in whatever order they come, and keeps the map sound: each domain is filed under its
-- name, and no custom domain takes a name below the root domain.
pub read_results-IsSound :
    (root_domain : Text) (results : List JobResult) (dm : Map)
    → to_lower root_domain ≡ root_domain
    → IsSound root_domain dm
    → (dm' : Map) × (read_results root_domain results dm ≡ some dm') × IsSound root_domain dm'
unfolding read_results
read_results-IsSound root_domain [] dm lower s = (dm, refl, s)
read_results-IsSound root_domain (r ∷ results) dm lower s =
    let (dm', e, s') =
      read_project_config-IsSound root_domain r.group r.project r.config dm lower s in
    let (dm'', e', s'') = read_results-IsSound root_domain results dm' lower s' in
    (dm'', rw (e, read_results) e', s'')
