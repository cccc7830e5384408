-- ===== src/Source/Gitlab.antt =====
-- internal/source/gitlab/gitlab.go and factory.go: the domains that the GitLab API describes.
pub mod Lookups
use gitlab_pages_mirror.Common.{
  ℕ, Text, codes, text_eq, has_prefix, trim_prefix, clean, Bool, true, false, ◌&&◌, ◌||◌, Option,
  none, some, List, [], ◌∷◌, Result, ok, err, length, ltb, if◌then◌else◌,
}
use gitlab_pages_mirror.Common.Int.{to_u64}
use gitlab_pages_mirror.Http.{Request, get_host_without_port}
use gitlab_pages_mirror.Serving.Requests.{Serving, LookupPath, ServingRequest}
use gitlab_pages_mirror.Source.Api.{
  ApiError, domain_does_not_exist, unauthorized_api, ApiLookupPath, VirtualDomain, Lookup,
}

pub record Gitlab : Type 0 where
  pub is_ready : Bool

-- What domain.New is given: the name and the certificates.
pub record Found : Type 0 where
  pub name : Text
  pub certificate : Text
  pub key : Text

-- fabricateServing: the type zip has its own serving, and all others are served locally.
unfoldable pub fabricate_serving : ApiLookupPath → Serving
unfolding text_eq
fabricate_serving l = if text_eq l.source.kind (codes "zip") then Serving.zip else Serving.local

unfoldable pub fabricate_lookup_path : ℕ → ApiLookupPath → LookupPath
unfolding text_eq to_u64
fabricate_lookup_path size l = record {
  serving_type = l.source.kind;
  prefix = l.prefix;
  path = l.source.path;
  is_namespace_project = text_eq l.prefix (codes "/") && ltb 1 size;
  is_https_only = l.https_only;
  has_access_control = l.access_control;
  project_id = to_u64 l.project_id;
}

-- The loop of Resolve over the lookup paths, with the cleaned path of the URL.
unfoldable pub resolve_paths : ℕ → Text → List ApiLookupPath → Result ApiError ServingRequest
unfolding has_prefix trim_prefix clean text_eq fabricate_serving fabricate_lookup_path
resolve_paths size url_path [] = err domain_does_not_exist
resolve_paths size url_path (l ∷ paths) =
    let is_sub_path = has_prefix url_path l.prefix in
    let is_root_path = text_eq url_path (clean l.prefix) in
    let rest = resolve_paths size url_path paths in
    if is_sub_path || is_root_path
    then ok (record {
      serving = fabricate_serving l;
      lookup_path = fabricate_lookup_path size l;
      sub_path = if is_sub_path then trim_prefix url_path l.prefix else [];
    })
    else rest

-- `client` is the answer of the cached client for a name. In the results, none stands for the
-- panic of following a nil domain.
module _ (client : Text → Lookup) where
  -- GetDomain, on the lookup: the source is no longer ready after an answer that it is not
  -- authorized.
  unfoldable pub get_domain : Gitlab → Text → Gitlab × Option (Result ApiError Found)
  get_domain g name = elim ((client name).error) [
    | some unauthorized_api ↦ (record { is_ready = false }, some (err unauthorized_api))
    | some e ↦ (g, some (err e))
    | none ↦ elim ((client name).domain) [
      | none ↦ (g, none)
      | some d ↦ (g, some (ok (record { name = name; certificate = d.certificate; key = d.key })))
    ]
  ]

  -- Resolve
  unfoldable pub resolve_request : Request → Option (Result ApiError ServingRequest)
  unfolding resolve_paths get_host_without_port
  resolve_request r =
      let response = client (get_host_without_port r) in
      elim response.error [
        | some e ↦ some (err e)
        | none ↦ elim response.domain [
          | none ↦ none
          | some d ↦ some (resolve_paths (length d.lookup_paths) (clean r.path) d.lookup_paths)
        ]
      ]

-- The end of `poll`: `checked` is the result of the retried status request.
unfoldable pub poll : Bool → Gitlab → Gitlab
poll checked g = if checked then record { is_ready = true } else g
