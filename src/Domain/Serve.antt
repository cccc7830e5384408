-- ===== src/Domain/Serve.antt =====
-- internal/domain/domain.go: what a domain knows of a request, and how it serves it. A nil domain
-- is none.
use gitlab_pages_mirror.Common.{
  ℕ, Text, codes, Bool, true, false, not, ◌&&◌, Option, none, some, Result, ok, err, if◌then◌else◌,
}
use gitlab_pages_mirror.Http.{Request}
use gitlab_pages_mirror.Responses.{Response, serve_error_page, page404, page503}
use gitlab_pages_mirror.Serving.Requests.{LookupPath, ServingRequest}
use gitlab_pages_mirror.Serving.Handlers.{ServingOps, forward_file, forward_not_found}
use gitlab_pages_mirror.Source.Api.{ApiError, domain_does_not_exist}

-- A domain with what its resolver answers while one request is handled.
pub record Domain : Type 0 where
  pub name : Text
  pub resolver : Request → Result ApiError ServingRequest

unfoldable pub resolve : Option Domain → Request → Result ApiError ServingRequest
resolve none r = err domain_does_not_exist
resolve (some d) r = d.resolver r

unfoldable pub get_lookup_path : Option Domain → Request → Result ApiError LookupPath
unfolding resolve
get_lookup_path d r = elim (resolve d r) [ ok s ↦ ok s.lookup_path | err e ↦ err e ]

unfoldable pub is_https_only : Option Domain → Request → Bool
unfolding get_lookup_path
is_https_only d r = elim (get_lookup_path d r) [ ok l ↦ l.is_https_only | err _ ↦ false ]

unfoldable pub is_access_control_enabled : Option Domain → Request → Bool
unfolding get_lookup_path
is_access_control_enabled d r = elim (get_lookup_path d r) [
  | ok l ↦ l.has_access_control
  | err _ ↦ false
]

unfoldable pub is_namespace_project : Option Domain → Request → Bool
unfolding get_lookup_path
is_namespace_project d r = elim (get_lookup_path d r) [
  | ok l ↦ l.is_namespace_project
  | err _ ↦ false
]

unfoldable pub get_project_id : Option Domain → Request → ℕ
unfolding get_lookup_path
get_project_id d r = elim (get_lookup_path d r) [ ok l ↦ l.project_id | err _ ↦ 0 ]

unfoldable pub has_lookup_path : Option Domain → Request → Bool
unfolding get_lookup_path
has_lookup_path none r = false
has_lookup_path (some d) r = elim (get_lookup_path (some d) r) [ ok _ ↦ true | err _ ↦ false ]

-- What a domain answers when it cannot resolve a request.
unfoldable pub serve_resolve_error : ApiError → Response → Response
unfolding serve_error_page
serve_resolve_error domain_does_not_exist w = serve_error_page page404 w
serve_resolve_error _ w = serve_error_page page503 w

-- The clone of a request with another path.
abbrev pub with_path : Text → Request → Request
with_path path r = record {
  method = r.method;
  host = r.host;
  scheme = r.scheme;
  path = path;
  request_uri = r.request_uri;
  query = r.query;
  headers = r.headers;
  tls = r.tls;
}

module _ (ops : ServingOps) where
  unfoldable pub serve_file_http : Option Domain → Request → Response → Bool × Response
  unfolding resolve serve_resolve_error forward_file
  serve_file_http d r w = elim (resolve d r) [
    | err e ↦ (true, serve_resolve_error e w)
    | ok s ↦ forward_file ops s r w
  ]

  unfoldable pub serve_not_found_http : Option Domain → Request → Response → Response
  unfolding resolve serve_resolve_error forward_not_found
  serve_not_found_http d r w = elim (resolve d r) [
    | err e ↦ serve_resolve_error e w
    | ok s ↦ forward_not_found ops s r w
  ]

  -- On a domain that is not nil.
  unfoldable pub serve_namespace_not_found : Domain → Request → Response → Response
  unfolding serve_resolve_error forward_not_found serve_error_page
  serve_namespace_not_found d r w = elim (d.resolver (with_path (codes "/") r)) [
    | err e ↦ serve_resolve_error e w
    | ok s ↦
        if not s.lookup_path.has_access_control
        then forward_not_found ops s r w
        else serve_error_page page404 w
  ]

  unfoldable pub serve_not_found_auth_failed : Option Domain → Request → Response → Response
  unfolding get_lookup_path is_namespace_project serve_not_found_http serve_namespace_not_found
      serve_error_page
  serve_not_found_auth_failed none r w = serve_error_page page404 w
  serve_not_found_auth_failed (some d) r w = elim (get_lookup_path (some d) r) [
    | err _ ↦ serve_error_page page404 w
    | ok l ↦
        if is_namespace_project (some d) r && not l.has_access_control
        then serve_not_found_http (some d) r w
        else serve_namespace_not_found d r w
  ]
