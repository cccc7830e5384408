-- ===== src/Domain/Failing.antt =====
-- internal/domain/domain.go: what a visitor sees who is not allowed to see a project.
use gitlab_pages_mirror.Common.{
  codes, false, not, ◌&&◌, Option, none, some, ok, Result-cases, if-cases, ◌≡◌, inl, inr, arith,
}
use gitlab_pages_mirror.Http.{Request}
use gitlab_pages_mirror.Responses.{Response, serve_error_page, page404, page503}
use gitlab_pages_mirror.Serving.Requests.{ServingRequest}
use gitlab_pages_mirror.Serving.Handlers.{ServingOps, forward_not_found}
use gitlab_pages_mirror.Source.Api.{
  ApiError, domain_does_not_exist, unauthorized_api, context_done, retrieval_context_done, other,
}
use gitlab_pages_mirror.Domain.Serve.{
  Domain, resolve, get_lookup_path, is_namespace_project, serve_resolve_error, with_path,
  serve_namespace_not_found, serve_not_found_http, serve_not_found_auth_failed,
}

-- The answers that tell nothing of a protected project: a generic page, or the page of a project
-- that the domain has for the request or for its root, and that has no access control.
pub data IsDiscreet (ops : ServingOps) (d : Option Domain) (r : Request) (w : Response)
    : Response → Type 0 where
  not_found : IsDiscreet ops d r w (serve_error_page page404 w)
  unavailable : IsDiscreet ops d r w (serve_error_page page503 w)
  own_page :
      (s : ServingRequest)
      → resolve d r ≡ ok s
      → s.lookup_path.has_access_control ≡ false
      → IsDiscreet ops d r w (forward_not_found ops s r w)
  namespace_page :
      (s : ServingRequest)
      → resolve d (with_path (codes "/") r) ≡ ok s
      → s.lookup_path.has_access_control ≡ false
      → IsDiscreet ops d r w (forward_not_found ops s r w)

module _ (ops : ServingOps) where
  resolve_error-IsDiscreet :
      (d : Option Domain) (r : Request) (w : Response) (e : ApiError)
      → IsDiscreet ops d r w (serve_resolve_error e w)
  unfolding serve_resolve_error
  resolve_error-IsDiscreet d r w domain_does_not_exist = not_found
  resolve_error-IsDiscreet d r w unauthorized_api = unavailable
  resolve_error-IsDiscreet d r w context_done = unavailable
  resolve_error-IsDiscreet d r w retrieval_context_done = unavailable
  resolve_error-IsDiscreet d r w other = unavailable

  namespace-IsDiscreet :
      (d : Domain) (r : Request) (w : Response)
      → IsDiscreet ops (some d) r w (serve_namespace_not_found ops d r w)
  unfolding serve_namespace_not_found resolve
  namespace-IsDiscreet d r w = elim (Result-cases (d.resolver (with_path (codes "/") r))) [
    | inr (e, h) ↦ rw (h, serve_namespace_not_found) (resolve_error-IsDiscreet (some d) r w e)
    | inl (s, h) ↦
        rw (h, serve_namespace_not_found)
          (if-cases (IsDiscreet ops (some d) r w) (not s.lookup_path.has_access_control) _ _
            (λ p. namespace_page s h (ground arith)) (λ p. not_found))
  ]

  own-IsDiscreet :
      (d : Domain) (r : Request) (w : Response) (s : ServingRequest)
      → d.resolver r ≡ ok s
      → s.lookup_path.has_access_control ≡ false
      → IsDiscreet ops (some d) r w (serve_not_found_http ops (some d) r w)
  unfolding serve_not_found_http resolve
  own-IsDiscreet d r w s h p = rw (h, serve_not_found_http) (own_page s h p)

  -- After an authentication that failed, the visitor gets a generic error page, or the 404 page of
  -- a project without access control: never one of a protected project.
  pub serve_not_found_auth_failed-IsDiscreet :
      (d : Option Domain) (r : Request) (w : Response)
      → IsDiscreet ops d r w (serve_not_found_auth_failed ops d r w)
  unfolding serve_not_found_auth_failed get_lookup_path is_namespace_project serve_not_found_http
      resolve
  serve_not_found_auth_failed-IsDiscreet none r w = not_found
  serve_not_found_auth_failed-IsDiscreet (some d) r w = elim (Result-cases (d.resolver r)) [
    | inr (e, h) ↦ rw (h, serve_not_found_auth_failed) not_found
    | inl (s, h) ↦
        rw (h, serve_not_found_auth_failed)
          (if-cases (IsDiscreet ops (some d) r w)
            (is_namespace_project (some d) r && not s.lookup_path.has_access_control)
            (serve_not_found_http ops (some d) r w) (serve_namespace_not_found ops d r w)
            (λ p. own-IsDiscreet d r w s h (ground arith)) (λ p. namespace-IsDiscreet d r w))
  ]
