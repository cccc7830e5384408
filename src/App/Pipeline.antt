-- ===== src/App/Pipeline.antt =====
-- app.go with internal/acme/acme.go and internal/rejectmethods/middleware.go: every handler as a
-- function of the response so far, and the pipeline that buildHandlerPipeline makes of them. The
-- handlers for the correlation id, the metrics and the access log, which pass a request on, are
-- left out.
use gitlab_pages_mirror.Common.{
  ℕ, Text, codes, text_eq, has_prefix, clean, dict_get, Bool, true, false, not, ◌&&◌, ◌||◌, Option,
  none, some, List, [], ◌∷◌, if◌then◌else◌,
}
use gitlab_pages_mirror.Http.{Request, get_host_without_port, host_from_request, is_https}
use gitlab_pages_mirror.Responses.{
  Response, serve_error_page, page502, page503, http_redirect, http_error, write, add_header,
}
use gitlab_pages_mirror.Serving.Handlers.{ServingOps}
use gitlab_pages_mirror.Source.Api.{ApiError, domain_does_not_exist}
use gitlab_pages_mirror.Domain.Serve.{
  Domain, is_https_only, is_access_control_enabled, is_namespace_project, has_lookup_path,
  serve_file_http, serve_not_found_http, serve_not_found_auth_failed,
}

-- A handler that ends with true when it has answered.
abbrev pub Trial : Type 0
Trial = Request → Response → Bool × Response

abbrev pub Endpoint : Type 0
Endpoint = Request → Response → Response

-- The methods of auth.Auth and handlers.Handlers that the pipeline calls.
pub record AuthOps : Type 0 where
  pub try_authenticate : Trial
  pub check_authentication : Option Domain → Trial
  pub check_authentication_without_project : Option Domain → Trial
  pub handle_artifact_request : Text → Trial

-- The configuration that the pipeline reads, with the state of the domain sources, the answers of
-- GetDomain, the ACME redirect (none when its GitLab URL does not parse) and the CORS handler.
pub record App : Type 0 where
  pub redirect_http : Bool
  pub disable_cross_origin_requests : Bool
  pub status_path : Text
  pub custom_headers : List (Text × Text)
  pub is_ready : Bool
  pub get_domain : Text → Option Domain × Option ApiError
  pub has_acme : Bool
  pub acme_url : Text → Text → Option Text
  pub cors : Endpoint → Endpoint
  -- url.URL.String of the URL of a request, with another scheme and host
  pub url_string : Text → Text → Request → Text
  pub auth : AuthOps
  pub serving : ServingOps

-- Runs the next handler unless the trial has answered.
abbrev pub or_else : Bool × Response → (Response → Response) → Response
or_else (true, w) next = w
or_else (false, w) next = next w

-- isAcmeChallenge
unfoldable pub is_acme_challenge : Text → Bool
unfolding clean has_prefix
is_acme_challenge path = has_prefix (clean path) (codes "/.well-known/acme-challenge/")

accepted_methods : List Text
accepted_methods =
    codes "GET"
    ∷ codes "HEAD"
    ∷ codes "POST"
    ∷ codes "PUT"
    ∷ codes "PATCH"
    ∷ codes "DELETE"
    ∷ codes "CONNECT"
    ∷ codes "OPTIONS"
    ∷ codes "TRACE"
    ∷ []

among : List Text → Text → Bool
unfolding text_eq
among [] s = false
among (t ∷ ts) s = text_eq t s || among ts s

-- acceptedMethods[r.Method]
unfoldable pub is_accepted : Text → Bool
unfolding accepted_methods among
is_accepted method = among accepted_methods method

-- AddCustomHeaders, with the pairs of the map in some order.
unfoldable pub add_custom_headers : List (Text × Text) → Response → Response
add_custom_headers [] w = w
add_custom_headers ((k, v) ∷ rest) w = add_custom_headers rest (add_header k v ∷ w)

module _ (app : App) where
  -- redirectToHTTPS
  unfoldable pub redirect_to_https : ℕ → Endpoint
  redirect_to_https status r w = http_redirect (app.url_string (codes "https") r.host r) status ∷ w

  unfoldable pub health_check : Response → Response
  health_check w =
      if app.is_ready
      then write (codes "success\n") ∷ w
      else http_error (codes "not yet ready") 503 ∷ w

  -- ServeAcmeChallenges with redirectToGitlab, on the handler it stands before.
  unfoldable pub serve_acme_challenges : Option Domain → Trial
  unfolding is_acme_challenge serve_file_http host_from_request
  serve_acme_challenges d r w =
      if not app.has_acme
      then (false, w)
      else if not (is_acme_challenge r.path)
      then (false, w)
      else let (served, w') = serve_file_http app.serving d r w in
        elim served [
          | true ↦ (false, w')
          | false ↦ elim (app.acme_url (host_from_request r) r.path) [
            | none ↦ (false, w')
            | some url ↦ (true, http_redirect url 307 ∷ w')
          ]
        ]

  unfoldable pub check_auth_and_serve_not_found : Option Domain → Trial
  unfolding serve_not_found_auth_failed
  check_auth_and_serve_not_found d r w = (
    true,
    or_else (app.auth.check_authentication_without_project d r w)
        (serve_not_found_auth_failed app.serving d r),
  )

  -- The end of tryAuxiliaryHandlers, once the sources are ready.
  unfoldable pub try_redirects : Bool → Option Domain → Trial
  unfolding has_lookup_path check_auth_and_serve_not_found is_https_only redirect_to_https
  try_redirects https d r w =
      if not (has_lookup_path d r)
      then check_auth_and_serve_not_found d r w
      else if not https && is_https_only d r
      then (true, redirect_to_https 301 r w)
      else (false, w)

  unfoldable pub try_auxiliary_handlers : Bool → Text → Option Domain → Trial
  unfolding try_redirects redirect_to_https serve_error_page
  try_auxiliary_handlers https host d r w =
      if not https && app.redirect_http
      then (true, redirect_to_https 307 r w)
      else let (handled, w') = app.auth.handle_artifact_request host r w in
        elim handled [
          | true ↦ (true, w')
          | false ↦
              if not app.is_ready
              then (true, serve_error_page page503 w')
              else try_redirects https d r w'
        ]

  unfoldable pub serve_file_or_not_found : Option Domain → Endpoint
  unfolding serve_file_http is_namespace_project serve_not_found_http
  serve_file_or_not_found d r w = or_else (serve_file_http app.serving d r w) (λ w'.
      if is_namespace_project d r
      then or_else (app.auth.check_authentication_without_project d r w')
          (serve_not_found_http app.serving d r)
      else serve_not_found_http app.serving d r w')

  unfoldable pub cors_middleware : Endpoint → Endpoint
  cors_middleware next = if app.disable_cross_origin_requests then next else app.cors next

  unfoldable pub access_control_middleware : Option Domain → Endpoint → Endpoint
  unfolding is_access_control_enabled
  access_control_middleware d next r w =
      if is_access_control_enabled d r
      then or_else (app.auth.check_authentication d r w) (next r)
      else next r w

  unfoldable pub auxiliary_middleware : Text → Option Domain → Endpoint → Endpoint
  unfolding try_auxiliary_handlers is_https
  auxiliary_middleware host d next r w =
      or_else (try_auxiliary_handlers (is_https r) host d r w) (next r)

  unfoldable pub auth_middleware : Endpoint → Endpoint
  auth_middleware next r w = or_else (app.auth.try_authenticate r w) (next r)

  unfoldable pub acme_middleware : Option Domain → Endpoint → Endpoint
  unfolding serve_acme_challenges
  acme_middleware d next r w = or_else (serve_acme_challenges d r w) (next r)

  -- The handlers behind routingMiddleware, for the host and the domain that it puts into the
  -- context of the request.
  unfoldable pub routed : Text → Option Domain → Endpoint
  unfolding acme_middleware auth_middleware auxiliary_middleware access_control_middleware
      cors_middleware serve_file_or_not_found
  routed host d = acme_middleware d (
      auth_middleware (
        auxiliary_middleware host d
          (access_control_middleware d (cors_middleware (serve_file_or_not_found d)))))

  unfoldable pub routing_middleware : (Text → Option Domain → Endpoint) → Endpoint
  unfolding get_host_without_port serve_error_page
  routing_middleware next r w =
      let host = get_host_without_port r in
      let (d, error) = app.get_domain host in
      elim error [
        | none ↦ next host d r w
        | some domain_does_not_exist ↦ next host d r w
        | some _ ↦ serve_error_page page502 w
      ]

  unfoldable pub health_check_middleware : Endpoint → Endpoint
  unfolding health_check text_eq
  health_check_middleware next r w =
      if text_eq r.request_uri app.status_path then health_check w else next r w

  unfoldable pub custom_headers_middleware : Endpoint → Endpoint
  unfolding add_custom_headers
  custom_headers_middleware next r w = next r (add_custom_headers app.custom_headers w)

  -- buildHandlerPipeline
  unfoldable pub pipeline : Endpoint
  unfolding is_accepted custom_headers_middleware health_check_middleware routing_middleware routed
  pipeline r w =
      if is_accepted r.method
      then custom_headers_middleware (health_check_middleware (routing_middleware routed)) r w
      else http_error (codes "Method Not Allowed") 405 ∷ w

-- setRequestScheme and httpInitialMiddleware: the request with its scheme.
abbrev with_scheme : Text → Request → Request
with_scheme scheme r = record {
  method = r.method;
  host = r.host;
  scheme = scheme;
  path = r.path;
  request_uri = r.request_uri;
  query = r.query;
  headers = r.headers;
  tls = r.tls;
}

unfoldable pub set_request_scheme : Request → Request
unfolding text_eq
set_request_scheme r =
    with_scheme (if text_eq r.scheme (codes "https") || r.tls then codes "https" else codes "http")
      r

abbrev with_host : Text → Request → Request
with_host host r = record {
  method = r.method;
  host = host;
  scheme = r.scheme;
  path = r.path;
  request_uri = r.request_uri;
  query = r.query;
  headers = r.headers;
  tls = r.tls;
}

-- proxyInitialMiddleware on the request.
unfoldable pub set_forwarded_host : Request → Request
unfolding dict_get
set_forwarded_host r = elim (dict_get r.headers (codes "X-Forwarded-Host")) [
  | none ↦ r
  | some [] ↦ r
  | some (c ∷ host) ↦ with_host (c ∷ host) r
]
