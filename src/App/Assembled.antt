-- ===== src/App/Assembled.antt =====
-- runApp and setAuth of app.go: the daemon with its parts put together. An error that ends the
-- process is none. The MIME types and the file system of archives are set up elsewhere.
use gitlab_pages_mirror.Common.{
  Text, Bool, true, false, ◌≡◌, Option, none, some, List, [], ◌∷◌, Dict, is_some, subst, ap, sym,
  ◌∙◌, if◌then◌else◌, not,
}
use gitlab_pages_mirror.Http.{Request}
use gitlab_pages_mirror.Responses.{Response}
use gitlab_pages_mirror.Serving.Handlers.{ServingOps}
use gitlab_pages_mirror.Source.Api.{ApiError}
use gitlab_pages_mirror.Domain.Serve.{Domain, is_access_control_enabled}
use gitlab_pages_mirror.Auth.Sessions.{Auth}
use gitlab_pages_mirror.Auth.Callbacks.{try_authenticate}
use gitlab_pages_mirror.Auth.Checks.{IsAllowed}
use gitlab_pages_mirror.Auth.Keys.{AuthLibrary, AuthSettings, new_auth}
use gitlab_pages_mirror.Artifact.{ArtifactLibrary, Artifact, new_artifact}
use gitlab_pages_mirror.Artifact.Handlers.{handle_artifact_request}
use gitlab_pages_mirror.Config.Flags.{parse_header_string}
use gitlab_pages_mirror.App.Pipeline.{App, Endpoint, is_acme_challenge, routed}
use gitlab_pages_mirror.App.Access.{AgreeOpenly}
use gitlab_pages_mirror.App.Guarded.{with_auth, domain_ops, stranger_not_served}

-- The settings that runApp reads.
pub record AppConfig : Type 0 where
  pub redirect_http : Bool
  pub disable_cross_origin_requests : Bool
  pub status_path : Text
  pub custom_headers : List Text
  pub artifacts_server_url : Text
  pub gitlab_server : Text
  pub auth : AuthSettings

-- What the parts take from elsewhere: the sources of domains, the redirect of ACME challenges, the
-- CORS handler, URLs, the servings, the libraries of the artifacts and of the authentication.
pub record Environment : Type 1 where
  pub is_ready : Bool
  pub get_domain : Text → Option Domain × Option ApiError
  pub acme_url : Text → Text → Option Text
  pub cors : Endpoint → Endpoint
  pub url_string : Text → Text → Request → Text
  pub serving : ServingOps
  pub artifacts : ArtifactLibrary
  pub auth_library : AuthLibrary

abbrev is_empty : Text → Bool
is_empty [] = true
is_empty (c ∷ s) = false

abbrev configured : Option Auth → Option (Option Auth)
configured none = none
configured (some a) = some (some a)

-- setAuth: no Auth without a client id.
unfoldable pub set_auth : Environment → AppConfig → Option (Option Auth)
unfolding new_auth
set_auth env cfg =
    if is_empty cfg.auth.client_id
    then some none
    else configured (new_auth env.auth_library cfg.auth)

unfoldable pub set_artifact : AppConfig → Option Artifact
unfolding new_artifact
set_artifact cfg =
    if is_empty cfg.artifacts_server_url
    then none
    else some (new_artifact cfg.artifacts_server_url cfg.auth.pages_domain)

-- The headers of the map one by one, as AddCustomHeaders adds them.
abbrev header_values : Text → List Text → List (Text × Text) → List (Text × Text)
header_values k [] rest = rest
header_values k (v ∷ vs) rest = (k, v) ∷ header_values k vs rest

abbrev header_pairs : Dict (List Text) → List (Text × Text)
header_pairs [] = []
header_pairs ((k, vs) ∷ m) = header_values k vs (header_pairs m)

-- GetDomain as package auth asks it: whether there is a domain, and an error.
abbrev found : Option Domain × Option ApiError → Bool × Bool
found (d, e) = (is_some d, is_some e)

-- The handlers of the packages auth and handlers behind the pipeline, but for the check, which
-- with_auth adds.
unfoldable pub unchecked : Environment → AppConfig → Option Auth → List (Text × Text) → App
unfolding try_authenticate handle_artifact_request set_artifact
unchecked env cfg a headers = record {
  redirect_http = cfg.redirect_http;
  disable_cross_origin_requests = cfg.disable_cross_origin_requests;
  status_path = cfg.status_path;
  custom_headers = headers;
  is_ready = env.is_ready;
  get_domain = env.get_domain;
  has_acme = not (is_empty cfg.gitlab_server);
  acme_url = env.acme_url;
  cors = env.cors;
  url_string = env.url_string;
  auth = record {
    try_authenticate = try_authenticate a (λ name. found (env.get_domain name));
    check_authentication = λ d r w. (true, w);
    check_authentication_without_project = λ d r w. (true, w);
    handle_artifact_request = handle_artifact_request env.artifacts a (set_artifact cfg);
  };
  serving = env.serving;
}

abbrev assembled :
    Environment → AppConfig → Option (Option Auth) → Option (Dict (List Text)) → Option App
assembled env cfg none headers = none
assembled env cfg (some a) none = none
assembled env cfg (some a) (some headers) =
    some (with_auth a (unchecked env cfg a (header_pairs headers)))

-- runApp, up to Run.
unfoldable pub run_app : Environment → AppConfig → Option App
unfolding set_auth unchecked parse_header_string
run_app env cfg = assembled env cfg (set_auth env cfg) (parse_header_string cfg.custom_headers)

some_injective {ℓ} : {A : Type ℓ} {x y : A} → some x ≡ some y → x ≡ y
some_injective h = cc

abbrev pub with_files : ServingOps → Environment → Environment
with_files f env = record env { serving = f }

assembled_protects :
    (env : Environment) (cfg : AppConfig) (a : Option Auth) (headers : Option (Dict (List Text)))
    (app app' : App) (f g : ServingOps) (host : Text) (d : Option Domain) (r : Request)
    (w : Response)
    → assembled (with_files f env) cfg (some a) headers ≡ some app
    → assembled (with_files g env) cfg (some a) headers ≡ some app'
    → AgreeOpenly f g
    → is_acme_challenge r.path ≡ false
    → is_access_control_enabled d r ≡ true
    → ((b : Auth) → a ≡ some b → ¬ IsAllowed b (domain_ops f d) r)
    → routed app host d r w ≡ routed app' host d r w
unfolding unchecked
assembled_protects env cfg a none app app' f g host d r w h k agree not_acme enabled stranger = cc
assembled_protects env cfg a (some headers) app app' f g host d r w h k agree not_acme enabled
      stranger =
    let base = unchecked env cfg a (header_pairs headers) in
    ap (λ (x : App). routed x host d r w) (sym (some_injective h))
    ∙ stranger_not_served a base f g host d r w agree not_acme enabled stranger
    ∙ ap (λ (x : App). routed x host d r w) (some_injective k)

-- Two daemons as runApp puts them together, with its own handlers for authentication, callbacks and
-- artifacts, from one configuration and from servings that agree but for the projects with access
-- control, which may differ in their files and their own 404 pages. On a project with access
-- control, a visitor without a session whose token the API accepts for the project, or any visitor
-- when authentication is not configured, gets the same answer of both, unless the path is an ACME
-- challenge.
pub run_app_protects :
    (env : Environment) (cfg : AppConfig) (a : Option Auth) (app app' : App) (f g : ServingOps)
    (host : Text) (d : Option Domain) (r : Request) (w : Response)
    → set_auth env cfg ≡ some a
    → run_app (with_files f env) cfg ≡ some app
    → run_app (with_files g env) cfg ≡ some app'
    → AgreeOpenly f g
    → is_acme_challenge r.path ≡ false
    → is_access_control_enabled d r ≡ true
    → ((b : Auth) → a ≡ some b → ¬ IsAllowed b (domain_ops f d) r)
    → routed app host d r w ≡ routed app' host d r w
unfolding run_app set_auth
run_app_protects env cfg a app app' f g host d r w set h k =
    let headers = parse_header_string cfg.custom_headers in
    assembled_protects env cfg a headers app app' f g host d r w
      (subst (λ o. assembled (with_files f env) cfg o headers ≡ some app) set h)
      (subst (λ o. assembled (with_files g env) cfg o headers ≡ some app') set k)
