-- ===== src/App/Guarded.antt =====
-- app.go with internal/auth: the pipeline over the implementation of the check.
use gitlab_pages_mirror.Common.{
  Text, true, false, ◌≡◌, refl, ap, ◌∙◌, Option, none, some, Bool-cases, inl, inr,
}
use gitlab_pages_mirror.Http.{Request}
use gitlab_pages_mirror.Responses.{Response}
use gitlab_pages_mirror.Serving.Handlers.{ServingOps}
use gitlab_pages_mirror.Domain.Serve.{
  Domain, get_project_id, is_access_control_enabled, serve_not_found_auth_failed,
}
use gitlab_pages_mirror.Auth.Sessions.{Auth}
use gitlab_pages_mirror.Auth.Checks.{
  DomainOps, IsAllowed, check_authentication_iff, check_authentication, check_with_project,
  check_without_project,
}
use gitlab_pages_mirror.App.Pipeline.{App, is_acme_challenge, routed}
use gitlab_pages_mirror.App.Access.{
  AgreeOpenly, with_serving, auth_failed_same, protected_not_served,
}

-- A domain as the interface of package auth has it.
abbrev pub domain_ops : ServingOps → Option Domain → DomainOps
domain_ops ops d = record {
  get_project_id = get_project_id d;
  serve_not_found_auth_failed = serve_not_found_auth_failed ops d;
}

-- The daemon with its checks done by package auth, on what it knows of a domain.
abbrev with_checks : Option Auth → (Option Domain → DomainOps) → App → App
with_checks a ops app = record {
  redirect_http = app.redirect_http;
  disable_cross_origin_requests = app.disable_cross_origin_requests;
  status_path = app.status_path;
  custom_headers = app.custom_headers;
  is_ready = app.is_ready;
  get_domain = app.get_domain;
  has_acme = app.has_acme;
  acme_url = app.acme_url;
  cors = app.cors;
  url_string = app.url_string;
  auth = record {
    try_authenticate = app.auth.try_authenticate;
    check_authentication = λ d. check_with_project a (ops d);
    check_authentication_without_project = λ d. check_without_project a (ops d);
    handle_artifact_request = app.auth.handle_artifact_request;
  };
  serving = app.serving;
}

abbrev pub with_auth : Option Auth → App → App
with_auth a app = with_checks a (domain_ops app.serving) app

check_with_project_denied :
    (a : Option Auth) (d : DomainOps) (r : Request) (w : Response)
    → ((b : Auth) → a ≡ some b → ¬ IsAllowed b d r)
    → (check_with_project a d r w).0 ≡ true
unfolding check_with_project
check_with_project_denied none d r w h = refl
check_with_project_denied (some b) d r w h = elim (Bool-cases (check_authentication b d r w).0) [
  | inl e ↦ e
  | inr e ↦ absurd (h b refl ((check_authentication_iff b d r w).0 e))
]

domain_ops_same : (f g : ServingOps) → AgreeOpenly f g → domain_ops f ≡ domain_ops g
domain_ops_same f g agree = λ i d. record {
  get_project_id = get_project_id d;
  serve_not_found_auth_failed = λ r w. auth_failed_same f g d r w agree i;
}

-- The servings of two daemons agree but for protected projects. A visitor without a session whose
-- token the API accepts for the project, or any visitor when authentication is not configured, gets
-- the same answer of both on a project with access control, unless the path is an ACME challenge.
pub stranger_not_served :
    (a : Option Auth) (app : App) (f g : ServingOps) (host : Text) (d : Option Domain) (r : Request)
    (w : Response)
    → AgreeOpenly f g
    → is_acme_challenge r.path ≡ false
    → is_access_control_enabled d r ≡ true
    → ((b : Auth) → a ≡ some b → ¬ IsAllowed b (domain_ops f d) r)
    → routed (with_auth a (with_serving f app)) host d r w
      ≡ routed (with_auth a (with_serving g app)) host d r w
stranger_not_served a app f g host d r w agree not_acme enabled stranger =
    protected_not_served (with_auth a (with_serving f app)) f g agree host d r not_acme w enabled
      (λ w'. check_with_project_denied a (domain_ops f d) r w' stranger)
    ∙ ap (λ ops. routed (with_checks a ops (with_serving g app)) host d r w)
        (domain_ops_same f g agree)
