-- ===== src/App/Access.antt =====
-- app.go: two daemons whose servings differ in protected projects, and the requests to which they
-- answer alike.
use gitlab_pages_mirror.Common.{
  ap, codes, some, none, ok, not, ◌&&◌, if◌then◌else◌, Result-cases, Text, Bool, true, false,
  Option, ◌≡◌, refl, Bool-cases, inl, inr, arith,
}
use gitlab_pages_mirror.Http.{Request, is_https}
use gitlab_pages_mirror.Responses.{Response}
use gitlab_pages_mirror.Serving.Requests.{Serving, ServingRequest}
use gitlab_pages_mirror.Serving.Handlers.{ServingOps, Handler, handler_of, forward_not_found}
use gitlab_pages_mirror.Domain.Serve.{
  serve_file_http, Domain, resolve, get_lookup_path, is_namespace_project, with_path, is_https_only,
  is_access_control_enabled, serve_file_http, serve_not_found_http, serve_namespace_not_found,
  serve_not_found_auth_failed,
}
use gitlab_pages_mirror.App.Pipeline.{
  App, Endpoint, or_else, is_acme_challenge, serve_acme_challenges, acme_middleware,
  auth_middleware, auxiliary_middleware, access_control_middleware, cors_middleware,
  serve_file_or_not_found, try_auxiliary_handlers, try_redirects, check_auth_and_serve_not_found,
  routed, redirect_to_https,
}

same_if {ℓ} :
    {A : Type ℓ} (b : Bool) (x y z v : A)
    → (b ≡ true → x ≡ y)
    → z ≡ v
    → (if b then x else z) ≡ (if b then y else v)
same_if true x y z v h k = h refl
same_if false x y z v h k = k

-- Two servings that differ at most in what they make of a protected project: its files and its own
-- page for what is not found.
pub record AgreeOpenly (f g : ServingOps) : Type 0 where
  pub serve_file :
      (s : Serving) (h : Handler) (w : Response)
      → h.lookup_path.has_access_control ≡ false
      → f.serve_file s h w ≡ g.serve_file s h w
  pub serve_not_found :
      (s : Serving) (h : Handler) (w : Response)
      → h.lookup_path.has_access_control ≡ false
      → f.serve_not_found s h w ≡ g.serve_not_found s h w

not_found_same :
    (f g : ServingOps) (d : Domain) (r : Request) (w : Response) (s : ServingRequest)
    → AgreeOpenly f g
    → d.resolver r ≡ ok s
    → s.lookup_path.has_access_control ≡ false
    → serve_not_found_http f (some d) r w ≡ serve_not_found_http g (some d) r w
unfolding serve_not_found_http resolve forward_not_found
not_found_same f g d r w s agree h p =
    rw (h, serve_not_found_http) (agree.serve_not_found s.serving (handler_of s r) w p)

namespace_same :
    (f g : ServingOps) (d : Domain) (r : Request) (w : Response)
    → AgreeOpenly f g
    → serve_namespace_not_found f d r w ≡ serve_namespace_not_found g d r w
unfolding serve_namespace_not_found forward_not_found
namespace_same f g d r w agree = elim (Result-cases (d.resolver (with_path (codes "/") r))) [
  | inr (e, h) ↦ rw (h, serve_namespace_not_found) refl
  | inl (s, h) ↦
      rw (h, serve_namespace_not_found)
        (same_if (not s.lookup_path.has_access_control) _ _ _ _
          (λ p. agree.serve_not_found s.serving (handler_of s r) w (ground arith)) refl)
]

-- What a visitor sees after an authentication that failed.
pub auth_failed_same :
    (f g : ServingOps) (d : Option Domain) (r : Request) (w : Response)
    → AgreeOpenly f g
    → serve_not_found_auth_failed f d r w ≡ serve_not_found_auth_failed g d r w
unfolding serve_not_found_auth_failed get_lookup_path resolve
auth_failed_same f g none r w agree = refl
auth_failed_same f g (some d) r w agree = elim (Result-cases (d.resolver r)) [
  | inr (e, h) ↦ rw (h, serve_not_found_auth_failed) refl
  | inl (s, h) ↦
      rw (h, serve_not_found_auth_failed)
        (same_if (is_namespace_project (some d) r && not s.lookup_path.has_access_control) _ _ _ _
          (λ p. not_found_same f g d r w s agree h (ground arith)) (namespace_same f g d r w agree))
]

-- The same daemon with another serving of files.
abbrev pub with_serving : ServingOps → App → App
with_serving ops app = record {
  redirect_http = app.redirect_http;
  disable_cross_origin_requests = app.disable_cross_origin_requests;
  status_path = app.status_path;
  custom_headers = app.custom_headers;
  is_ready = app.is_ready;
  get_domain = app.get_domain;
  has_acme = app.has_acme;
  acme_url = app.acme_url;
  cors = app.cors;
  url_string = app.url_string;
  auth = app.auth;
  serving = ops;
}

or_else_same :
    (t : Bool × Response) (m n : Response → Response)
    → ((w : Response) → m w ≡ n w)
    → or_else t m ≡ or_else t n
or_else_same (true, w) m n h = refl
or_else_same (false, w) m n h = h w

or_else_answered :
    (t : Bool × Response) (m n : Response → Response) → t.0 ≡ true → or_else t m ≡ or_else t n
or_else_answered (true, w) m n h = refl
or_else_answered (false, w) m n h = ground arith

module _ (app : App) (f g : ServingOps) (agree : AgreeOpenly f g) (host : Text) (d : Option Domain)
    (r : Request) (not_acme : is_acme_challenge r.path ≡ false) where
  acme_same :
      (m n : Endpoint) (w : Response)
      → ((w' : Response) → m r w' ≡ n r w')
      → acme_middleware (with_serving f app) d m r w ≡ acme_middleware (with_serving g app) d n r w
  unfolding acme_middleware serve_acme_challenges
  acme_same m n w h = elim (Bool-cases app.has_acme) [
    | inl a ↦ rw (a, not_acme) (h w)
    | inr a ↦ rw a (h w)
  ]

  -- The handlers behind that for the authentication callback.
  abbrev inner : App → Endpoint
  inner a =
      auxiliary_middleware a host d
        (access_control_middleware a d (cors_middleware a (serve_file_or_not_found a d)))

  -- The two daemons agree behind the ACME handler when they agree behind the handler for the
  -- authentication callback.
  front_same :
      (w : Response)
      → ((w' : Response) → inner (with_serving f app) r w' ≡ inner (with_serving g app) r w')
      → routed (with_serving f app) host d r w ≡ routed (with_serving g app) host d r w
  unfolding routed auth_middleware
  front_same w h =
      acme_same (auth_middleware (with_serving f app) (inner (with_serving f app)))
        (auth_middleware (with_serving g app) (inner (with_serving g app))) w
        (λ w'. or_else_same (app.auth.try_authenticate r w') _ _ h)

  aux_same :
      (w : Response)
      → try_auxiliary_handlers (with_serving f app) (is_https r) host d r w
        ≡ try_auxiliary_handlers (with_serving g app) (is_https r) host d r w
  unfolding try_auxiliary_handlers try_redirects redirect_to_https check_auth_and_serve_not_found
  aux_same w =
      let same : serve_not_found_auth_failed f d r ≡ serve_not_found_auth_failed g d r =
        λ i w'. auth_failed_same f g d r w' agree i in
      ground (arith, same)

  insecure_answered :
      (w : Response)
      → is_https_only d r ≡ true
      → is_https r ≡ false
      → (try_auxiliary_handlers (with_serving g app) (is_https r) host d r w).0 ≡ true
  unfolding try_auxiliary_handlers try_redirects check_auth_and_serve_not_found redirect_to_https
  insecure_answered w only insecure = ground arith

  -- The files of projects with access control play no part in the answer to a request for one that
  -- the check of the authentication does not let through, unless the path is an ACME challenge.
  pub protected_not_served :
      (w : Response)
      → is_access_control_enabled d r ≡ true
      → ((w' : Response) → (app.auth.check_authentication d r w').0 ≡ true)
      → routed (with_serving f app) host d r w ≡ routed (with_serving g app) host d r w
  unfolding auxiliary_middleware access_control_middleware
  protected_not_served w enabled denied = front_same w (λ w'. rw (aux_same w') (
      or_else_same (try_auxiliary_handlers (with_serving g app) (is_https r) host d r w') _ _
        (λ w''.
          rw enabled (or_else_answered (app.auth.check_authentication d r w'') _ _ (denied w'')))))

  -- The files of projects with access control play no part in the answer to a request over HTTP for
  -- a project that wants HTTPS, unless the path is an ACME challenge.
  pub insecure_not_served :
      (w : Response)
      → is_https_only d r ≡ true
      → is_https r ≡ false
      → routed (with_serving f app) host d r w ≡ routed (with_serving g app) host d r w
  unfolding auxiliary_middleware try_auxiliary_handlers try_redirects redirect_to_https
      check_auth_and_serve_not_found
  insecure_not_served w only insecure = front_same w (λ w'. rw (aux_same w') (
      or_else_answered (try_auxiliary_handlers (with_serving g app) (is_https r) host d r w') _ _
        (insecure_answered w' only insecure)))

-- The same daemon without the handler for ACME challenges.
abbrev pub without_acme : App → App
without_acme app = record app { has_acme = false }

-- A challenge that the domain answers, by a file or by an error page, is answered before the rest of
-- the pipeline runs, with its callback, its redirect to HTTPS and its access control: the response is
-- what the domain served, and on top of that all that the daemon without the handler for ACME
-- challenges does.
pub acme_served :
    (app : App) (host : Text) (d : Option Domain) (r : Request) (w w' : Response)
    → app.has_acme ≡ true
    → is_acme_challenge r.path ≡ true
    → serve_file_http app.serving d r w ≡ (true, w')
    → routed app host d r w ≡ routed (without_acme app) host d r w'
unfolding routed acme_middleware serve_acme_challenges auth_middleware auxiliary_middleware
    access_control_middleware cors_middleware serve_file_or_not_found try_auxiliary_handlers
    try_redirects check_auth_and_serve_not_found redirect_to_https
acme_served app host d r w w' acme challenge served =
    rw (acme, challenge, ap (λ t. t.0) served)
      (ap
        (λ (t : Bool × Response).
          auth_middleware app
            (auxiliary_middleware app host d (
              access_control_middleware app d
                (cors_middleware app (serve_file_or_not_found app d))))
            r t.1)
        served)
