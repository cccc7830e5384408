-- ===== src/App/Tests.antt =====
-- The pipeline of app.go on small inputs.
use gitlab_pages_mirror.Common.{
  ap, if◌then◌else◌, sym, dict_get, arith, Text, codes, true, false, Option, none, some, [], ◌∷◌,
  ◌++◌, ok, ◌≡◌, refl,
}
use gitlab_pages_mirror.Http.{Request}
use gitlab_pages_mirror.Responses.{write, serve_error_page, page404, write_header}
use gitlab_pages_mirror.Serving.Requests.{Serving, ServingRequest}
use gitlab_pages_mirror.Serving.Handlers.{ServingOps}
use gitlab_pages_mirror.Domain.Serve.{serve_file_http, Domain, is_access_control_enabled}
use gitlab_pages_mirror.App.Pipeline.{App, AuthOps, routed, is_acme_challenge}
use gitlab_pages_mirror.App.Guarded.{domain_ops}
use gitlab_pages_mirror.App.Assembled.{
  AppConfig, Environment, set_auth, run_app, with_files, run_app_protects,
}
use gitlab_pages_mirror.Auth.Sessions.{Auth, replied}
use gitlab_pages_mirror.Auth.Codes.{CodeCrypto}
use gitlab_pages_mirror.Auth.Keys.{AuthLibrary}
use gitlab_pages_mirror.Auth.Checks.{IsAllowed}
use gitlab_pages_mirror.App.Access.{AgreeOpenly, without_acme, acme_served}

abbrev denying : AuthOps
denying = record {
  try_authenticate = λ r w. (false, w);
  check_authentication = λ d r w. (true, serve_error_page page404 w);
  check_authentication_without_project = λ d r w. (true, serve_error_page page404 w);
  handle_artifact_request = λ host r w. (false, w);
}

abbrev daemon : App
daemon = record {
  redirect_http = false;
  disable_cross_origin_requests = true;
  status_path = codes "/-/health";
  custom_headers = [];
  is_ready = true;
  get_domain = λ host. (none, none);
  has_acme = true;
  acme_url = λ host path. none;
  cors = λ next. next;
  url_string = λ scheme host r. host;
  auth = denying;
  serving = record {
    serve_file = λ s h w. (true, write (codes "file") ∷ w);
    serve_not_found = λ s h w. write_header 404 ∷ w;
  };
}

abbrev request : Text → Request
request path = record {
  method = codes "GET";
  host = codes "group.io";
  scheme = codes "http";
  path = path;
  request_uri = path;
  query = [];
  headers = [];
  tls = false;
}

abbrev project : ServingRequest
project = record {
  serving = Serving.local;
  lookup_path = record {
    serving_type = codes "file";
    prefix = codes "/";
    path = codes "group/a/public/";
    is_namespace_project = false;
    is_https_only = true;
    has_access_control = true;
    project_id = 4;
  };
  sub_path = [];
}

abbrev group_domain : Option Domain
group_domain = some (record { name = codes "group.io"; resolver = λ r. ok project })

not_challenge : is_acme_challenge (codes "/a") ≡ false
unfolding is_acme_challenge
not_challenge = refl

challenge : is_acme_challenge (codes "/.well-known/acme-challenge/t") ≡ true
unfolding is_acme_challenge
challenge = refl

-- A daemon with authentication, and a visitor without a session.
never_signed : {A : Type 0} {x : A} → none ≡ some x → ⊥
never_signed h = cc

-- Cryptography that signs nothing.
abbrev no_crypto : CodeCrypto
no_crypto = record {
  Aead = Text;
  derive = λ secret domain. some (secret ++ domain);
  cipher = λ key nonce. some key;
  seal = λ c nonce s. s;
  open_sealed = λ c nonce s. some s;
  hex_encode = λ s. s;
  hex_decode = λ s. some s;
  sign = λ key claims. none;
  parse = λ now key token. none;
  open-seal = λ c nonce s. refl;
  hex_decode-encode = λ s. refl;
  parse-sign = λ now key token claims h. absurd (never_signed h);
}

abbrev library : AuthLibrary
library = record {
  expand = λ secret. secret ++ secret;
  store_get = λ hash_key block_key r. ([], false);
  store_save = λ hash_key block_key session. true;
  new_state = codes "n";
  host_of_url = λ url. none;
  api_get = λ url token. replied (record { status = 200; error = none });
  api_token = λ server code. none;
  encode_query = λ query. [];
  crypto = no_crypto;
  nonce = codes "n";
  now = 5;
}

abbrev environment : Environment
environment = record {
  is_ready = true;
  get_domain = daemon.get_domain;
  acme_url = daemon.acme_url;
  cors = λ next. next;
  url_string = daemon.url_string;
  serving = daemon.serving;
  artifacts = record {
    path_escape = λ s. s;
    parses = λ s. true;
    request_fits = λ s. true;
    send = λ url token. none;
  };
  auth_library = library;
}

abbrev config : AppConfig
config = record {
  redirect_http = false;
  disable_cross_origin_requests = true;
  status_path = codes "/@status";
  custom_headers = codes "X-A: 1" ∷ [];
  artifacts_server_url = codes "http://gitlab/api/v4";
  gitlab_server = codes "http://gitlab";
  auth = record {
    pages_domain = codes "g.io";
    store_secret = codes "a secret of fifty bytes, so that two of it are enough";
    client_id = codes "id";
    client_secret = codes "secret";
    redirect_uri = codes "http://p.g.io/auth";
    gitlab_server = codes "http://gitlab";
    auth_scope = codes "api";
  };
}

abbrev value_or : {A : Type 0} → A → Option A → A
value_or a none = a
value_or a (some b) = b

abbrev assembled_auth : Option Auth
assembled_auth = value_or none (set_auth environment config)

abbrev assembled_daemon : App
assembled_daemon = value_or daemon (run_app environment config)

no_session :
    (b : Auth) → assembled_auth ≡ some b → b.get_session (request (codes "/a")) ≡ ([], false)
unfolding set_auth
no_session b e =
    ap (λ o. elim o [ some c ↦ c.get_session (request (codes "/a")) | none ↦ ([], false) ]) (sym e)

-- What a serving makes of a protected project, and what it makes of any other.
abbrev serving_with : Text → ServingOps
serving_with secret = record {
  serve_file = λ s h w.
      if h.lookup_path.has_access_control
      then (true, write secret ∷ w)
      else (true, write (codes "page") ∷ w);
  serve_not_found = λ s h w. if h.lookup_path.has_access_control then write secret ∷ w else w;
}

stranger_not-IsAllowed :
    (b : Auth)
    → assembled_auth ≡ some b
    → ¬ IsAllowed b (domain_ops (serving_with (codes "one")) group_domain) (request (codes "/a"))
unfolding dict_get
stranger_not-IsAllowed b e i = ground (arith, no_session b e, i.fresh, i.kept)

serving_with-agrees : (s t : Text) → AgreeOpenly (serving_with s) (serving_with t)
serving_with-agrees s t = record {
  serve_file = λ k h w e. rw e refl;
  serve_not_found = λ k h w e. rw e refl;
}

abbrev daemon_with : Text → App
daemon_with secret = value_or daemon (run_app (with_files (serving_with secret) environment) config)

run_app_protects_example :
    routed (daemon_with (codes "one")) (codes "group.io") group_domain (request (codes "/a")) []
    ≡ routed (daemon_with (codes "two")) (codes "group.io") group_domain (request (codes "/a")) []
run_app_protects_example =
    run_app_protects environment config assembled_auth (daemon_with (codes "one"))
      (daemon_with (codes "two")) (serving_with (codes "one")) (serving_with (codes "two"))
      (codes "group.io") group_domain (request (codes "/a")) [] (unfold set_auth in refl)
      (unfold run_app in refl) (unfold run_app in refl)
      (serving_with-agrees (codes "one") (codes "two")) not_challenge
      (unfold is_access_control_enabled in refl) stranger_not-IsAllowed

acme_served_example :
    routed daemon
      (codes "group.io")
      group_domain
      (request (codes "/.well-known/acme-challenge/t"))
      []
    ≡ routed
        (without_acme daemon)
        (codes "group.io")
        group_domain
        (request (codes "/.well-known/acme-challenge/t"))
        (write (codes "file") ∷ [])
acme_served_example =
    acme_served daemon (codes "group.io") group_domain
      (request (codes "/.well-known/acme-challenge/t")) [] (write (codes "file") ∷ []) refl
      challenge (unfold serve_file_http in refl)
