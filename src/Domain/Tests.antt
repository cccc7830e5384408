-- ===== src/Domain/Tests.antt =====
-- internal/domain on small inputs.
use gitlab_pages_mirror.Common.{Text, codes, Bool, true, false, none, some, [], ◌∷◌, ok, ◌≡◌, refl}
use gitlab_pages_mirror.Http.{Request}
use gitlab_pages_mirror.Responses.{write, serve_error_page, page404}
use gitlab_pages_mirror.Serving.Requests.{Serving, ServingRequest}
use gitlab_pages_mirror.Serving.Handlers.{ServingOps}
use gitlab_pages_mirror.Domain.Serve.{Domain, serve_not_found_auth_failed}
use gitlab_pages_mirror.Domain.Certificates.{Certified}
use gitlab_pages_mirror.Domain.Failing.{IsDiscreet, serve_not_found_auth_failed-IsDiscreet}

abbrev certified : Certified Text Bool
certified = record { certificate_cert = codes "cert"; certificate_key = codes "key"; parsed = none }

abbrev request : Request
request = record {
  method = codes "GET";
  host = codes "group.io";
  scheme = codes "https";
  path = codes "/a";
  request_uri = codes "/a";
  query = [];
  headers = [];
  tls = true;
}

abbrev private_project : ServingRequest
private_project = record {
  serving = Serving.local;
  lookup_path = record {
    serving_type = codes "file";
    prefix = codes "/";
    path = codes "group/a/public/";
    is_namespace_project = false;
    is_https_only = false;
    has_access_control = true;
    project_id = 4;
  };
  sub_path = [];
}

abbrev group_domain : Domain
group_domain = record { name = codes "group.io"; resolver = λ r. ok private_project }

abbrev site : ServingOps
site = record {
  serve_file = λ s h w. (true, write (codes "file") ∷ w);
  serve_not_found = λ s h w. write (codes "custom 404") ∷ w;
}

serve_not_found_auth_failed-IsDiscreet_example :
    IsDiscreet site
      (some group_domain)
      request
      []
      (serve_not_found_auth_failed site (some group_domain) request [])
serve_not_found_auth_failed-IsDiscreet_example =
    serve_not_found_auth_failed-IsDiscreet site (some group_domain) request []

private_page :
    serve_not_found_auth_failed site (some group_domain) request [] ≡ serve_error_page page404 []
unfolding serve_not_found_auth_failed
private_page = refl
