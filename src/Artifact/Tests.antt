-- ===== src/Artifact/Tests.antt =====
-- Artifacts of a group, behind an API that knows every public file.
use gitlab_pages_mirror.Common.{Text, codes, true, none, some, [], ◌≡◌, refl, ok}
use gitlab_pages_mirror.Http.{Request}
use gitlab_pages_mirror.Serving.Reader.Caching.{allows_caching}
use gitlab_pages_mirror.Auth.Tokens.{get_token_if_exists}
use gitlab_pages_mirror.Artifact.{ArtifactLibrary, Artifact, build_url}
use gitlab_pages_mirror.Artifact.Handlers.{handle_artifact_request}
use gitlab_pages_mirror.Artifact.Caching.{IsPublic, handle_artifact_request-caching}

abbrev artifact : Artifact
artifact = record { server = codes "https://gitlab.io/api/v4"; suffix = codes ".pages.io" }

abbrev library : ArtifactLibrary
library = record {
  path_escape = λ s. s;
  parses = λ s. true;
  request_fits = λ s. true;
  send = λ url token. some (record {
    answer = record { status = 200; error = none };
    content_type = codes "text/html";
    content_length = codes "5";
    body = codes "Hello";
  });
}

abbrev host : Text
host = codes "Group.pages.io"

abbrev visit : Request
visit = record {
  method = codes "GET";
  host = host;
  scheme = codes "https";
  path = codes "/-/sub/proj/-/jobs/12/artifacts/a.html";
  request_uri = codes "/-/sub/proj/-/jobs/12/artifacts/a.html";
  query = [];
  headers = [];
  tls = true;
}

-- The path names the project below the group of the host; but a step back in it leaves the group.
build_url_examples :
    (build_url library artifact host visit.path
      ≡ some (codes "https://gitlab.io/api/v4/projects/Group/sub/proj/jobs/12/artifacts/a.html"))
    × (build_url library artifact host (codes "/-/../other/p/-/jobs/1/artifacts/f")
        ≡ some (codes "https://gitlab.io/api/v4/projects/other/p/jobs/1/artifacts/f"))
    × (build_url library artifact (codes "pages.io") visit.path ≡ none)
unfolding build_url
build_url_examples = (refl, refl, refl)

visit_caches :
    allows_caching (handle_artifact_request library none (some artifact) host visit []).1 ≡ true
unfolding handle_artifact_request allows_caching
visit_caches = refl

handle_artifact_request-caching_example :
    (token : Text) × (get_token_if_exists none visit [] ≡ ok token) × IsPublic library token
handle_artifact_request-caching_example =
    handle_artifact_request-caching library none (some artifact) host visit []
      (unfold allows_caching in refl) visit_caches
