-- ===== src/Source/Tests.antt =====
-- Sample lookups against the sources of internal/source, and the theorems at them.
use gitlab_pages_mirror.Common.{
  Text, codes, Bool, true, false, ◌≡◌, ◌↔◌, refl, none, some, List, [], ◌∷◌,
}
use gitlab_pages_mirror.Common.Int.{pos}
use gitlab_pages_mirror.Http.{Request}
use gitlab_pages_mirror.Source.Api.{unauthorized_api, ApiLookupPath, Lookup, zero_lookup}
use gitlab_pages_mirror.Source.Gitlab.{resolve_request, get_domain}
use gitlab_pages_mirror.Source.Gitlab.Lookups.{
  IsResolved, resolve_request-IsResolved, IsFetched, get_domain-IsFetched,
}
use gitlab_pages_mirror.Source.Domains.{
  Domains, nil_source, source_disk, choose, is_serverless_domain, match_classes,
}
use gitlab_pages_mirror.Source.Domains.Choice.{choose-nil_source_iff}

abbrev project : ApiLookupPath
project = record {
  project_id = pos 7;
  access_control = true;
  https_only = false;
  prefix = codes "/project/";
  source = record { kind = codes "zip"; path = codes "https://a.io/artifact.zip" };
}

abbrev root : ApiLookupPath
root = record project { prefix = codes "/"; access_control = false }

abbrev paths : List ApiLookupPath
paths = project ∷ root ∷ []

abbrev client : Text → Lookup
client _ = record zero_lookup { error = some unauthorized_api }

abbrev disk_only : Domains Bool Bool
disk_only = record { config_source = source_disk; gitlab = none; disk = some true }

abbrev serverless : Text
serverless = codes "fn-aba1aabbccddeef2abaabbcc.example.com"

serverless_example : is_serverless_domain serverless ≡ true
unfolding is_serverless_domain match_classes
serverless_example = refl

abbrev serving_client : Text → Lookup
serving_client _ = record zero_lookup {
  domain = some (record { certificate = []; key = []; lookup_paths = paths });
}

abbrev request : Request
request = record {
  method = codes "GET";
  host = codes "a.io";
  scheme = codes "https";
  path = codes "/project//a";
  request_uri = codes "/project//a";
  query = [];
  headers = [];
  tls = true;
}

resolve_request-IsResolved_example :
    IsResolved serving_client request (resolve_request serving_client request)
resolve_request-IsResolved_example = resolve_request-IsResolved serving_client request

get_domain-IsFetched_example :
    IsFetched client
      (record { is_ready = true })
      (codes "a.io")
      (get_domain client (record { is_ready = true }) (codes "a.io"))
get_domain-IsFetched_example =
    get_domain-IsFetched client (record { is_ready = true }) (codes "a.io")

choose-nil_source_iff_example :
    (choose (λ b. b) (λ b. b) disk_only serverless ≡ nil_source)
    ↔ ((is_serverless_domain serverless ≡ true) × (disk_only.gitlab ≡ none))
choose-nil_source_iff_example = choose-nil_source_iff (λ b. b) (λ b. b) disk_only serverless refl
