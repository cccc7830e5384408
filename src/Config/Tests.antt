-- ===== src/Config/Tests.antt =====
-- Settings of a daemon with logins, and its flags.
use gitlab_pages_mirror.Common.{codes, false, none, some, [], ◌∷◌, ◌≡◌, refl}
use gitlab_pages_mirror.Common.Int.{pos}
use gitlab_pages_mirror.Config.{Settings, UrlLibrary, validate_config}
use gitlab_pages_mirror.Config.Flags.{
  MultiStringFlag, split_flag, validate_args, not_allowed_args, parse_header_string,
}

abbrev settings : Settings
settings = record {
  secret = codes "s";
  client_id = codes "i";
  client_secret = codes "c";
  redirect_uri = codes "https://projects.pages.io/auth";
  gitlab_server = codes "https://gitlab.io";
  gitlab_auth_server = [];
  internal_gitlab_server = [];
  artifacts_server = codes "https://gitlab.io/api/v4";
  artifacts_timeout = pos 10;
  tls_min_version = codes "tls1.2";
  tls_max_version = [];
  use_legacy_storage = false;
  domain_config_source = codes "auto";
}

abbrev urls : UrlLibrary
urls = record { scheme_of = λ s. some (codes "https"); without_path = λ s. some s }

settings_accepted : validate_config urls settings ≡ none
unfolding validate_config
settings_accepted = refl

abbrev listen : MultiStringFlag
listen = record { value = codes ":80,:81" ∷ codes ":82" ∷ []; separator = codes "," }

flags_examples :
    (split_flag listen ≡ codes ":80" ∷ codes ":81" ∷ codes ":82" ∷ [])
    × (validate_args (codes "gitlab-pages" ∷ codes "-auth-secret=x" ∷ []) not_allowed_args
        ≡ some (codes "-auth-secret" ∷ []))
    × (parse_header_string (codes "X-A: 1" ∷ codes "X-A: 2" ∷ [])
        ≡ some ((codes "X-A", codes "1" ∷ codes "2" ∷ []) ∷ []))
    × (parse_header_string (codes "X-A" ∷ []) ≡ none)
unfolding split_flag validate_args parse_header_string
flags_examples = (refl, refl, refl, refl)
