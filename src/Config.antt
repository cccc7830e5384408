-- ===== src/Config.antt =====
-- internal/config: the settings, their validation and the flags with several values; config.go,
-- validate.go, multi_string_flag.go and tls/tls.go, with internal/validateargs. A fatal log ends the
-- process, so that each check gives the error that it ends with.
pub mod Flags
pub mod Valid
pub mod Splitting
mod Tests
use gitlab_pages_mirror.Common.{
  ℕ, zero, suc, ◌-◌, ◌*◌, ◌/◌, ◌++◌, ◌<◌, Text, codes, Bool, true, false, not, ◌&&◌, ◌||◌, Option,
  none, some, [], ◌∷◌, Dict, dict_get, Result, ok, err, ltb, ◌==◌, length, if◌then◌else◌, text_eq,
}
use gitlab_pages_mirror.Common.Int.{ℤ, pos, ltz}

-- The settings that the checks read.
pub record Settings : Type 0 where
  pub secret : Text
  pub client_id : Text
  pub client_secret : Text
  pub redirect_uri : Text
  pub gitlab_server : Text
  pub gitlab_auth_server : Text
  pub internal_gitlab_server : Text
  pub artifacts_server : Text
  pub artifacts_timeout : ℤ
  pub tls_min_version : Text
  pub tls_max_version : Text
  pub use_legacy_storage : Bool
  pub domain_config_source : Text

pub data ConfigError : Type 0 where
  no_secret no_client_id no_client_secret no_gitlab_server no_redirect_uri : ConfigError
  bad_artifacts_url bad_artifacts_scheme bad_artifacts_timeout : ConfigError
  unknown_min_version unknown_max_version max_below_min : ConfigError

-- url.Parse of an address: its scheme, and the address without its path, as text.
pub record UrlLibrary : Type 0 where
  pub scheme_of : Text → Option Text
  pub without_path : Text → Option Text

abbrev pub is_empty : Text → Bool
is_empty [] = true
is_empty (c ∷ s) = false

-- AllTLSVersions, with the numbers of crypto/tls.
abbrev pub all_tls_versions : Dict ℕ
all_tls_versions =
    ([], 0)
    ∷ (codes "ssl3", 768)
    ∷ (codes "tls1.0", 769)
    ∷ (codes "tls1.1", 770)
    ∷ (codes "tls1.2", 771)
    ∷ (codes "tls1.3", 772)
    ∷ []

unfoldable pub check_versions : Option ℕ → Option ℕ → Option ConfigError
check_versions none max = some unknown_min_version
check_versions (some min) none = some unknown_max_version
check_versions (some min) (some max) = if ltb max min && ltb 0 max then some max_below_min else none

-- ValidateTLSVersions
unfoldable pub validate_tls_versions : Text → Text → Option ConfigError
unfolding dict_get check_versions
validate_tls_versions min max =
    check_versions (dict_get all_tls_versions min) (dict_get all_tls_versions max)

-- config.GitLab.Server: gitlabServerFromFlags
unfoldable pub gitlab_server_from_flags : UrlLibrary → Settings → Text
gitlab_server_from_flags urls c =
    if not (is_empty c.gitlab_server)
    then c.gitlab_server
    else if not (is_empty c.gitlab_auth_server)
    then c.gitlab_auth_server
    else elim (urls.without_path c.artifacts_server) [ none ↦ [] | some server ↦ server ]

unfoldable pub internal_gitlab_server_from_flags : UrlLibrary → Settings → Text
unfolding gitlab_server_from_flags
internal_gitlab_server_from_flags urls c =
    if not (is_empty c.internal_gitlab_server)
    then c.internal_gitlab_server
    else gitlab_server_from_flags urls c

-- A slice of zero bytes.
abbrev zeros : ℕ → Text
zeros zero = []
zeros (suc n) = 0 ∷ zeros n

-- setGitLabAPISecretKey: what base64 gives has to have 32 bytes, and the key is the whole buffer for
-- it, whose length is DecodedLen of the text; `decode` is none where the text is no base64.
unfoldable pub api_secret_key : (Text → Option Text) → Text → Option Text
api_secret_key decode encoded = elim (decode encoded) [
  | none ↦ none
  | some secret ↦
      if length secret == 32 then some (secret ++ zeros (length encoded / 4 * 3 - 32)) else none
]

unfoldable pub domain_config_source : Settings → Text
domain_config_source c = if c.use_legacy_storage then codes "disk" else c.domain_config_source

unfoldable pub validate_auth_config : UrlLibrary → Settings → Option ConfigError
unfolding gitlab_server_from_flags
validate_auth_config urls c =
    if is_empty c.secret
      && is_empty c.client_id
      && is_empty c.client_secret
      && is_empty c.redirect_uri
    then none
    else if is_empty c.secret
    then some no_secret
    else if is_empty c.client_id
    then some no_client_id
    else if is_empty c.client_secret
    then some no_client_secret
    else if is_empty (gitlab_server_from_flags urls c)
    then some no_gitlab_server
    else if is_empty c.redirect_uri
    then some no_redirect_uri
    else none

unfoldable pub check_artifacts : ℤ → Option Text → Option ConfigError
unfolding text_eq
check_artifacts timeout none = some bad_artifacts_url
check_artifacts timeout (some scheme) =
    if not (text_eq scheme (codes "http")) && not (text_eq scheme (codes "https"))
    then some bad_artifacts_scheme
    else if ltz timeout (pos 1)
    then some bad_artifacts_timeout
    else none

unfoldable pub validate_artifacts_config : UrlLibrary → Settings → Option ConfigError
unfolding check_artifacts
validate_artifacts_config urls c =
    if is_empty c.artifacts_server
    then none
    else check_artifacts c.artifacts_timeout (urls.scheme_of c.artifacts_server)

-- One check after another.
abbrev pub then_check : Option ConfigError → Option ConfigError → Option ConfigError
then_check (some e) next = some e
then_check none next = next

-- validateConfig
unfoldable pub validate_config : UrlLibrary → Settings → Option ConfigError
unfolding validate_auth_config validate_artifacts_config validate_tls_versions
validate_config urls c = then_check (validate_auth_config urls c) (
    then_check (validate_artifacts_config urls c)
      (validate_tls_versions c.tls_min_version c.tls_max_version))
