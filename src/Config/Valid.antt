-- ===== src/Config/Valid.antt =====
-- internal/config/validate.go and tls/tls.go: which settings are accepted.
use gitlab_pages_mirror.Common.{
  ℕ, ◌≤◌, Text, codes, true, Option, none, some, [], ◌∷◌, dict_get, ◌≡◌, ◌≢◌, ◌↔◌, ◌⊎◌, inl, inr,
  refl, arith, text_eq_iff,
}
use gitlab_pages_mirror.Common.Int.{ℤ, pos, ◌≤ℤ◌}
use gitlab_pages_mirror.Config.{
  Settings, ConfigError, UrlLibrary, is_empty, all_tls_versions, check_versions,
  validate_tls_versions, gitlab_server_from_flags, validate_auth_config, check_artifacts,
  validate_artifacts_config, then_check, validate_config,
}

-- Either no setting for logins, or all of them with a GitLab server.
abbrev pub IsAuthValid : UrlLibrary → Settings → Type 0
IsAuthValid urls c =
    ((c.secret ≡ []) × (c.client_id ≡ []) × (c.client_secret ≡ []) × (c.redirect_uri ≡ []))
    ⊎ ((c.secret ≢ [])
        × (c.client_id ≢ [])
        × (c.client_secret ≢ [])
        × (c.redirect_uri ≢ [])
        × (gitlab_server_from_flags urls c ≢ []))

-- No server for artifacts, or one over HTTP with a timeout of at least a second.
abbrev pub IsArtifactsValid : UrlLibrary → Settings → Type 0
IsArtifactsValid urls c =
    (c.artifacts_server ≡ [])
    ⊎ ((pos 1 ≤ℤ c.artifacts_timeout)
        × ((urls.scheme_of c.artifacts_server ≡ some (codes "http"))
            ⊎ (urls.scheme_of c.artifacts_server ≡ some (codes "https"))))

-- Two known versions, of which the greatest is open or not below the least.
abbrev pub IsTlsValid : Text → Text → Type 0
IsTlsValid min max =
    (low high : ℕ) × (dict_get all_tls_versions min ≡ some low)
    × (dict_get all_tls_versions max ≡ some high)
    × ((high ≡ 0) ⊎ (low ≤ high))

empty_iff : (s : Text) → (is_empty s ≡ true) ↔ (s ≡ [])
empty_iff [] = (λ h. refl, λ h. refl)
empty_iff (c ∷ s) = (λ h. cc, λ h. cc)

auth_iff :
    (urls : UrlLibrary) (c : Settings) → (validate_auth_config urls c ≡ none) ↔ IsAuthValid urls c
unfolding validate_auth_config
auth_iff urls c = ground (
  arith,
  empty_iff c.secret,
  empty_iff c.client_id,
  empty_iff c.client_secret,
  empty_iff c.redirect_uri,
  empty_iff (gitlab_server_from_flags urls c),
)

scheme_iff :
    (timeout : ℤ) (o : Option Text)
    → (check_artifacts timeout o ≡ none)
      ↔ ((pos 1 ≤ℤ timeout) × ((o ≡ some (codes "http")) ⊎ (o ≡ some (codes "https"))))
unfolding check_artifacts
scheme_iff timeout none = (λ h. cc, λ h. elim h.1 [ inl e ↦ cc | inr e ↦ cc ])
scheme_iff timeout (some s) =
    ground (arith, text_eq_iff s (codes "http"), text_eq_iff s (codes "https"))

artifacts_iff :
    (urls : UrlLibrary) (c : Settings)
    → (validate_artifacts_config urls c ≡ none) ↔ IsArtifactsValid urls c
unfolding validate_artifacts_config
artifacts_iff urls c = ground (
  arith,
  empty_iff c.artifacts_server,
  scheme_iff c.artifacts_timeout (urls.scheme_of c.artifacts_server),
)

versions_iff :
    (min max : Option ℕ)
    → (check_versions min max ≡ none)
      ↔ ((low high : ℕ) × (min ≡ some low) × (max ≡ some high) × ((high ≡ 0) ⊎ (low ≤ high)))
unfolding check_versions
versions_iff none max = (λ h. cc, λ (a, b, e, f, g). cc)
versions_iff (some low) none = (λ h. cc, λ (a, b, e, f, g). cc)
versions_iff (some low) (some high) =
    (λ h. (low, high, refl, refl, ground arith), λ (a, b, e, f, g). ground arith)

tls_iff : (min max : Text) → (validate_tls_versions min max ≡ none) ↔ IsTlsValid min max
unfolding validate_tls_versions
tls_iff min max = versions_iff (dict_get all_tls_versions min) (dict_get all_tls_versions max)

both_none : (a b : Option ConfigError) → (then_check a b ≡ none) ↔ ((a ≡ none) × (b ≡ none))
both_none none b = (λ h. (refl, h), λ h. h.1)
both_none (some e) b = (λ h. cc, λ h. cc)

-- The validation accepts exactly the settings with all that logins need or nothing of it, with no
-- server for artifacts or one over HTTP with a timeout of at least a second, and with two known
-- TLS versions of which the greatest is open or not below the least.
pub validate_config_iff :
    (urls : UrlLibrary) (c : Settings)
    → (validate_config urls c ≡ none) ↔ (
        IsAuthValid urls c
        × IsArtifactsValid urls c
        × IsTlsValid c.tls_min_version c.tls_max_version)
unfolding validate_config
validate_config_iff urls c =
    let auth = auth_iff urls c in
    let artifacts = artifacts_iff urls c in
    let tls = tls_iff c.tls_min_version c.tls_max_version in
    let rest =
      then_check (validate_artifacts_config urls c)
        (validate_tls_versions c.tls_min_version c.tls_max_version) in
    let first = both_none (validate_auth_config urls c) rest in
    let second =
      both_none (validate_artifacts_config urls c)
        (validate_tls_versions c.tls_min_version c.tls_max_version) in
    (
      λ h. (
        auth.0 (first.0 h).0,
        artifacts.0 (second.0 (first.0 h).1).0,
        tls.0 (second.0 (first.0 h).1).1,
      ),
      λ (a, b, t). first.1 (auth.1 a, second.1 (artifacts.1 b, tls.1 t)),
    )
