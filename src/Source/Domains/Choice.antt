-- ===== src/Source/Domains/Choice.antt =====
-- internal/source/domains.go: the source that a request for a domain is sent to.
use gitlab_pages_mirror.Common.{Text, Bool, true, false, ◌≡◌, ◌↔◌, none, Result, ok, is_some, arith}
use gitlab_pages_mirror.Source.Api.{ApiError}
use gitlab_pages_mirror.Source.Domains.{
  ConfigSource, source_gitlab, source_disk, source_auto, Chosen, use_gitlab, use_disk, nil_source,
  Domains, new_domains, choose, is_ready, is_serverless_domain,
}

abbrev HasSources : ConfigSource → Bool → Bool → Type 0
HasSources source_gitlab g d = g ≡ true
HasSources source_disk g d = d ≡ true
HasSources source_auto g d = d ≡ true

module _ {G D : Type 0} where
  -- The sources that the option asks for are there.
  abbrev pub IsConfigured : Domains G D → Type 0
  IsConfigured d = HasSources d.config_source (is_some d.gitlab) (is_some d.disk)

  -- What NewDomains accepts has the sources that its option asks for.
  pub new_domains-IsConfigured :
      (option : Text) (client : Result ApiError G) (disk : D) (d : Domains G D)
      → new_domains option client disk ≡ ok d
      → IsConfigured d
  unfolding new_domains
  new_domains-IsConfigured option client disk d h = ground arith

  module _ (gitlab_ready : G → Bool) (disk_ready : D → Bool) where
    -- With configured sources a lookup meets a nil source exactly for a serverless domain name
    -- where there is no GitLab source.
    pub choose-nil_source_iff :
        (d : Domains G D) (name : Text)
        → IsConfigured d
        → (choose gitlab_ready disk_ready d name ≡ nil_source)
          ↔ ((is_serverless_domain name ≡ true) × (d.gitlab ≡ none))
    unfolding choose
    choose-nil_source_iff d name c = ground arith

    abbrev pub chosen_ready : Chosen G D → Bool
    chosen_ready (use_gitlab g) = gitlab_ready g
    chosen_ready (use_disk d) = disk_ready d
    chosen_ready nil_source = false

    -- For other names, the source that is chosen is ready exactly when IsReady says so.
    pub choose-is_ready :
        (d : Domains G D) (name : Text)
        → IsConfigured d
        → is_serverless_domain name ≡ false
        → chosen_ready (choose gitlab_ready disk_ready d name) ≡ is_ready gitlab_ready disk_ready d
    unfolding choose is_ready
    choose-is_ready d name c s = ground arith
