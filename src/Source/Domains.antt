-- ===== src/Source/Domains.antt =====
-- internal/source/domains.go: the choice between the GitLab API and the disk.
pub mod Choice
pub mod Serverless
use gitlab_pages_mirror.Common.{
  ℕ, Text, codes, text_eq, Bool, true, false, not, ◌&&◌, ◌||◌, Option, none, some, List, [], ◌∷◌,
  Result, ok, err, leb, ◌==◌, if◌then◌else◌,
}
use gitlab_pages_mirror.Source.Api.{ApiError}

pub data ConfigSource : Type 0 where
  source_gitlab source_disk source_auto : ConfigSource

-- The ASCII class [[:xdigit:]].
abbrev pub is_xdigit : ℕ → Bool
is_xdigit c = leb b'0' c && leb c b'9' || leb b'a' c && leb c b'f' || leb b'A' c && leb c b'F'

-- A text that begins with one byte of each class, in order.
unfoldable pub match_classes : List (ℕ → Bool) → Text → Bool
match_classes [] s = true
match_classes (p ∷ ps) [] = false
match_classes (p ∷ ps) (c ∷ s) = p c && match_classes ps s

abbrev repeated : ℕ → List (ℕ → Bool) → List (ℕ → Bool)
repeated n rest = add n
  where
    add : ℕ → List (ℕ → Bool)
    add ℕ.zero = rest
    add (ℕ.suc n) = is_xdigit ∷ add n

-- [[:xdigit:]]{2}a1[[:xdigit:]]{10}f2[[:xdigit:]]{2}[[:xdigit:]]+; what follows is free.
abbrev pub serverless_tail : List (ℕ → Bool)
serverless_tail = repeated 2 (
    (λ c. c == b'a')
    ∷ (λ c. c == b'1')
    ∷ repeated 10 ((λ c. c == b'f') ∷ (λ c. c == b'2') ∷ repeated 3 []))

-- ^[^.]+- and then the tail; `seen` says that a first byte has been passed.
unfoldable pub scan_serverless : Bool → Text → Bool
scan_serverless seen [] = false
scan_serverless seen (c ∷ s) =
    seen && c == b'-' && match_classes serverless_tail s
    || not (c == b'.') && scan_serverless true s

-- IsServerlessDomain
unfoldable pub is_serverless_domain : Text → Bool
unfolding scan_serverless
is_serverless_domain s = scan_serverless false s

-- What `source` returns; `nil_source` is the nil interface, a call of which panics.
pub data Chosen (G D : Type 0) : Type 0 where
  use_gitlab : G → Chosen G D
  use_disk : D → Chosen G D
  nil_source : Chosen G D

pub data ConfigError : Type 0 where
  invalid_option : Text → ConfigError
  client_error : ApiError → ConfigError

-- `G` and `D` are the two sources.
pub record Domains (G D : Type 0) : Type 0 where
  pub config_source : ConfigSource
  pub gitlab : Option G
  pub disk : Option D

module _ {G D : Type 0} where
  -- setGitLabClient, on the result of gitlab.New.
  unfoldable pub set_gitlab_client :
      Result ApiError G → Domains G D → Result ConfigError (Domains G D)
  set_gitlab_client (ok g) d = ok (record d { gitlab = some g })
  set_gitlab_client (err e) d = elim d.config_source [
    | source_gitlab ↦ err (client_error e)
    | _ ↦ ok d
  ]

  -- NewDomains with setConfigSource, for the option -domain-config-source and a new disk source.
  unfoldable pub new_domains : Text → Result ApiError G → D → Result ConfigError (Domains G D)
  unfolding set_gitlab_client text_eq
  new_domains option client disk =
      if text_eq option (codes "gitlab")
      then set_gitlab_client client
          (record { config_source = source_gitlab; gitlab = none; disk = none })
      else if text_eq option (codes "auto")
      then set_gitlab_client client
          (record { config_source = source_auto; gitlab = none; disk = some disk })
      else if text_eq option (codes "disk")
      then ok (record { config_source = source_disk; gitlab = none; disk = some disk })
      else err (invalid_option option)

  abbrev pub from_gitlab : Option G → Chosen G D
  from_gitlab (some g) = use_gitlab g
  from_gitlab none = nil_source

  abbrev pub from_disk : Option D → Chosen G D
  from_disk (some d) = use_disk d
  from_disk none = nil_source

  module _ (gitlab_ready : G → Bool) (disk_ready : D → Bool) where
    -- d.gitlab != nil && d.gitlab.IsReady()
    abbrev pub has_ready_gitlab : Domains G D → Bool
    has_ready_gitlab d = elim d.gitlab [ none ↦ false | some g ↦ gitlab_ready g ]

    -- The method `source`.
    unfoldable pub choose : Domains G D → Text → Chosen G D
    unfolding is_serverless_domain
    choose d name =
        if is_serverless_domain name then from_gitlab d.gitlab else elim d.config_source [
          | source_disk ↦ from_disk d.disk
          | source_gitlab ↦ from_gitlab d.gitlab
          | source_auto ↦ if has_ready_gitlab d then from_gitlab d.gitlab else from_disk d.disk
        ]

    abbrev disk_is_ready : Option D → Bool
    disk_is_ready (some d) = disk_ready d
    disk_is_ready none = false

    -- IsReady
    unfoldable pub is_ready : Domains G D → Bool
    is_ready d = elim d.config_source [
      | source_gitlab ↦ has_ready_gitlab d
      | source_disk ↦ disk_is_ready d.disk
      | source_auto ↦ if has_ready_gitlab d then true else disk_is_ready d.disk
    ]
