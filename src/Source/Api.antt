-- ===== src/Source/Api.antt =====
-- internal/source/gitlab/api: the answers of the GitLab API.
use gitlab_pages_mirror.Common.{Text, Bool, Option, none, List, []}
use gitlab_pages_mirror.Common.Int.{ℤ}

-- The errors that the program tells apart, by errors.Is, and any other.
pub data ApiError : Type 0 where
  domain_does_not_exist unauthorized_api context_done retrieval_context_done other : ApiError

-- api.Source, without the description of serverless clusters, which nothing reads.
pub record ApiSource : Type 0 where
  pub kind : Text
  pub path : Text

pub record ApiLookupPath : Type 0 where
  pub project_id : ℤ
  pub access_control : Bool
  pub https_only : Bool
  pub prefix : Text
  pub source : ApiSource

pub record VirtualDomain : Type 0 where
  pub certificate : Text
  pub key : Text
  pub lookup_paths : List ApiLookupPath

-- api.Lookup; `domain` is none for a nil pointer.
pub record Lookup : Type 0 where
  pub name : Text
  pub error : Option ApiError
  pub domain : Option VirtualDomain

-- The zero value of api.Lookup.
abbrev pub zero_lookup : Lookup
zero_lookup = record { name = []; error = none; domain = none }
