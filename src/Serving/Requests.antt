-- ===== src/Serving/Requests.antt =====
-- internal/serving/lookup_path.go and request.go: the project that a request belongs to, and the
-- storage that serves it.
use gitlab_pages_mirror.Common.{ℕ, Text, Bool}

-- The servings that are created: local.Instance() and zip.Instance().
pub data Serving : Type 0 where
  local zip : Serving

pub record LookupPath : Type 0 where
  pub serving_type : Text
  pub prefix : Text
  pub path : Text
  pub is_namespace_project : Bool
  pub is_https_only : Bool
  pub has_access_control : Bool
  pub project_id : ℕ

pub record ServingRequest : Type 0 where
  pub serving : Serving
  pub lookup_path : LookupPath
  pub sub_path : Text
