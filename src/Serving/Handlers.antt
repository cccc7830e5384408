-- ===== src/Serving/Handlers.antt =====
-- internal/serving/handler.go, serving.go and request.go: a request on its way to the storage that
-- serves it.
use gitlab_pages_mirror.Common.{Text, Bool}
use gitlab_pages_mirror.Http.{Request}
use gitlab_pages_mirror.Responses.{Response}
use gitlab_pages_mirror.Serving.Requests.{Serving, LookupPath, ServingRequest}

-- Handler; the writer is passed on its own.
pub record Handler : Type 0 where
  pub request : Request
  pub lookup_path : LookupPath
  pub sub_path : Text

-- The interface Serving, for each of the servings.
pub record ServingOps : Type 0 where
  pub serve_file : Serving → Handler → Response → Bool × Response
  pub serve_not_found : Serving → Handler → Response → Response

abbrev pub handler_of : ServingRequest → Request → Handler
handler_of s r = record { request = r; lookup_path = s.lookup_path; sub_path = s.sub_path }

module _ (ops : ServingOps) where
  -- ServeFileHTTP and ServeNotFoundHTTP of a Request.
  unfoldable pub forward_file : ServingRequest → Request → Response → Bool × Response
  forward_file s r w = ops.serve_file s.serving (handler_of s r) w

  unfoldable pub forward_not_found : ServingRequest → Request → Response → Response
  forward_not_found s r w = ops.serve_not_found s.serving (handler_of s r) w
