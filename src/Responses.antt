-- ===== src/Responses.antt =====
-- net/http's ResponseWriter as the calls made on it, and internal/httperrors.
use gitlab_pages_mirror.Common.{ℕ, Text, codes, List, ◌∷◌}

-- The content values of internal/httperrors, each with its own page.
pub data ErrorPage : Type 0 where
  page401 page404 page500 page502 page503 : ErrorPage

pub data Call : Type 0 where
  -- w.Header().Set and w.Header().Add
  set_header : Text → Text → Call
  add_header : Text → Text → Call
  write_header : ℕ → Call
  write : Text → Call
  -- the page that generateErrorHTML makes of a content
  write_error_html : ErrorPage → Call
  -- http.Redirect, http.Error and http.ServeContent
  http_redirect : Text → ℕ → Call
  http_error : Text → ℕ → Call
  serve_content : Text → ℕ → Text → Call
  -- the cookie of a saved session
  set_session : List (Text × Text) → Call

-- The calls so far, the latest first.
abbrev pub Response : Type 0
Response = List Call

abbrev pub page_status : ErrorPage → ℕ
page_status page401 = 401
page_status page404 = 404
page_status page500 = 500
page_status page502 = 502
page_status page503 = 503

-- serveErrorPage, for each of Serve401, Serve404, Serve500, Serve502 and Serve503.
unfoldable pub serve_error_page : ErrorPage → Response → Response
serve_error_page page w =
    write_error_html page
    ∷ write_header (page_status page)
    ∷ set_header (codes "X-Content-Type-Options") (codes "nosniff")
    ∷ set_header (codes "Content-Type") (codes "text/html; charset=utf-8")
    ∷ w
