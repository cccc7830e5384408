-- ===== src/Serving/Reader.antt =====
-- internal/serving/disk: reader.go, helpers.go, errors.go and serving.go. What the reader calls
-- outside the repository's own code is a record: the symbolic links, the negotiation of an
-- encoding, the types of contents, the clock, the printing of URLs and the parsers.
pub mod Reading
pub mod Caching
mod Tests
use gitlab_pages_mirror.Common.{
  ℕ, Text, codes, text_eq, has_suffix, trim_prefix, trim_suffix, join, decimal, dict_get, Bool,
  true, false, not, ◌&&◌, Option, none, some, List, [], ◌∷◌, ◌++◌, Result, ok, err, take, length,
  ltb, if◌then◌else◌,
}
use gitlab_pages_mirror.Http.{Request}
use gitlab_pages_mirror.Vfs.{VfsError, not_exist, failed, FileInfo, Root, Vfs}
use gitlab_pages_mirror.Responses.{
  Response, serve_error_page, page404, page500, set_header, write_header, write, http_redirect,
  serve_content,
}
use gitlab_pages_mirror.Redirects.Rules.{
  RedirectError, Url, Rule, Redirects, config_file, rewrite, status_text, parse_redirects,
}
use gitlab_pages_mirror.Serving.Requests.{Serving}
use gitlab_pages_mirror.Serving.Handlers.{Handler, ServingOps}

pub record Outside : Type 0 where
  -- symlink.EvalSymlinks
  pub eval_symlinks : Root → Text → Result VfsError Text
  -- httputil.NegotiateContentEncoding
  pub negotiate : Request → List Text → Text
  -- mime.TypeByExtension of the extension of a path, and http.DetectContentType
  pub type_by_extension : Text → Text
  pub detect : Text → Text
  -- whether an opened file is a vfs.SeekableFile
  pub is_seekable : Root → Text → Bool
  -- the time in ten minutes
  pub expires : Text
  -- FF_ENABLE_REDIRECTS is not "false"
  pub redirects_enabled : Bool
  pub parse_url : Text → Option Url
  pub parse_rules : Text → Option (List Rule)
  -- URL.String of a URL with a scheme, a host and a path, and the query of a request
  pub url_string : Text → Text → Text → Request → Text
  pub request_url : Request → Url

pub data ResolveError : Type 0 where
  location_directory location_file_no_extension not_regular : ResolveError
  lookup_failed : VfsError → ResolveError

unfoldable pub ends_with_slash : Text → Bool
unfolding has_suffix
ends_with_slash path = has_suffix path (codes "/")

unfoldable pub ends_without_html_extension : Text → Bool
unfolding has_suffix
ends_without_html_extension path = not (has_suffix path (codes ".html"))

header_of : Text → Request → Text
unfolding dict_get
header_of k r = elim (dict_get r.headers k) [ none ↦ [] | some v ↦ v ]

-- The size of the file that root.Lstat finds, when it is regular.
unfoldable pub regular_size : Root → Text → Option ℕ
regular_size root path = elim (root.lstat path) [
  | err _ ↦ none
  | ok fi ↦ if fi.is_regular then some fi.size else none
]

module _ (out : Outside) where
  -- resolvePath
  unfoldable pub resolve_path : Root → List Text → Result ResolveError Text
  unfolding join ends_without_html_extension
  resolve_path root sub_path =
      let test_path = join (codes "/") sub_path in
      elim (out.eval_symlinks root test_path) [
        | err e ↦
            if ends_without_html_extension test_path
            then err location_file_no_extension
            else err (lookup_failed e)
        | ok full_path ↦ elim (root.lstat full_path) [
          | err e ↦ err (lookup_failed e)
          | ok fi ↦
              if fi.is_dir
              then err location_directory
              else if not fi.is_regular
              then err not_regular
              else ok full_path
        ]
      ]

  unfoldable pub detect_content_type : Root → Text → Result VfsError Text
  unfolding text_eq
  detect_content_type root path =
      if text_eq (out.type_by_extension path) []
      then elim (root.open_file path) [
        | err e ↦ err e
        | ok content ↦ ok (out.detect (take 512 content))
      ]
      else ok (out.type_by_extension path)

  -- The encodings to offer, by their priority.
  unfoldable pub offers : Option ℕ → Option ℕ → List Text
  offers br gzip =
      elim br [ none ↦ [] | some _ ↦ codes "br" ∷ [] ]
      ++ (elim gzip [ none ↦ [] | some _ ↦ codes "gzip" ∷ [] ] ++ (codes "identity" ∷ []))

  -- The file of an accepted encoding, with the headers for it.
  with_encoding : Text → Text → Text → Option ℕ → Response → Text × Response
  unfolding decimal
  with_encoding full_path encoding extension none w = (full_path, w)
  with_encoding full_path encoding extension (some size) w = (
    full_path ++ extension,
    set_header (codes "Content-Length") (decimal size)
        ∷ set_header (codes "Content-Encoding") encoding
        ∷ w,
  )

  -- handleContentEncoding: the path to serve, and the response with the headers.
  unfoldable pub handle_content_encoding : Root → Request → Text → Response → Text × Response
  unfolding header_of text_eq regular_size offers with_encoding
  handle_content_encoding root r full_path w =
      let br = regular_size root (full_path ++ codes ".br") in
      let gzip = regular_size root (full_path ++ codes ".gz") in
      let accepted = out.negotiate r (offers br gzip) in
      if not (text_eq (header_of (codes "Range") r) [])
      then (full_path, w)
      else if text_eq accepted (codes "br")
      then with_encoding full_path accepted (codes ".br") br w
      else if text_eq accepted (codes "gzip")
      then with_encoding full_path accepted (codes ".gz") gzip w
      else (full_path, w)

  unfoldable pub cache_headers : Bool → Response → Response
  cache_headers access_control w =
      if access_control
      then w
      else set_header (codes "Expires") out.expires
        ∷ set_header (codes "Cache-Control") (codes "max-age=600")
        ∷ w

  -- What serveFile does with the contents of the file.
  send_file : Root → Text → Text → FileInfo → Text → Response → Response
  unfolding decimal
  send_file root orig_path full_path fi content w =
      if out.is_seekable root full_path
      then serve_content orig_path fi.mod_time content ∷ w
      else write content ∷ set_header (codes "Content-Length") (decimal fi.size) ∷ w

  -- serveFile behind the choice of the encoding.
  serve_encoded : Root → Text → Bool → Text → Response → Response
  unfolding cache_headers detect_content_type send_file serve_error_page
  serve_encoded root orig_path access_control full_path w = elim (root.open_file full_path) [
    | err _ ↦ serve_error_page page500 w
    | ok content ↦ elim (root.lstat full_path) [
      | err _ ↦ serve_error_page page500 w
      | ok fi ↦
          let w' = cache_headers access_control w in
          elim (detect_content_type root orig_path) [
            | err _ ↦ serve_error_page page500 w'
            | ok content_type ↦
                send_file root orig_path full_path fi content
                  (set_header (codes "Content-Type") content_type ∷ w')
          ]
    ]
  ]

  -- serveFile, which always answers.
  unfoldable pub serve_file : Root → Request → Text → Bool → Response → Response
  unfolding handle_content_encoding serve_encoded
  serve_file root r orig_path access_control w =
      let (full_path, w') = handle_content_encoding root r orig_path w in
      serve_encoded root orig_path access_control full_path w'

  -- serveCustomFile; the flag tells an error.
  unfoldable pub serve_custom_file : Root → Request → ℕ → Text → Response → Bool × Response
  unfolding handle_content_encoding detect_content_type decimal text_eq
  serve_custom_file root r code orig_path w =
      let (full_path, w') = handle_content_encoding root r orig_path w in
      elim (root.open_file full_path) [
        | err _ ↦ (true, w')
        | ok content ↦ elim (root.lstat full_path) [
          | err _ ↦ (true, w')
          | ok fi ↦ elim (detect_content_type root orig_path) [
            | err _ ↦ (true, w')
            | ok content_type ↦
                let sent =
                  write_header code
                  ∷ set_header (codes "Content-Length") (decimal fi.size)
                  ∷ set_header (codes "Content-Type") content_type
                  ∷ w' in
                if text_eq r.method (codes "HEAD")
                then (false, sent)
                else (ltb (length content) fi.size, write (take fi.size content) ∷ sent)
          ]
        ]
      ]

  unfoldable pub serve_redirects_status : Redirects → Response → Response
  unfolding status_text
  serve_redirects_status redirects w =
      write (status_text out.parse_url redirects ++ codes "\n")
      ∷ write_header 200
      ∷ set_header (codes "X-Content-Type-Options") (codes "nosniff")
      ∷ set_header (codes "Content-Type") (codes "text/plain; charset=utf-8")
      ∷ w

  unfoldable pub redirect_path : Request → Text
  unfolding trim_prefix trim_suffix
  redirect_path r =
      trim_suffix (out.url_string [] r.host (trim_prefix r.path (codes "/") ++ codes "/") r)
        (codes "?")

  -- The end of tryFile, at the path that was resolved.
  try_resolved : Root → Handler → Text → Response → Response
  unfolding text_eq serve_redirects_status parse_redirects serve_file
  try_resolved root h full_path w =
      if text_eq full_path config_file
      then (if out.redirects_enabled
          then serve_redirects_status (parse_redirects out.parse_rules root) w
          else write_header 403 ∷ w)
      else serve_file root h.request full_path h.lookup_path.has_access_control w

  -- The second attempt of tryFile, for a path without the extension.
  resolve_extension : Root → Text → Result ResolveError Text → Result ResolveError Text
  unfolding resolve_path trim_suffix
  resolve_extension root sub_path (err location_file_no_extension) =
      resolve_path root ((trim_suffix sub_path (codes "/") ++ codes ".html") ∷ [])
  resolve_extension root sub_path result = result

  try_result : Root → Handler → Result ResolveError Text → Response → Bool × Response
  unfolding resolve_extension try_resolved
  try_result root h result w = elim (resolve_extension root h.sub_path result) [
    | err _ ↦ (false, w)
    | ok full_path ↦ (true, try_resolved root h full_path w)
  ]

  -- tryFile below the root that it serves from.
  try_below : Root → Handler → Result ResolveError Text → Response → Bool × Response
  unfolding ends_with_slash resolve_path redirect_path try_result
  try_below root h (err location_directory) w =
      if ends_with_slash h.request.path
      then try_result root h (resolve_path root (h.sub_path ∷ codes "index.html" ∷ [])) w
      else (true, http_redirect (redirect_path h.request) 302 ∷ w)
  try_below root h result w = try_result root h result w

  -- What vfs.Root answers: a missing root is no error of the server.
  with_root : Vfs → Handler → (Root → Response → Bool × Response) → Response → Bool × Response
  unfolding serve_error_page
  with_root vfs h next w = elim (vfs.root_at h.lookup_path.path) [
    | err not_exist ↦ (false, w)
    | err (failed _) ↦ (true, serve_error_page page500 w)
    | ok root ↦ next root w
  ]

  unfoldable pub try_file : Vfs → Handler → Response → Bool × Response
  unfolding with_root try_below
  try_file vfs h = with_root vfs h (λ root. try_below root h (resolve_path root (h.sub_path ∷ [])))

  -- The end of tryRedirects. Rewrite never gives a nil URL without an error, where the code would
  -- panic.
  redirected : Option Url × ℕ × Option RedirectError → Response → Bool × Response
  redirected (some url, status, none) w = (true, http_redirect url.path status ∷ w)
  redirected (none, status, none) w = (true, w)
  redirected (_, status, some _) w = (false, w)

  unfoldable pub try_redirects : Vfs → Handler → Response → Bool × Response
  unfolding with_root rewrite parse_redirects redirected
  try_redirects vfs h = with_root vfs h (λ root.
      redirected
        (rewrite out.parse_url (parse_redirects out.parse_rules root) (out.request_url h.request)))

  not_found_below : Handler → Root → Response → Bool × Response
  unfolding resolve_path serve_custom_file serve_error_page
  not_found_below h root w = elim (resolve_path root (codes "404.html" ∷ [])) [
    | err _ ↦ (false, w)
    | ok page404_path ↦
        let (has_failed, w') = serve_custom_file root h.request 404 page404_path w in
        (true, if has_failed then serve_error_page page500 w' else w')
  ]

  unfoldable pub try_not_found : Vfs → Handler → Response → Bool × Response
  unfolding with_root not_found_below
  try_not_found vfs h = with_root vfs h (not_found_below h)

  -- ServeFileHTTP and ServeNotFoundHTTP of Disk.
  unfoldable pub disk_serve_file : Vfs → Handler → Response → Bool × Response
  unfolding try_file try_redirects
  disk_serve_file vfs h w =
      let (served, w') = try_file vfs h w in
      if served
      then (true, w')
      else if out.redirects_enabled
      then try_redirects vfs h w'
      else (false, w')

  unfoldable pub disk_serve_not_found : Vfs → Handler → Response → Response
  unfolding try_not_found serve_error_page
  disk_serve_not_found vfs h w =
      let (served, w') = try_not_found vfs h w in if served then w' else serve_error_page page404 w'

  -- The servings, each with its own file system.
  unfoldable pub disk_ops : (Serving → Vfs) → ServingOps
  unfolding disk_serve_file disk_serve_not_found
  disk_ops vfs = record {
    serve_file = λ s. disk_serve_file (vfs s);
    serve_not_found = λ s. disk_serve_not_found (vfs s);
  }
