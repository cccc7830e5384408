-- ===== src/Serving/Reader/Caching.antt =====
-- internal/serving/disk: the files of a project with access control are not for shared caches.
use gitlab_pages_mirror.Common.{
  ℕ, Text, codes, text_eq, Bool, true, false, ◌||◌, ◌≡◌, refl, Option, none, some, [], ◌∷◌, ◌++◌,
  Result, ok, err, arith, Result-cases, Bool-cases, if-cases, ◌∙◌, inl, inr,
}
use gitlab_pages_mirror.Http.{Request}
use gitlab_pages_mirror.Vfs.{not_exist, failed, Root, Vfs, FileInfo}
use gitlab_pages_mirror.Responses.{Call, set_header, Response, serve_error_page, ErrorPage, page500}
use gitlab_pages_mirror.Redirects.Rules.{rewrite, parse_redirects, config_file, RedirectError, Url}
use gitlab_pages_mirror.Serving.Handlers.{Handler}
use gitlab_pages_mirror.Serving.Reader.{
  Outside, ResolveError, location_directory, location_file_no_extension, not_regular, lookup_failed,
  resolve_path, resolve_extension, try_result, try_below, with_root, try_file, redirected,
  try_redirects, disk_serve_file, try_resolved, serve_file, serve_encoded, handle_content_encoding,
  with_encoding, cache_headers, detect_content_type, send_file, serve_redirects_status,
  regular_size, offers,
}

-- A call that lets the client or a proxy keep the response.
unfoldable pub is_cache_call : Call → Bool
unfolding text_eq
is_cache_call (set_header k v) = text_eq k (codes "Cache-Control") || text_eq k (codes "Expires")
is_cache_call _ = false

unfoldable pub allows_caching : Response → Bool
unfolding is_cache_call
allows_caching [] = false
allows_caching (c ∷ w) = is_cache_call c || allows_caching w

module _ (out : Outside) where
  error_page-caching :
      (p : ErrorPage) (w : Response) → allows_caching (serve_error_page p w) ≡ allows_caching w
  unfolding allows_caching serve_error_page
  error_page-caching p w = refl

  with_encoding-caching :
      (path encoding extension : Text) (size : Option ℕ) (w : Response)
      → allows_caching (with_encoding out path encoding extension size w).1 ≡ allows_caching w
  unfolding allows_caching with_encoding
  with_encoding-caching path encoding extension none w = refl
  with_encoding-caching path encoding extension (some n) w = refl

  encoding-caching :
      (root : Root) (r : Request) (path : Text) (w : Response)
      → allows_caching (handle_content_encoding out root r path w).1 ≡ allows_caching w
  unfolding handle_content_encoding
  encoding-caching root r path w =
      let br = regular_size root (path ++ codes ".br") in
      let gzip = regular_size root (path ++ codes ".gz") in
      let accepted = out.negotiate r (offers out br gzip) in
      ground (
        arith,
        with_encoding-caching path accepted (codes ".br") br w,
        with_encoding-caching path accepted (codes ".gz") gzip w,
      )

  header-caching :
      (kind : Text) (w : Response)
      → allows_caching (set_header (codes "Content-Type") kind ∷ w) ≡ allows_caching w
  unfolding allows_caching
  header-caching kind w = refl

  send_file-caching :
      (root : Root) (orig full : Text) (fi : FileInfo) (content : Text) (w : Response)
      → allows_caching (send_file out root orig full fi content w) ≡ allows_caching w
  unfolding send_file allows_caching
  send_file-caching root orig full fi content w = ground arith

  serve_encoded-caching :
      (root : Root) (orig full : Text) (w : Response)
      → allows_caching (serve_encoded out root orig true full w) ≡ allows_caching w
  unfolding serve_encoded cache_headers
  serve_encoded-caching root orig full w = elim (Result-cases (root.open_file full)) [
    | inr (_, e) ↦ rw (e, serve_encoded) (error_page-caching page500 w)
    | inl (content, e) ↦ elim (Result-cases (root.lstat full)) [
      | inr (_, f) ↦ rw (e, f, serve_encoded) (error_page-caching page500 w)
      | inl (fi, f) ↦ elim (Result-cases (detect_content_type out root orig)) [
        | inr (_, t) ↦ rw (e, f, t, serve_encoded) (error_page-caching page500 w)
        | inl (kind, t) ↦
            rw (e, f, t, serve_encoded)
              (send_file-caching root orig full fi content
                  (set_header (codes "Content-Type") kind ∷ w)
                ∙ header-caching kind w)
      ]
    ]
  ]

  serve_file-caching :
      (root : Root) (r : Request) (path : Text) (w : Response)
      → allows_caching (serve_file out root r path true w) ≡ allows_caching w
  unfolding serve_file
  serve_file-caching root r path w =
      serve_encoded-caching root path (handle_content_encoding out root r path w).0
        (handle_content_encoding out root r path w).1
      ∙ encoding-caching root r path w

  try_resolved-caching :
      (root : Root) (h : Handler) (path : Text) (w : Response)
      → h.lookup_path.has_access_control ≡ true
      → allows_caching (try_resolved out root h path w) ≡ allows_caching w
  unfolding try_resolved serve_redirects_status allows_caching
  try_resolved-caching root h path w p = elim (Bool-cases (text_eq path config_file)) [
    | inl e ↦
        rw (e, try_resolved)
          (if-cases (λ w'. allows_caching w' ≡ allows_caching w) out.redirects_enabled _ _
            (λ _. refl) (λ _. refl))
    | inr e ↦ rw (e, p, try_resolved) (serve_file-caching root h.request path w)
  ]

  try_result-caching :
      (root : Root) (h : Handler) (result : Result ResolveError Text) (w : Response)
      → h.lookup_path.has_access_control ≡ true
      → allows_caching (try_result out root h result w).1 ≡ allows_caching w
  unfolding try_result
  try_result-caching root h result w p =
      elim (Result-cases (resolve_extension out root h.sub_path result)) [
        | inr (_, e) ↦ rw (e, try_result) refl
        | inl (path, e) ↦ rw (e, try_result) (try_resolved-caching root h path w p)
      ]

  try_below-caching :
      (root : Root) (h : Handler) (result : Result ResolveError Text) (w : Response)
      → h.lookup_path.has_access_control ≡ true
      → allows_caching (try_below out root h result w).1 ≡ allows_caching w
  unfolding try_below allows_caching
  try_below-caching root h (err location_directory) w p = ground (
    arith,
    try_result-caching root h (resolve_path out root (h.sub_path ∷ codes "index.html" ∷ [])) w p,
  )
  try_below-caching root h (err location_file_no_extension) w p =
      try_result-caching root h (err location_file_no_extension) w p
  try_below-caching root h (err not_regular) w p = try_result-caching root h (err not_regular) w p
  try_below-caching root h (err (lookup_failed e)) w p =
      try_result-caching root h (err (lookup_failed e)) w p
  try_below-caching root h (ok path) w p = try_result-caching root h (ok path) w p

  with_root-caching :
      (vfs : Vfs) (h : Handler) (next : Root → Response → Bool × Response) (w : Response)
      → ((root : Root) → allows_caching (next root w).1 ≡ allows_caching w)
      → allows_caching (with_root out vfs h next w).1 ≡ allows_caching w
  unfolding with_root
  with_root-caching vfs h next w same = elim (Result-cases (vfs.root_at h.lookup_path.path)) [
    | inl (root, e) ↦ rw (e, with_root) (same root)
    | inr (not_exist, e) ↦ rw (e, with_root) refl
    | inr (failed code, e) ↦ rw (e, with_root) (error_page-caching page500 w)
  ]

  redirected-caching :
      (t : Option Url × ℕ × Option RedirectError) (w : Response)
      → allows_caching (redirected out t w).1 ≡ allows_caching w
  unfolding redirected allows_caching
  redirected-caching (some url, status, none) w = refl
  redirected-caching (none, status, none) w = refl
  redirected-caching (some url, status, some e) w = refl
  redirected-caching (none, status, some e) w = refl

  try_file-caching :
      (vfs : Vfs) (h : Handler) (w : Response)
      → h.lookup_path.has_access_control ≡ true
      → allows_caching (try_file out vfs h w).1 ≡ allows_caching w
  unfolding try_file
  try_file-caching vfs h w p =
      with_root-caching vfs h
        (λ root. try_below out root h (resolve_path out root (h.sub_path ∷ []))) w
        (λ root. try_below-caching root h (resolve_path out root (h.sub_path ∷ [])) w p)

  abbrev target : Root → Handler → Option Url × ℕ × Option RedirectError
  target root h =
      rewrite out.parse_url (parse_redirects out.parse_rules root) (out.request_url h.request)

  try_redirects-caching :
      (vfs : Vfs) (h : Handler) (w : Response)
      → allows_caching (try_redirects out vfs h w).1 ≡ allows_caching w
  unfolding try_redirects
  try_redirects-caching vfs h w =
      with_root-caching vfs h (λ root. redirected out (target root h)) w
        (λ root. redirected-caching (target root h) w)

  -- On a project with access control, serving a file, a redirect, an error or the report on the
  -- redirects never adds a header that lets the response be cached.
  pub disk_serve_file-caching :
      (vfs : Vfs) (h : Handler) (w : Response)
      → h.lookup_path.has_access_control ≡ true
      → allows_caching (disk_serve_file out vfs h w).1 ≡ allows_caching w
  unfolding disk_serve_file
  disk_serve_file-caching vfs h w p =
      let file = try_file-caching vfs h w p in
      let redirect = try_redirects-caching vfs h (try_file out vfs h w).1 ∙ file in
      if-cases {A = Bool × Response} (λ t. allows_caching t.1 ≡ allows_caching w)
        (try_file out vfs h w).0 _ _ (λ _. file)
        (λ _.
          if-cases {A = Bool × Response} (λ t. allows_caching t.1 ≡ allows_caching w)
            out.redirects_enabled _ _ (λ _. redirect) (λ _. file))
