-- ===== src/Serving/Reader/Reading.antt =====
-- internal/serving/disk: which files the reader serves, and what it leaves alone.
use gitlab_pages_mirror.Common.{
  ℕ, Text, codes, Bool, true, false, ◌≡◌, refl, Option, none, some, List, [], ◌∷◌, Result, ok, err,
  Result-cases, inl, inr, arith, join,
}
use gitlab_pages_mirror.Vfs.{not_exist, failed, FileInfo, Root, Vfs}
use gitlab_pages_mirror.Responses.{Response}
use gitlab_pages_mirror.Redirects.Rules.{RedirectError, Url}
use gitlab_pages_mirror.Serving.Handlers.{Handler}
use gitlab_pages_mirror.Serving.Reader.{
  Outside, ResolveError, location_directory, location_file_no_extension, not_regular, lookup_failed,
  resolve_path, try_result, try_below, with_root, try_file, redirected, try_redirects,
  disk_serve_file,
}

-- A path that the symbolic links lead to, at which there is a regular file and no directory.
pub record IsServable (out : Outside) (root : Root) (sub_path : List Text) (path : Text)
    : Type 0 where
  pub info : FileInfo
  pub reached : out.eval_symlinks root (join (codes "/") sub_path) ≡ ok path
  pub found : root.lstat path ≡ ok info
  pub regular : info.is_regular ≡ true
  pub no_directory : info.is_dir ≡ false

module _ (out : Outside) where
  -- A path resolves exactly to a regular file that the symbolic links below the root lead to.
  pub resolve_path-IsServable :
      (root : Root) (sub_path : List Text) (path : Text)
      → resolve_path out root sub_path ≡ ok path
      → IsServable out root sub_path path
  unfolding resolve_path
  resolve_path-IsServable root sub_path path h =
      elim (Result-cases (out.eval_symlinks root (join (codes "/") sub_path))) [
        | inr (_, e) ↦ absurd (ground arith)
        | inl (full, e) ↦ elim (Result-cases (root.lstat full)) [
          | inr (_, f) ↦ absurd (ground arith)
          | inl (info, f) ↦ record {
            info = info;
            reached = ground arith;
            found = ground arith;
            regular = ground arith;
            no_directory = ground arith;
          }
        ]
      ]

  -- A trial that does not answer leaves the response alone.
  abbrev IsQuiet : (Response → Bool × Response) → Type 0
  IsQuiet t = (w : Response) → (t w).0 ≡ false → (t w).1 ≡ w

  with_root-IsQuiet :
      (vfs : Vfs) (h : Handler) (next : Root → Response → Bool × Response)
      → ((root : Root) → IsQuiet (next root))
      → IsQuiet (with_root out vfs h next)
  unfolding with_root
  with_root-IsQuiet vfs h next quiet w q = elim (Result-cases (vfs.root_at h.lookup_path.path)) [
    | inl (root, e) ↦ ground (arith, e, quiet root w)
    | inr (not_exist, e) ↦ ground (arith, e)
    | inr (failed code, e) ↦ ground (arith, e)
  ]

  try_result-IsQuiet :
      (root : Root) (h : Handler) (result : Result ResolveError Text)
      → IsQuiet (try_result out root h result)
  unfolding try_result
  try_result-IsQuiet root h result w q = ground arith

  try_below-IsQuiet :
      (root : Root) (h : Handler) (result : Result ResolveError Text)
      → IsQuiet (try_below out root h result)
  unfolding try_below
  try_below-IsQuiet root h (err location_directory) w q = ground (
    arith,
    try_result-IsQuiet root h (resolve_path out root (h.sub_path ∷ codes "index.html" ∷ [])) w,
  )
  try_below-IsQuiet root h (err location_file_no_extension) w q =
      try_result-IsQuiet root h (err location_file_no_extension) w q
  try_below-IsQuiet root h (err not_regular) w q = try_result-IsQuiet root h (err not_regular) w q
  try_below-IsQuiet root h (err (lookup_failed e)) w q =
      try_result-IsQuiet root h (err (lookup_failed e)) w q
  try_below-IsQuiet root h (ok path) w q = try_result-IsQuiet root h (ok path) w q

  redirected-IsQuiet : (t : Option Url × ℕ × Option RedirectError) → IsQuiet (redirected out t)
  unfolding redirected
  redirected-IsQuiet (some url, status, none) w q = ground arith
  redirected-IsQuiet (none, status, none) w q = ground arith
  redirected-IsQuiet (some url, status, some e) w q = refl
  redirected-IsQuiet (none, status, some e) w q = refl

  try_file-IsQuiet : (vfs : Vfs) (h : Handler) → IsQuiet (try_file out vfs h)
  unfolding try_file
  try_file-IsQuiet vfs h =
      with_root-IsQuiet vfs h _
        (λ root. try_below-IsQuiet root h (resolve_path out root (h.sub_path ∷ [])))

  try_redirects-IsQuiet : (vfs : Vfs) (h : Handler) → IsQuiet (try_redirects out vfs h)
  unfolding try_redirects
  try_redirects-IsQuiet vfs h = with_root-IsQuiet vfs h _ (λ root. redirected-IsQuiet _)

  -- When the reader says that it has served nothing, neither a file nor a redirect, it has made no
  -- call on the response, so that an error page can still follow.
  pub disk_serve_file_quiet :
      (vfs : Vfs) (h : Handler) (w : Response)
      → (disk_serve_file out vfs h w).0 ≡ false
      → (disk_serve_file out vfs h w).1 ≡ w
  unfolding disk_serve_file
  disk_serve_file_quiet vfs h w q =
      ground (arith, try_file-IsQuiet vfs h w, try_redirects-IsQuiet vfs h w)
