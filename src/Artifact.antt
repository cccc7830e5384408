-- ===== src/Artifact.antt =====
-- internal/artifact/artifact.go: requests for the files of jobs, which the API of GitLab answers.
pub mod Paths
pub mod Handlers
pub mod Quiet
pub mod Caching
mod Tests
use gitlab_pages_mirror.Common.{
  ℕ, ◌-◌, Text, codes, Bool, true, false, not, ◌&&◌, ◌||◌, Option, none, some, [], ◌∷◌, ◌++◌, map,
  length, take, leb, ◌==◌, if◌then◌else◌, has_suffix, to_lower, path_join, split, join, text_eq,
}
use gitlab_pages_mirror.Http.{Request}
use gitlab_pages_mirror.Responses.{
  Response, serve_error_page, page404, page500, page502, set_header, write_header, write,
}
use gitlab_pages_mirror.Auth.Sessions.{ApiResponse}
use gitlab_pages_mirror.Artifact.Paths.{extract, trim_left_byte, trim_right_byte}

-- What is read of the answer of the API; `content_length` is the number as text.
pub record ArtifactReply : Type 0 where
  pub answer : ApiResponse
  pub content_type : Text
  pub content_length : Text
  pub body : Text

-- url.PathEscape, whether url.Parse and http.NewRequest accept a URL, and client.Do of a GET with
-- a bearer token.
pub record ArtifactLibrary : Type 0 where
  pub path_escape : Text → Text
  pub parses : Text → Bool
  pub request_fits : Text → Bool
  pub send : Text → Option Text → Option ArtifactReply

pub record Artifact : Type 0 where
  pub server : Text
  pub suffix : Text

unfoldable pub new_artifact : Text → Text → Artifact
unfolding to_lower trim_right_byte
new_artifact server pages_domain = record {
  server = trim_right_byte b'/' server;
  suffix = codes "." ++ to_lower pages_domain;
}

abbrev pub is_missing : Text → Bool
is_missing [] = true
is_missing (c ∷ s) = false

-- The header Authorization that is added.
abbrev pub bearer : Text → Option Text
bearer [] = none
bearer (c ∷ s) = some (codes "Bearer " ++ (c ∷ s))

unfoldable pub add_cache_header : ArtifactReply → Response → Response
add_cache_header resp w =
    if leb 200 resp.answer.status && leb resp.answer.status 299
    then set_header (codes "Cache-Control") (codes "max-age=3600") ∷ w
    else w

-- The end of makeRequest, behind the additional handler, which may have used the body up.
unfoldable pub write_artifact : Text → Bool → ArtifactReply → Response → Response
unfolding add_cache_header serve_error_page
write_artifact token body_read resp w =
    if resp.answer.status == 404
    then serve_error_page page404 w
    else if resp.answer.status == 500
    then serve_error_page page500 w
    else write (if body_read then [] else resp.body)
      ∷ write_header resp.answer.status
      ∷ set_header (codes "Content-Length") resp.content_length
      ∷ set_header (codes "Content-Type") resp.content_type
      ∷ (if is_missing token then add_cache_header resp w else w)

module _ (lib : ArtifactLibrary) where
  unfoldable pub encode_path_segments : Text → Text
  unfolding split join
  encode_path_segments path = join (codes "/") (map lib.path_escape (split b'/' path))

  -- The URL for a job's file in a project below the top group of a host.
  unfoldable pub artifact_url : Artifact → Text → Text × (Text × Text) → Text
  unfolding encode_path_segments path_join
  artifact_url a top_group (rest, (job_id, file)) =
      a.server
      ++ (codes "/projects/"
          ++ (lib.path_escape (path_join (top_group ∷ rest ∷ []))
              ++ (codes "/jobs/" ++ (job_id ++ (codes "/artifacts" ++ encode_path_segments file)))))

  unfoldable pub build_url : Artifact → Text → Text → Option Text
  unfolding has_suffix to_lower extract trim_left_byte trim_right_byte artifact_url
  build_url a host request_path =
      if not (has_suffix (to_lower host) a.suffix) then none else elim (extract request_path) [
        | none ↦ none
        | some (group, job) ↦
            let rest = trim_left_byte b'/' (trim_right_byte b'/' group) in
            let url = artifact_url a (take (length host - length a.suffix) host) (rest, job) in
            if is_missing rest then none else if lib.parses url then some url else none
      ]

  -- The reply to a request, behind which the additional handler is asked.
  unfoldable pub answer_with :
      Text
      → (ArtifactReply → Response → Bool × Response)
      → (ArtifactReply → Bool)
      → Option ArtifactReply
      → Response
      → Response
  unfolding write_artifact serve_error_page
  answer_with token handler body_read none w = serve_error_page page502 w
  answer_with token handler body_read (some resp) w =
      let (handled, w') = handler resp w in
      elim handled [ true ↦ w' | false ↦ write_artifact token (body_read resp) resp w' ]

  unfoldable pub make_request :
      Text
      → Text
      → (ArtifactReply → Response → Bool × Response)
      → (ArtifactReply → Bool)
      → Response
      → Response
  unfolding answer_with serve_error_page
  make_request url token handler body_read w =
      if lib.request_fits url
      then answer_with token handler body_read (lib.send url (bearer token)) w
      else serve_error_page page500 w

  -- TryMakeRequest; none is a nil *Artifact.
  unfoldable pub try_make_request :
      Option Artifact
      → Text
      → Request
      → Text
      → (ArtifactReply → Response → Bool × Response)
      → (ArtifactReply → Bool)
      → Response
      → Bool × Response
  unfolding build_url make_request
  try_make_request none host r token handler body_read w = (false, w)
  try_make_request (some a) host r token handler body_read w =
      if is_missing a.server || is_missing host
      then (false, w)
      else elim (build_url a host r.path) [
        | none ↦ (false, w)
        | some url ↦ (true, make_request url token handler body_read w)
      ]
