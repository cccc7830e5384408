-- ===== src/Artifact/Handlers.antt =====
-- internal/handlers/handlers.go: requests for artifacts, with the token of the visitor if there is
-- one, and with a login when the artifact is not public.
use gitlab_pages_mirror.Common.{
  Text, Bool, true, false, not, ◌&&◌, Option, none, some, Result, ok, err, ◌==◌, if◌then◌else◌,
}
use gitlab_pages_mirror.Http.{Request}
use gitlab_pages_mirror.Responses.{Response}
use gitlab_pages_mirror.Auth.Sessions.{Auth}
use gitlab_pages_mirror.Auth.Tokens.{
  get_token_if_exists, is_auth_supported, require_auth, check_response, reads_body,
}
use gitlab_pages_mirror.Artifact.{
  ArtifactReply, ArtifactLibrary, Artifact, is_missing, try_make_request,
}

-- RequireAuth, which nothing calls on a nil *Auth.
unfoldable pub require_login : Option Auth → Request → Response → Bool × Response
unfolding require_auth
require_login none r w = (false, w)
require_login (some a) r w = require_auth a r w

abbrev pub unless_handled : Bool × Response → (Response → Bool × Response) → Bool × Response
unless_handled (true, w) next = (true, w)
unless_handled (false, w) next = next w

-- checkIfLoginRequiredOrInvalidToken
unfoldable pub check_if_login_required :
    Option Auth → Text → Request → ArtifactReply → Response → Bool × Response
unfolding require_login check_response is_auth_supported
check_if_login_required a token r resp w =
    if (resp.answer.status == 404) && is_missing token
    then (if not (is_auth_supported a)
        then (false, w)
        else unless_handled (require_login a r w) (check_response a resp.answer r))
    else check_response a resp.answer r w

-- HandleArtifactRequest, behind GetTokenIfExists.
unfoldable pub with_token :
    ArtifactLibrary
    → Option Auth
    → Option Artifact
    → Text
    → Request
    → Response
    → Result Response Text
    → Bool × Response
unfolding try_make_request check_if_login_required reads_body
with_token lib auth artifact host r w (err w') = (true, w')
with_token lib auth artifact host r w (ok token) =
    try_make_request lib artifact host r token (check_if_login_required auth token r)
      (λ resp. reads_body auth resp.answer) w

unfoldable pub handle_artifact_request :
    ArtifactLibrary → Option Auth → Option Artifact → Text → Request → Response → Bool × Response
unfolding with_token get_token_if_exists
handle_artifact_request lib auth artifact host r w =
    with_token lib auth artifact host r w (get_token_if_exists auth r w)
