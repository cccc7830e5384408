-- ===== src/Auth/Tokens.antt =====
-- internal/auth/auth.go: the methods that the handlers of artifacts call; none is a nil *Auth.
use gitlab_pages_mirror.Common.{
  ℕ, ◌++◌, if◌then◌else◌, Text, codes, Bool, true, false, ◌&&◌, Option, none, some, [], Result, ok,
  err, ◌==◌, dict_get, is_some,
}
use gitlab_pages_mirror.Http.{Request}
use gitlab_pages_mirror.Responses.{Response}
use gitlab_pages_mirror.Auth.Sessions.{Auth, ApiResponse, check_session, check_session_is_valid}
use gitlab_pages_mirror.Auth.Checks.{check_response_for_invalid_token}

-- GetTokenIfExists: the token, empty when there is none, or the answer that checkSession has made.
unfoldable pub get_token_if_exists : Option Auth → Request → Response → Result Response Text
unfolding check_session dict_get
get_token_if_exists none r w = ok []
get_token_if_exists (some a) r w = elim (check_session a r w) [
  | err w' ↦ err w'
  | ok session ↦ elim (dict_get session (codes "access_token")) [ none ↦ ok [] | some t ↦ ok t ]
]

unfoldable pub is_auth_supported : Option Auth → Bool
is_auth_supported a = is_some a

-- RequireAuth, which is called where the authentication is supported.
unfoldable pub require_auth : Auth → Request → Response → Bool × Response
unfolding check_session_is_valid
require_auth a r w = elim (check_session_is_valid a r w) [ err w' ↦ (true, w') | ok s ↦ (false, w) ]

-- CheckResponseForInvalidToken
unfoldable pub check_response : Option Auth → ApiResponse → Request → Response → Bool × Response
unfolding check_session check_response_for_invalid_token
check_response none resp r w = (false, w)
check_response (some a) resp r w = elim (check_session a r w) [
  | err w' ↦ (true, w')
  | ok session ↦ check_response_for_invalid_token a resp session r w
]

-- Whether CheckResponseForInvalidToken reads the body of the response, and closes it.
unfoldable pub reads_body : Option Auth → ApiResponse → Bool
reads_body a resp = is_some a && (resp.status == 401)

-- The error of fetchAccessToken.
pub data TokenError : Type 0 where
  not_sent response_not_ok not_decoded : TokenError

-- fetchAccessToken: `post` makes a request with a body to an address, sends it, and gives the status and the body of the
-- reply, and `decode` is the access token in the JSON of a body.
unfoldable pub fetch_access_token :
    Auth → (Text → Text → Option (ℕ × Text)) → (Text → Option Text) → Text → Result TokenError Text
fetch_access_token a post decode code =
    let url = a.gitlab_server ++ codes "/oauth/token" in
    let content =
      codes "client_id="
      ++ (a.client_id
          ++ (codes "&client_secret="
              ++ (a.client_secret
                  ++ (codes "&code="
                      ++ (code
                          ++ (codes "&grant_type=authorization_code&redirect_uri="
                              ++ a.redirect_uri)))))) in
    elim (post url content) [
      | none ↦ err not_sent
      | some (status, body) ↦
          if status == 200
          then elim (decode body) [ none ↦ err not_decoded | some token ↦ ok token ]
          else err response_not_ok
    ]
