-- ===== src/Auth/Sessions.antt =====
-- internal/auth/auth.go: the session, the addresses of a request, and what the methods of Auth call
-- elsewhere: the cookie store, the API of GitLab, the encryption of a code, and URLs.
use gitlab_pages_mirror.Common.{
  ℕ, Text, codes, dict_get, dict_put, dict_remove, Bool, true, false, Option, none, some, [], ◌∷◌,
  ◌++◌, Dict, Result, ok, err, if◌then◌else◌,
}
use gitlab_pages_mirror.Http.{Request, is_https}
use gitlab_pages_mirror.Responses.{Response, serve_error_page, page500, http_redirect, set_session}

-- session.Values, whose keys and values are strings here.
abbrev pub Session : Type 0
Session = Dict Text

-- What the program reads of an answer: its status, and the field `error` of its JSON, none when it
-- does not decode.
pub record ApiResponse : Type 0 where
  pub status : ℕ
  pub error : Option Text

-- What comes of a request to the API: it cannot be made, it fails, or it is replied to.
pub data AccessReply : Type 0 where
  no_request no_response : AccessReply
  replied : ApiResponse → AccessReply

pub data SessionError : Type 0 where
  session_error : SessionError

pub record Auth : Type 0 where
  pub pages_domain : Text
  pub client_id : Text
  pub client_secret : Text
  pub redirect_uri : Text
  pub gitlab_server : Text
  pub auth_scope : Text
  -- store.Get: the session, new when the cookie does not decode, and whether there was an error
  pub get_session : Request → Session × Bool
  -- whether session.Save writes the cookie
  pub can_save : Session → Bool
  -- a new random state, in base64
  pub new_state : Text
  -- the host of url.Parse without a port, none when it does not parse
  pub host_of_url : Text → Option Text
  pub encrypt_and_sign_code : Text → Text → Option Text
  pub decrypt_code : Text → Text → Option Text
  -- http.NewRequest and apiClient.Do of a GET with a bearer token, and of the POST for a token, with its access token
  pub api_get : Text → Text → AccessReply
  pub api_token : Text → Text → Option Text
  -- url.Values.Encode
  pub encode_query : Dict Text → Text

-- Values.Get of the query, and session.Values[k] as a string.
abbrev pub query_get : Request → Text → Text
query_get r k = elim (dict_get r.query k) [ none ↦ [] | some v ↦ v ]

abbrev pub is_empty : Text → Bool
is_empty [] = true
is_empty (c ∷ s) = false

unfoldable pub get_request_domain : Request → Text
unfolding is_https
get_request_domain r = (if is_https r then codes "https://" else codes "http://") ++ r.host

unfoldable pub get_request_address : Request → Text
unfolding is_https
get_request_address r =
    (if is_https r then codes "https://" else codes "http://") ++ (r.host ++ r.request_uri)

module _ (a : Auth) where
  -- session.Save, and then what is done when it worked; otherwise the error page.
  unfoldable pub save_or_500 : Session → Response → (Response → Response) → Response
  unfolding serve_error_page
  save_or_500 session w next =
      if a.can_save session then next (set_session session ∷ w) else serve_error_page page500 w

  -- checkSession: the session, or the answer that ends the request.
  unfoldable pub check_session : Request → Response → Result Response Session
  unfolding save_or_500 get_request_address
  check_session r w =
      let (session, failed) = a.get_session r in
      if failed
      then err (save_or_500 session w (λ w'. http_redirect (get_request_address r) 302 ∷ w'))
      else ok session

  unfoldable pub get_proxy_address : Request → Text → Text
  unfolding get_request_domain
  get_proxy_address r state =
      a.redirect_uri ++ (codes "?domain=" ++ (get_request_domain r ++ (codes "&state=" ++ state)))

  -- What checkTokenExists stores before it sends the visitor away.
  abbrev pub login_session : Request → Session → Session
  login_session r session =
      dict_remove
        (dict_put (dict_put session (codes "state") a.new_state) (codes "uri")
          (get_request_address r))
        (codes "proxy_auth_domain")

  -- checkTokenExists, whose result is negated here: the token, or the answer.
  unfoldable pub check_token_exists : Session → Request → Response → Result Response Text
  unfolding dict_get dict_put dict_remove save_or_500 get_proxy_address get_request_address
  check_token_exists session r w = elim (dict_get session (codes "access_token")) [
    | some token ↦ ok token
    | none ↦ err (
        save_or_500 (login_session r session) w
          (λ w'. http_redirect (get_proxy_address r a.new_state) 302 ∷ w'))
  ]

  -- checkSessionIsValid: the session with its token, or the answer.
  unfoldable pub check_session_is_valid : Request → Response → Result Response (Session × Text)
  unfolding check_session check_token_exists
  check_session_is_valid r w = elim (check_session r w) [
    | err w' ↦ err w'
    | ok session ↦ elim (check_token_exists session r w) [
      | err w' ↦ err w'
      | ok token ↦ ok (session, token)
    ]
  ]

  unfoldable pub destroy_session : Session → Request → Response → Response
  unfolding save_or_500 dict_remove get_request_address
  destroy_session session r w =
      save_or_500 (dict_remove session (codes "access_token")) w
        (λ w'. http_redirect (get_request_address r) 302 ∷ w')
