-- ===== src/Auth/Checks.antt =====
-- internal/auth/auth.go: the check that a visitor may see a project.
use gitlab_pages_mirror.Common.{
  ℕ, Text, codes, text_eq, decimal, Bool, true, false, not, ◌&&◌, ◌≡◌, refl, Option, none, some,
  ◌++◌, ok, err, if◌then◌else◌, ltb, ◌==◌, dict_get, Option-cases, Bool-cases, inl, inr, arith,
  ==_iff, ap, ◌↔◌,
}
use gitlab_pages_mirror.Http.{Request}
use gitlab_pages_mirror.Responses.{Response, serve_error_page, page500}
use gitlab_pages_mirror.Auth.Sessions.{
  Auth, Session, ApiResponse, AccessReply, no_request, no_response, replied, check_session,
  check_token_exists, check_session_is_valid, destroy_session,
}

-- The interface `domain` of the package.
pub record DomainOps : Type 0 where
  pub get_project_id : Request → ℕ
  pub serve_not_found_auth_failed : Request → Response → Response

module _ (a : Auth) where
  -- The address that answers whether the visitor has access.
  unfoldable pub access_url : ℕ → Text
  unfolding decimal
  access_url project_id =
      if ltb 0 project_id
      then a.gitlab_server
        ++ (codes "/api/v4/projects/" ++ (decimal project_id ++ codes "/pages_access"))
      else a.gitlab_server ++ codes "/api/v4/user"

  abbrev says_invalid_token : Option Text → Bool
  says_invalid_token none = false
  says_invalid_token (some error) = text_eq error (codes "invalid_token")

  -- checkResponseForInvalidToken
  unfoldable pub check_response_for_invalid_token :
      ApiResponse → Session → Request → Response → Bool × Response
  unfolding destroy_session text_eq
  check_response_for_invalid_token resp session r w =
      if (resp.status == 401) && says_invalid_token resp.error
      then (true, destroy_session a session r w)
      else (false, w)

  -- The end of checkAuthentication, on what comes of the request to the API.
  check_answer : DomainOps → AccessReply → Session → Request → Response → Bool × Response
  unfolding check_response_for_invalid_token serve_error_page
  check_answer d no_request session r w = (true, serve_error_page page500 w)
  check_answer d no_response session r w = (true, d.serve_not_found_auth_failed r w)
  check_answer d (replied resp) session r w =
      let (handled, w') = check_response_for_invalid_token resp session r w in
      if handled
      then (true, w')
      else if not (resp.status == 200)
      then (true, d.serve_not_found_auth_failed r w')
      else (false, w')

  -- checkAuthentication
  unfoldable pub check_authentication : DomainOps → Request → Response → Bool × Response
  unfolding check_session_is_valid access_url check_answer
  check_authentication d r w = elim (check_session_is_valid a r w) [
    | err w' ↦ (true, w')
    | ok (session, token) ↦
        check_answer d (a.api_get (access_url (d.get_project_id r)) token) session r w
  ]

-- CheckAuthentication and CheckAuthenticationWithoutProject; none is a nil *Auth.
unfoldable pub check_with_project : Option Auth → DomainOps → Request → Response → Bool × Response
unfolding check_authentication serve_error_page
check_with_project none d r w = (true, serve_error_page page500 w)
check_with_project (some a) d r w = check_authentication a d r w

unfoldable pub check_without_project :
    Option Auth → DomainOps → Request → Response → Bool × Response
unfolding check_authentication
check_without_project none d r w = (false, w)
check_without_project (some a) d r w = check_authentication a d r w

-- The visitor has a session with a token, and the API answers 200 to that token on the project.
pub record IsAllowed (a : Auth) (d : DomainOps) (r : Request) : Type 0 where
  pub session : Session
  pub fresh : a.get_session r ≡ (session, false)
  pub token : Text
  pub kept : dict_get session (codes "access_token") ≡ some token
  pub response : ApiResponse
  pub answered : a.api_get (access_url a (d.get_project_id r)) token ≡ replied response
  pub status : response.status ≡ 200

module _ (a : Auth) (d : DomainOps) (r : Request) (w : Response) where
  answer_sound :
      (response : AccessReply) (session : Session)
      → (check_answer a d response session r w).0 ≡ false
      → (resp : ApiResponse) × (response ≡ replied resp) × (resp.status ≡ 200)
  unfolding check_answer
  answer_sound no_request session h = absurd (ground arith)
  answer_sound no_response session h = absurd (ground arith)
  answer_sound (replied resp) session h = (resp, refl, ground (arith, ==_iff resp.status 200))

  check_authentication_sound : (check_authentication a d r w).0 ≡ false → IsAllowed a d r
  unfolding check_authentication check_session_is_valid check_session check_token_exists
  check_authentication_sound h = elim (Bool-cases (a.get_session r).1) [
    | inl f ↦ absurd (ground (arith, f))
    | inr f ↦ elim (Option-cases (dict_get (a.get_session r).0 (codes "access_token"))) [
      | inl t ↦ absurd (ground (arith, f, t))
      | inr (token, t) ↦
          let (resp, e, s) =
            answer_sound (a.api_get (access_url a (d.get_project_id r)) token) (a.get_session r).0
              (ground (arith, f, t)) in
          record {
            session = (a.get_session r).0;
            fresh = ap (λ b. ((a.get_session r).0, b)) f;
            token = token;
            kept = t;
            response = resp;
            answered = e;
            status = s;
          }
    ]
  ]

  check_authentication_complete : IsAllowed a d r → (check_authentication a d r w).0 ≡ false
  unfolding check_authentication check_session_is_valid check_session check_token_exists
      check_answer check_response_for_invalid_token
  check_authentication_complete i = ground (
    arith,
    i.fresh,
    i.kept,
    i.answered,
    i.status,
    ==_iff i.response.status 200,
    ==_iff i.response.status 401,
  )

  pub check_authentication_iff : ((check_authentication a d r w).0 ≡ false) ↔ IsAllowed a d r
  check_authentication_iff = (check_authentication_sound, check_authentication_complete)
