-- ===== src/Artifact/Quiet.antt =====
-- internal/auth and internal/handlers: what the handlers of artifacts answer themselves is not for
-- caches.
use gitlab_pages_mirror.Common.{
  Text, codes, Bool, true, false, not, Option, none, some, ◌∷◌, ◌≡◌, refl, ◌∙◌, subst, Result, ok,
  err, ◌==◌, if-cases, inl, inr, dict_get, Option-cases, Result-cases, dict_remove, ◌&&◌,
}
use gitlab_pages_mirror.Http.{Request}
use gitlab_pages_mirror.Responses.{Response, ErrorPage, page500, serve_error_page, http_redirect}
use gitlab_pages_mirror.Serving.Reader.Caching.{allows_caching, is_cache_call}
use gitlab_pages_mirror.Auth.Sessions.{
  Auth, Session, ApiResponse, save_or_500, check_session, check_token_exists,
  check_session_is_valid, destroy_session, get_proxy_address, get_request_address, login_session,
}
use gitlab_pages_mirror.Auth.Checks.{check_response_for_invalid_token}
use gitlab_pages_mirror.Auth.Tokens.{
  get_token_if_exists, is_auth_supported, require_auth, check_response,
}
use gitlab_pages_mirror.Artifact.{ArtifactReply, is_missing}
use gitlab_pages_mirror.Artifact.Handlers.{check_if_login_required, require_login, unless_handled}

-- A response that allows caching no more than the one before it.
abbrev pub Quiet : Response → Response → Type 0
Quiet w w' = allows_caching w' ≡ allows_caching w

pub serve_error_page-Quiet : (p : ErrorPage) (w : Response) → Quiet w (serve_error_page p w)
unfolding allows_caching is_cache_call serve_error_page
serve_error_page-Quiet p w = refl

-- The same of an answer that ends a request.
abbrev pub Silent {ℓ} : {A : Type ℓ} → Response → Result Response A → Type 0
Silent w (err w') = Quiet w w'
Silent w (ok x) = Unit

module _ (a : Auth) where
  save_or_500-Quiet :
      (session : Session) (w : Response) (url : Text)
      → Quiet w (save_or_500 a session w (λ w'. http_redirect url 302 ∷ w'))
  unfolding save_or_500 allows_caching is_cache_call
  save_or_500-Quiet session w url =
      if-cases (Quiet w) (a.can_save session) _ _ (λ e. refl)
        (λ e. serve_error_page-Quiet page500 w)

  check_session-Silent : (r : Request) (w : Response) → Silent w (check_session a r w)
  unfolding check_session
  check_session-Silent r w =
      if-cases (Silent w) (a.get_session r).1 _ _
        (λ e. save_or_500-Quiet (a.get_session r).0 w (get_request_address r)) (λ e. tt)

  check_token_exists-Silent :
      (session : Session) (r : Request) (w : Response) → Silent w (check_token_exists a session r w)
  unfolding check_token_exists
  check_token_exists-Silent session r w =
      elim (Option-cases (dict_get session (codes "access_token"))) [
        | inl e ↦
            rw (e, check_token_exists)
              (save_or_500-Quiet (login_session a r session) w (get_proxy_address a r a.new_state))
        | inr (token, e) ↦ rw (e, check_token_exists) tt
      ]

  check_session_is_valid-Silent :
      (r : Request) (w : Response) → Silent w (check_session_is_valid a r w)
  unfolding check_session_is_valid
  check_session_is_valid-Silent r w = elim (Result-cases (check_session a r w)) [
    | inr (w', e) ↦ rw (e, check_session_is_valid) (subst (Silent w) e (check_session-Silent r w))
    | inl (s, e) ↦ elim (Result-cases (check_token_exists a s r w)) [
      | inr (w', f) ↦
          rw (e, f, check_session_is_valid) (subst (Silent w) f (check_token_exists-Silent s r w))
      | inl (t, f) ↦ rw (e, f, check_session_is_valid) tt
    ]
  ]

  require_auth-Quiet : (r : Request) (w : Response) → Quiet w (require_auth a r w).1
  unfolding require_auth
  require_auth-Quiet r w = elim (Result-cases (check_session_is_valid a r w)) [
    | inr (w', e) ↦ rw (e, require_auth) (subst (Silent w) e (check_session_is_valid-Silent r w))
    | inl (s, e) ↦ rw (e, require_auth) refl
  ]

  check_response_for_invalid_token-Quiet :
      (resp : ApiResponse) (session : Session) (r : Request) (w : Response)
      → Quiet w (check_response_for_invalid_token a resp session r w).1
  unfolding check_response_for_invalid_token destroy_session
  check_response_for_invalid_token-Quiet resp session r w =
      if-cases (λ (t : Bool × Response). Quiet w t.1) _ _ _
        (λ e.
          save_or_500-Quiet (dict_remove session (codes "access_token")) w (get_request_address r))
        (λ e. refl)

check_response-Quiet :
    (a : Option Auth) (resp : ApiResponse) (r : Request) (w : Response)
    → Quiet w (check_response a resp r w).1
unfolding check_response
check_response-Quiet none resp r w = refl
check_response-Quiet (some a) resp r w = elim (Result-cases (check_session a r w)) [
  | inl (session, e) ↦
      rw (e, check_response) (check_response_for_invalid_token-Quiet a resp session r w)
  | inr (w', e) ↦ rw (e, check_response) (subst (Silent w) e (check_session-Silent a r w))
]

unless_handled-Quiet :
    (w : Response) (t : Bool × Response) (next : Response → Bool × Response)
    → Quiet w t.1
    → ((v : Response) → Quiet v (next v).1)
    → Quiet w (unless_handled t next).1
unless_handled-Quiet w (true, v) next h k = h
unless_handled-Quiet w (false, v) next h k = k v ∙ h

require_login-Quiet :
    (a : Option Auth) (r : Request) (w : Response) → Quiet w (require_login a r w).1
unfolding require_login
require_login-Quiet none r w = refl
require_login-Quiet (some a) r w = require_auth-Quiet a r w

-- The additional handler.
pub check_if_login_required-Quiet :
    (a : Option Auth) (token : Text) (r : Request) (resp : ArtifactReply) (w : Response)
    → Quiet w (check_if_login_required a token r resp w).1
unfolding check_if_login_required
check_if_login_required-Quiet a token r resp w =
    if-cases (λ (t : Bool × Response). Quiet w t.1)
      ((resp.answer.status == 404) && is_missing token) _ _
      (λ e.
        if-cases (λ (t : Bool × Response). Quiet w t.1) (not (is_auth_supported a)) _ _ (λ f. refl)
          (λ f.
            unless_handled-Quiet w (require_login a r w) (check_response a resp.answer r)
              (require_login-Quiet a r w) (check_response-Quiet a resp.answer r)))
      (λ e. check_response-Quiet a resp.answer r w)

pub get_token_if_exists-Silent :
    (a : Option Auth) (r : Request) (w : Response) → Silent w (get_token_if_exists a r w)
unfolding get_token_if_exists
get_token_if_exists-Silent none r w = tt
get_token_if_exists-Silent (some a) r w = elim (Result-cases (check_session a r w)) [
  | inr (w', e) ↦ rw (e, get_token_if_exists) (subst (Silent w) e (check_session-Silent a r w))
  | inl (session, e) ↦ elim (Option-cases (dict_get session (codes "access_token"))) [
    | inl f ↦ rw (e, f, get_token_if_exists) tt
    | inr (token, f) ↦ rw (e, f, get_token_if_exists) tt
  ]
]
