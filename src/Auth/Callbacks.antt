-- ===== src/Auth/Callbacks.antt =====
-- internal/auth/auth.go: the handler of the callback /auth, on the pages domain and on custom
-- domains.
use gitlab_pages_mirror.Common.{
  Text, codes, text_eq, text_eq_iff, has_suffix, dict_get, dict_put, dict_remove, Bool, true, false,
  not, ◌&&◌, ◌||◌, ◌≡◌, refl, Option, none, some, ◌∷◌, ◌++◌, ok, err, if◌then◌else◌, Result-cases,
  Option-cases, Bool-cases, inl, inr, arith, if-cases,
}
use gitlab_pages_mirror.Common.TextLaws.{has_suffix-append}
use gitlab_pages_mirror.Http.{Request}
use gitlab_pages_mirror.Responses.{
  Response, serve_error_page, page401, page500, page503, http_redirect, set_session,
}
use gitlab_pages_mirror.Auth.Sessions.{
  Auth, Session, query_get, is_empty, get_request_domain, save_or_500, check_session,
}

unfoldable pub should_proxy_auth_to_gitlab : Request → Bool
unfolding dict_get
should_proxy_auth_to_gitlab r =
    not (is_empty (query_get r (codes "domain"))) && not (is_empty (query_get r (codes "state")))

unfoldable pub verify_code_and_state_given : Request → Bool
unfolding dict_get
verify_code_and_state_given r =
    not (is_empty (query_get r (codes "code"))) && not (is_empty (query_get r (codes "state")))

unfoldable pub validate_state : Request → Session → Bool
unfolding dict_get text_eq
validate_state r session =
    let state = query_get r (codes "state") in
    if is_empty state
    then false
    else elim (dict_get session (codes "state")) [ none ↦ false | some s ↦ text_eq s state ]

-- `get_domain` tells whether GetDomain of the source gives a domain, and whether it gives an error.
module _ (a : Auth) (get_domain : Text → Bool × Bool) where
  unfoldable pub domain_allowed : Text → Bool
  unfolding text_eq has_suffix
  domain_allowed name =
      let (found, failed) = get_domain name in
      if text_eq name a.pages_domain || has_suffix (codes "." ++ name) a.pages_domain
      then true
      else found && not failed

  abbrev authorize_url : Text → Text
  authorize_url state =
      a.gitlab_server
      ++ (codes "/oauth/authorize?client_id="
          ++ (a.client_id
              ++ (codes "&redirect_uri="
                  ++ (a.redirect_uri
                      ++ (codes "&response_type=code&state="
                          ++ (state ++ (codes "&scope=" ++ a.auth_scope)))))))

  -- The first half of handleProxyingAuth: the visitor of another domain is sent to GitLab.
  unfoldable pub proxy_to_gitlab : Session → Request → Response → Response
  unfolding domain_allowed dict_get dict_put save_or_500 serve_error_page
  proxy_to_gitlab session r w =
      let domain = query_get r (codes "domain") in
      elim (a.host_of_url domain) [
        | none ↦ serve_error_page page500 w
        | some host ↦
            if not (domain_allowed host)
            then serve_error_page page401 w
            else save_or_500 a (dict_put session (codes "proxy_auth_domain") domain) w
                (λ w'. http_redirect (authorize_url (query_get r (codes "state"))) 302 ∷ w')
      ]

  -- Its second half: the callback is sent on to the domain it started from, with the code
  -- encrypted for that domain.
  unfoldable pub proxy_to_domain : Text → Session → Request → Response → Response
  unfolding dict_get dict_put dict_remove save_or_500 serve_error_page
  proxy_to_domain proxy_domain session r w =
      save_or_500 a (dict_remove session (codes "proxy_auth_domain")) w (λ w'.
        elim (a.encrypt_and_sign_code proxy_domain (query_get r (codes "code"))) [
          | none ↦ serve_error_page page503 w'
          | some signed_code ↦
              http_redirect
                (proxy_domain
                  ++ (r.path
                      ++ (codes "?"
                          ++ a.encode_query (
                              dict_put (dict_remove r.query (codes "token")) (codes "code")
                                signed_code))))
                302
              ∷ w'
        ])

  unfoldable pub handle_proxying_auth : Session → Request → Response → Bool × Response
  unfolding should_proxy_auth_to_gitlab proxy_to_gitlab proxy_to_domain dict_get
  handle_proxying_auth session r w =
      if should_proxy_auth_to_gitlab r
      then (true, proxy_to_gitlab session r w)
      else elim (dict_get session (codes "proxy_auth_domain")) [
        | none ↦ (false, w)
        | some proxy_domain ↦ (true, proxy_to_domain proxy_domain session r w)
      ]

  -- checkAuthenticationResponse from the call of DecryptCode on.
  exchange_code : Text → Session → Request → Response → Response
  unfolding dict_get dict_put get_request_domain save_or_500 serve_error_page
  exchange_code redirect_uri session r w =
      elim (a.decrypt_code (query_get r (codes "code")) (get_request_domain r)) [
        | none ↦ serve_error_page page500 w
        | some code ↦ elim (a.api_token a.gitlab_server code) [
          | none ↦ serve_error_page page503 w
          | some token ↦
              save_or_500 a (dict_put session (codes "access_token") token) w
                (λ w'. http_redirect redirect_uri 302 ∷ w')
        ]
      ]

  -- checkAuthenticationResponse
  unfoldable pub check_authentication_response : Session → Request → Response → Response
  unfolding validate_state dict_get exchange_code serve_error_page
  check_authentication_response session r w =
      if not (validate_state r session)
      then serve_error_page page401 w
      else elim (dict_get session (codes "uri")) [
        | none ↦ serve_error_page page500 w
        | some redirect_uri ↦ exchange_code redirect_uri session r w
      ]

  -- What TryAuthenticate does on the callback path.
  unfoldable pub handle_callback : Session → Request → Response → Bool × Response
  unfolding handle_proxying_auth verify_code_and_state_given check_authentication_response
      serve_error_page dict_get
  handle_callback session r w =
      let (proxied, w') = handle_proxying_auth session r w in
      if proxied
      then (true, w')
      else if not (is_empty (query_get r (codes "error")))
      then (true, serve_error_page page401 w')
      else if verify_code_and_state_given r
      then (true, check_authentication_response session r w')
      else (false, w')

-- TryAuthenticate; none is a nil *Auth.
unfoldable pub try_authenticate :
    Option Auth → (Text → Bool × Bool) → Request → Response → Bool × Response
unfolding check_session handle_callback text_eq
try_authenticate none get_domain r w = (false, w)
try_authenticate (some a) get_domain r w = elim (check_session a r w) [
  | err w' ↦ (true, w')
  | ok session ↦
      if not (text_eq r.path (codes "/auth"))
      then (false, w)
      else handle_callback a get_domain session r w
]

-- The answers to a callback with a code. Only the last one stores a token.
pub data IsAnswer (a : Auth) (session : Session) (r : Request) (w : Response)
    : Response → Type 0 where
  unauthorized : IsAnswer a session r w (serve_error_page page401 w)
  failed : IsAnswer a session r w (serve_error_page page500 w)
  unavailable : IsAnswer a session r w (serve_error_page page503 w)
  logged_in :
      (state uri code token : Text)
      → dict_get session (codes "state") ≡ some state
      → query_get r (codes "state") ≡ state
      → dict_get session (codes "uri") ≡ some uri
      → a.decrypt_code (query_get r (codes "code")) (get_request_domain r) ≡ some code
      → a.api_token a.gitlab_server code ≡ some token
      → IsAnswer a session r w
          (http_redirect uri 302 ∷ set_session (dict_put session (codes "access_token") token) ∷ w)

module _ (a : Auth) (get_domain : Text → Bool × Bool) where
  -- Any name that ends in the pages domain is allowed, with or without a dot in between, although
  -- no source knows it.
  pub domain_allowed-append : (s : Text) → domain_allowed a get_domain (s ++ a.pages_domain) ≡ true
  unfolding domain_allowed
  domain_allowed-append s =
      let tail = has_suffix-append (codes "." ++ s) a.pages_domain in ground (arith, tail)

  state_of :
      (session : Session) (r : Request)
      → validate_state r session ≡ true
      → (dict_get session (codes "state") ≡ some (query_get r (codes "state")))
  unfolding validate_state
  state_of session r h = elim (Option-cases (dict_get session (codes "state"))) [
    | inl e ↦ ground (arith, e)
    | inr (s, e) ↦ ground (arith, e, text_eq_iff s (query_get r (codes "state")))
  ]

  with_code :
      (session : Session) (r : Request) (w : Response) (uri : Text)
      → dict_get session (codes "state") ≡ some (query_get r (codes "state"))
      → dict_get session (codes "uri") ≡ some uri
      → IsAnswer a session r w (exchange_code a get_domain uri session r w)
  unfolding exchange_code save_or_500
  with_code session r w uri v u =
      elim (Option-cases (a.decrypt_code (query_get r (codes "code")) (get_request_domain r))) [
        | inl c ↦ rw (c, exchange_code) failed
        | inr (code, c) ↦ elim (Option-cases (a.api_token a.gitlab_server code)) [
          | inl t ↦ rw (c, t, exchange_code) unavailable
          | inr (token, t) ↦
              rw (c, t, exchange_code)
                (if-cases (IsAnswer a session r w)
                  (a.can_save (dict_put session (codes "access_token") token)) _ _
                  (λ _. logged_in (query_get r (codes "state")) uri code token v refl u c t)
                  (λ _. failed))
        ]
      ]

  -- A token is stored only when the state of the callback is that of the session, and the code
  -- decrypts for this domain and is accepted by GitLab; the visitor then goes to the address that
  -- the session kept. In every other case the answer is an error page.
  pub check_authentication_response-IsAnswer :
      (session : Session) (r : Request) (w : Response)
      → IsAnswer a session r w (check_authentication_response a get_domain session r w)
  unfolding check_authentication_response
  check_authentication_response-IsAnswer session r w =
      elim (Bool-cases (validate_state r session)) [
        | inr v ↦ rw (v, check_authentication_response) unauthorized
        | inl v ↦ elim (Option-cases (dict_get session (codes "uri"))) [
          | inl u ↦ rw (v, u, check_authentication_response) failed
          | inr (uri, u) ↦
              rw (v, u, check_authentication_response)
                (with_code session r w uri (state_of session r v) u)
        ]
      ]

  handle_callback_quiet :
      (session : Session) (r : Request) (w : Response)
      → (handle_callback a get_domain session r w).0 ≡ false
      → (handle_callback a get_domain session r w).1 ≡ w
  unfolding handle_callback handle_proxying_auth
  handle_callback_quiet session r w h = ground arith

-- When the handler of the callback lets a request pass, it has made no call on the response.
pub try_authenticate_quiet :
    (a : Option Auth) (get_domain : Text → Bool × Bool) (r : Request) (w : Response)
    → (try_authenticate a get_domain r w).0 ≡ false
    → (try_authenticate a get_domain r w).1 ≡ w
unfolding try_authenticate
try_authenticate_quiet none get_domain r w h = refl
try_authenticate_quiet (some a) get_domain r w h = elim (Result-cases (check_session a r w)) [
  | inr (w', e) ↦ absurd (ground (arith, e))
  | inl (session, e) ↦ ground (arith, e, handle_callback_quiet a get_domain session r w)
]
