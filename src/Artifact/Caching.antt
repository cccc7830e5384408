-- ===== src/Artifact/Caching.antt =====
-- internal/artifact and internal/handlers: which answers for artifacts may be cached.
use gitlab_pages_mirror.Common.{
  ℕ, ◌≤◌, Text, Bool, true, false, Option, none, some, [], ◌∷◌, ◌≡◌, refl, sym, ap, ◌∙◌, Result, ok,
  err, arith, leb, ◌==◌, if◌then◌else◌, if-cases, inl, inr, Option-cases, ◌&&◌, ◌||◌,
}
use gitlab_pages_mirror.Http.{Request}
use gitlab_pages_mirror.Responses.{Response, page404, page500, page502}
use gitlab_pages_mirror.Serving.Reader.Caching.{allows_caching, is_cache_call}
use gitlab_pages_mirror.Auth.Sessions.{Auth}
use gitlab_pages_mirror.Auth.Tokens.{get_token_if_exists, reads_body}
use gitlab_pages_mirror.Artifact.{
  ArtifactReply, ArtifactLibrary, Artifact, is_missing, bearer, add_cache_header, write_artifact,
  build_url, answer_with, make_request, try_make_request,
}
use gitlab_pages_mirror.Artifact.Handlers.{
  check_if_login_required, with_token, handle_artifact_request,
}
use gitlab_pages_mirror.Artifact.Quiet.{
  Quiet, Silent, serve_error_page-Quiet, check_if_login_required-Quiet, get_token_if_exists-Silent,
}

-- The reply of the API that may be cached: to a request without a token, in the series 2xx.
pub record IsPublic (lib : ArtifactLibrary) (token : Text) : Type 0 where
  pub anonymous : token ≡ []
  pub url : Text
  pub reply : ArtifactReply
  pub sent : lib.send url none ≡ some reply
  pub lower : 200 ≤ reply.answer.status
  pub upper : reply.answer.status ≤ 299

-- What makes a response cacheable that was not.
Allowed : Text → ArtifactReply → Type 0
Allowed token resp = (token ≡ []) × (200 ≤ resp.answer.status) × (resp.answer.status ≤ 299)

missing_empty : (token : Text) → is_missing token ≡ true → token ≡ []
missing_empty [] h = refl
missing_empty (c ∷ s) h = cc

-- Not cacheable, or for a reason.
Justified : Type 0 → Response → Type 0
Justified P w = allows_caching w ≡ true → P

in_series : (n : ℕ) → (leb 200 n && leb n 299) ≡ true → (200 ≤ n) × (n ≤ 299)
in_series n h = ground arith

header_added :
    (token : Text) (resp : ArtifactReply) (w : Response)
    → allows_caching w ≡ false
    → Justified (Allowed token resp) (if is_missing token then add_cache_header resp w else w)
unfolding Justified Allowed add_cache_header
header_added token resp w h =
    if-cases (λ (t : Response). allows_caching t ≡ true → Allowed token resp) (is_missing token) _ _
      (λ e.
        if-cases (λ (t : Response). allows_caching t ≡ true → Allowed token resp)
          (leb 200 resp.answer.status && leb resp.answer.status 299) _ _
          (λ f k.
            let (low, high) = in_series resp.answer.status f in (missing_empty token e, low, high))
          (λ f k. cc (h, k)))
      (λ e k. cc (h, k))

written :
    (token : Text) (b : Bool) (resp : ArtifactReply) (w : Response)
    → allows_caching w ≡ false
    → Justified (Allowed token resp) (write_artifact token b resp w)
unfolding write_artifact Justified Allowed allows_caching is_cache_call
written token b resp w h =
    if-cases (λ (t : Response). allows_caching t ≡ true → Allowed token resp)
      (resp.answer.status == 404) _ _ (λ e k. cc (serve_error_page-Quiet page404 w, h, k))
      (λ e.
        if-cases (λ (t : Response). allows_caching t ≡ true → Allowed token resp)
          (resp.answer.status == 500) _ _ (λ f k. cc (serve_error_page-Quiet page500 w, h, k))
          (λ f k. header_added token resp w h k))

module _ (lib : ArtifactLibrary) where
  decided :
      (token url : Text) (b : Bool) (resp : ArtifactReply) (w : Response) (t : Bool × Response)
      → Quiet w t.1
      → lib.send url (bearer token) ≡ some resp
      → allows_caching w ≡ false
      → allows_caching (elim t.0 [ true ↦ t.1 | false ↦ write_artifact token b resp t.1 ]) ≡ true
      → IsPublic lib token
  unfolding Allowed Justified
  decided token url b resp w (true, v) quiet e h k = cc (quiet, h, k)
  decided token url b resp w (false, v) quiet e h k =
      let (empty, low, high) = written token b resp v (quiet ∙ h) k in
      record {
        anonymous = empty;
        url = url;
        reply = resp;
        sent = ap (λ t. lib.send url (bearer t)) (sym empty) ∙ e;
        lower = low;
        upper = high;
      }

  replied :
      (token url : Text) (handler : ArtifactReply → Response → Bool × Response)
      (b : ArtifactReply → Bool) (o : Option ArtifactReply) (w : Response)
      → ((resp : ArtifactReply) (v : Response) → Quiet v (handler resp v).1)
      → lib.send url (bearer token) ≡ o
      → allows_caching w ≡ false
      → Justified (IsPublic lib token) (answer_with lib token handler b o w)
  unfolding answer_with Justified
  replied token url handler b none w quiet e h k = cc (serve_error_page-Quiet page502 w, h, k)
  replied token url handler b (some resp) w quiet e h k =
      decided token url (b resp) resp w (handler resp w) (quiet resp w) e h k

  made :
      (token url : Text) (handler : ArtifactReply → Response → Bool × Response)
      (b : ArtifactReply → Bool) (w : Response)
      → ((resp : ArtifactReply) (v : Response) → Quiet v (handler resp v).1)
      → allows_caching w ≡ false
      → Justified (IsPublic lib token) (make_request lib url token handler b w)
  unfolding make_request Justified
  made token url handler b w quiet h =
      if-cases (λ (t : Response). allows_caching t ≡ true → IsPublic lib token)
        (lib.request_fits url) _ _
        (λ e. replied token url handler b (lib.send url (bearer token)) w quiet refl h)
        (λ e k. cc (serve_error_page-Quiet page500 w, h, k))

  tried :
      (a : Option Artifact) (host token : Text) (r : Request)
      (handler : ArtifactReply → Response → Bool × Response) (b : ArtifactReply → Bool)
      (w : Response)
      → ((resp : ArtifactReply) (v : Response) → Quiet v (handler resp v).1)
      → allows_caching w ≡ false
      → Justified (IsPublic lib token) (try_make_request lib a host r token handler b w).1
  unfolding try_make_request Justified
  tried none host token r handler b w quiet h = λ k. cc (h, k)
  tried (some a) host token r handler b w quiet h =
      if-cases (λ (t : Bool × Response). allows_caching t.1 ≡ true → IsPublic lib token)
        (is_missing a.server || is_missing host) _ _ (λ e k. cc (h, k))
        (λ e. elim (Option-cases (build_url lib a host r.path)) [
          | inl f ↦ rw f (λ k. cc (h, k))
          | inr (url, f) ↦ rw f (made token url handler b w quiet h)
        ])

  token_known :
      (auth : Option Auth) (artifact : Option Artifact) (host : Text) (r : Request) (w : Response)
      (t : Result Response Text)
      → get_token_if_exists auth r w ≡ t
      → allows_caching w ≡ false
      → Silent w t
      → allows_caching (with_token lib auth artifact host r w t).1 ≡ true
      → (token : Text) × (get_token_if_exists auth r w ≡ ok token) × IsPublic lib token
  unfolding Justified with_token
  token_known auth artifact host r w (err w') e h s k = cc (s, h, k)
  token_known auth artifact host r w (ok token) e h s k = (
    token,
    e,
    tried artifact host token r (check_if_login_required auth token r)
        (λ resp. reads_body auth resp.answer) w
        (λ resp v. check_if_login_required-Quiet auth token r resp v) h k,
  )

  -- The handler of artifacts makes a response allow caching that did not allow it only when the
  -- visitor has no token and the API has answered in the series 2xx to a request without a
  -- token.
  pub handle_artifact_request-caching :
      (auth : Option Auth) (artifact : Option Artifact) (host : Text) (r : Request) (w : Response)
      → allows_caching w ≡ false
      → allows_caching (handle_artifact_request lib auth artifact host r w).1 ≡ true
      → (token : Text) × (get_token_if_exists auth r w ≡ ok token) × IsPublic lib token
  unfolding handle_artifact_request
  handle_artifact_request-caching auth artifact host r w h k =
      token_known auth artifact host r w (get_token_if_exists auth r w) refl h
        (get_token_if_exists-Silent auth r w) k
