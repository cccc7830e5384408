-- ===== src/Source/Client.antt =====
-- internal/source/gitlab/client/client.go: the client of the internal API of GitLab. URLs, JSON Web
-- Tokens, JSON and the HTTP client are parameters.
pub mod Answers
mod Tests
use gitlab_pages_mirror.Common.{
  ℕ, ◌+◌, Text, codes, Bool, true, false, ◌||◌, Option, none, some, [], ◌∷◌, Dict, dict_empty,
  Result, ok, err, ◌>>=◌, ◌==◌, if◌then◌else◌, text_eq,
}
use gitlab_pages_mirror.Source.Api.{
  ApiError, domain_does_not_exist, unauthorized_api, other, VirtualDomain, Lookup,
}

-- A GET with the header Gitlab-Pages-Api-Request.
pub record ApiRequest : Type 0 where
  pub url : Text
  pub token : Text

pub record ApiReply : Type 0 where
  pub status : ℕ
  pub body : Text

pub record Claims : Type 0 where
  pub issuer : Text
  pub expires_at : ℕ

-- `resolve` is URL.Parse of a base, `print` is String with the query set, `request_fits` tells
-- whether http.NewRequest accepts a URL, `sign` is SignedString with HS256, `decode` is the decoder
-- of a VirtualDomain with whether it failed, and `send` is httpClient.Do.
pub record ClientLibrary : Type 1 where
  pub Url : Type 0
  pub parse : Text → Option Url
  pub resolve : Url → Text → Option Url
  pub print : Url → Dict Text → Text
  pub request_fits : Text → Bool
  pub sign : Text → Claims → Option Text
  pub decode : Text → Option VirtualDomain × Bool
  pub send : ApiRequest → Option ApiReply

pub data NewClientError : Type 0 where
  url_or_secret_missing bad_url timeout_missing token_expiry_missing : NewClientError

module _ (lib : ClientLibrary) where
  open lib use {Url, parse, resolve, print, request_fits, sign, decode, send}

  pub record Client : Type 0 where
    pub secret_key : Text
    pub base_url : Url
    pub connection_timeout : ℕ
    pub jwt_token_expiry : ℕ

  abbrev is_missing : Text → Bool
  is_missing [] = true
  is_missing (c ∷ s) = false

  unfoldable pub new_client : Text → Text → ℕ → ℕ → Result NewClientError Client
  new_client base_url secret_key timeout expiry =
      if is_missing base_url || is_missing secret_key
      then err url_or_secret_missing
      else elim (parse base_url) [
        | none ↦ err bad_url
        | some url ↦
            if timeout == 0
            then err timeout_missing
            else if expiry == 0
            then err token_expiry_missing
            else ok (record {
              secret_key = secret_key;
              base_url = url;
              connection_timeout = timeout;
              jwt_token_expiry = expiry;
            })
      ]

  module _ (now : ℕ) (gc : Client) where
    unfoldable pub token : Option Text
    token =
        sign gc.secret_key
          (record { issuer = codes "gitlab-pages"; expires_at = now + gc.jwt_token_expiry })

    -- endpoint, printed
    unfoldable pub endpoint : Text → Dict Text → Option Text
    endpoint path params = elim (resolve gc.base_url path) [
      | none ↦ none
      | some url ↦ some (print url params)
    ]

    unfoldable pub request : Text → Option ApiRequest
    unfolding token
    request url =
        if request_fits url
        then elim token [ none ↦ none | some t ↦ some (record { url = url; token = t }) ]
        else none

    -- The end of get, on the reply; the inner none is a domain that does not exist.
    unfoldable pub read_reply : ApiReply → Result ApiError (Option Text)
    read_reply resp =
        if resp.status == 200
        then ok (some resp.body)
        else if resp.status == 204
        then ok none
        else if resp.status == 401
        then err unauthorized_api
        else err other

    abbrev pub or_other {ℓ} : {A : Type ℓ} → Option A → Result ApiError A
    or_other none = err other
    or_other (some x) = ok x

    unfoldable pub get : Text → Dict Text → Result ApiError (Option Text)
    unfolding endpoint request read_reply
    get path params = or_other (endpoint path params) >>= λ url.
        or_other (request url) >>= λ req. or_other (send req) >>= λ resp. read_reply resp

    abbrev decoded : Text → Option VirtualDomain × Bool → Lookup
    decoded host (domain, failed) = record {
      name = host;
      error = if failed then some other else none;
      domain = domain;
    }

    abbrev pub lookup_of : Text → Result ApiError (Option Text) → Lookup
    lookup_of host (err e) = record { name = host; error = some e; domain = none }
    lookup_of host (ok none) = record {
      name = host;
      error = some domain_does_not_exist;
      domain = none;
    }
    lookup_of host (ok (some body)) = decoded host (decode body)

    unfoldable pub get_lookup : Text → Lookup
    unfolding get
    get_lookup host =
        lookup_of host (get (codes "/api/v4/internal/pages") ((codes "host", host) ∷ []))

    -- Status; true is no error.
    unfoldable pub status : Bool
    unfolding get dict_empty
    status = elim (get (codes "/api/v4/internal/pages/status") dict_empty) [
      | err e ↦ false
      | ok body ↦ true
    ]
