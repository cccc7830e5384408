-- ===== src/Source/Client/Answers.antt =====
-- internal/source/gitlab/client/client.go: what a lookup says of the reply of the API.
use gitlab_pages_mirror.Common.{
  ℕ, ◌+◌, Text, codes, true, false, none, some, [], ◌∷◌, ◌≡◌, ◌↔◌, ◌≢◌, refl, subst, sym, ap, ◌∙◌,
  ◌>>=◌, arith,
}
use gitlab_pages_mirror.Source.Api.{domain_does_not_exist, unauthorized_api, Lookup}
use gitlab_pages_mirror.Source.Client.{
  ApiReply, ClientLibrary, Client, token, endpoint, request, get, read_reply, get_lookup, lookup_of,
  or_other,
}

module _ (lib : ClientLibrary) (now : ℕ) (gc : Client lib) where
  abbrev pub pages_path : Text
  pages_path = codes "/api/v4/internal/pages"

  -- The API replied like this to a GET for the host, with a token that is signed with the secret
  -- and expires in time.
  pub record IsReply (host : Text) (reply : ApiReply) : Type 0 where
    pub url : lib.Url
    pub resolved : lib.resolve gc.base_url pages_path ≡ some url
    pub fits : lib.request_fits (lib.print url ((codes "host", host) ∷ [])) ≡ true
    pub token : Text
    pub signed :
        lib.sign gc.secret_key
          (record { issuer = codes "gitlab-pages"; expires_at = now + gc.jwt_token_expiry })
        ≡ some token
    pub sent :
        lib.send (record { url = lib.print url ((codes "host", host) ∷ []); token = token })
        ≡ some reply

  endpoint-IsReply :
      (host : Text) (reply : ApiReply) (r : IsReply host reply)
      → endpoint lib now gc pages_path ((codes "host", host) ∷ [])
        ≡ some (lib.print r.url ((codes "host", host) ∷ []))
  unfolding endpoint
  endpoint-IsReply host reply r =
      ap (λ o. elim o [ none ↦ none | some url ↦ some (lib.print url ((codes "host", host) ∷ [])) ])
        r.resolved

  request-IsReply :
      (host : Text) (reply : ApiReply) (r : IsReply host reply)
      → request lib now gc (lib.print r.url ((codes "host", host) ∷ []))
        ≡ some (record { url = lib.print r.url ((codes "host", host) ∷ []); token = r.token })
  unfolding request token
  request-IsReply host reply r = rw (r.fits, r.signed) refl

  get-IsReply :
      (host : Text) (reply : ApiReply)
      → IsReply host reply
      → get lib now gc pages_path ((codes "host", host) ∷ []) ≡ read_reply lib now gc reply
  unfolding get
  get-IsReply host reply r =
      ap
        (λ o. or_other lib now gc o >>= λ url.
          or_other lib now gc (request lib now gc url) >>= λ req.
          or_other lib now gc (lib.send req) >>= λ resp. read_reply lib now gc resp)
        (endpoint-IsReply host reply r)
      ∙ ap
          (λ o. or_other lib now gc o >>= λ req.
            or_other lib now gc (lib.send req) >>= λ resp. read_reply lib now gc resp)
          (request-IsReply host reply r)
      ∙ ap (λ o. or_other lib now gc o >>= λ resp. read_reply lib now gc resp) r.sent

  -- What a lookup says of the reply.
  abbrev pub Tells : ApiReply → Lookup → Type 0
  Tells reply l =
      ((l.error ≡ none) ↔ ((reply.status ≡ 200) × ((lib.decode reply.body).1 ≡ false)))
      × ((l.error ≡ some domain_does_not_exist) ↔ (reply.status ≡ 204))
      × ((l.error ≡ some unauthorized_api) ↔ (reply.status ≡ 401))
      × (reply.status ≢ 200 → l.domain ≡ none)

  lookup_of-Tells :
      (host : Text) (reply : ApiReply)
      → Tells reply (lookup_of lib now gc host (read_reply lib now gc reply))
  unfolding read_reply
  lookup_of-Tells host reply = ground arith

  -- When the request for a host can be made and is replied to, the lookup has no error exactly when
  -- the reply is a 200 that decodes, the domain does not exist exactly on a 204, the API is
  -- unauthorized exactly on a 401, and there is no domain without a 200.
  pub get_lookup-Tells :
      (host : Text) (reply : ApiReply)
      → IsReply host reply
      → Tells reply (get_lookup lib now gc host)
  unfolding get_lookup
  get_lookup-Tells host reply r =
      subst (λ x. Tells reply (lookup_of lib now gc host x)) (sym (get-IsReply host reply r))
        (lookup_of-Tells host reply)
