-- ===== src/Source/Gitlab/Lookups.antt =====
-- internal/source/gitlab/gitlab.go: which lookup path serves a request, and what a failed lookup
-- does to the source.
use gitlab_pages_mirror.Common.{
  ℕ, Text, codes, text_eq, text_eq_iff, has_prefix, trim_prefix, clean, Bool, true, false, ◌&&◌,
  ◌||◌, ◌≡◌, ◌≢◌, refl, Option, none, some, List, [], ◌∷◌, ◌++◌, Result, ok, err, arith, Bool-cases,
  Option-cases, inl, inr, ◌⊎◌, ltb, length, if-cases,
}
use gitlab_pages_mirror.Common.TextLaws.{append-trim_prefix}
use gitlab_pages_mirror.Common.Int.{to_u64}
use gitlab_pages_mirror.Http.{Request, get_host_without_port}
use gitlab_pages_mirror.Serving.Requests.{Serving, ServingRequest}
use gitlab_pages_mirror.Source.Api.{
  ApiError, domain_does_not_exist, unauthorized_api, context_done, retrieval_context_done, other,
  ApiLookupPath, VirtualDomain, Lookup,
}
use gitlab_pages_mirror.Source.Gitlab.{
  Gitlab, Found, fabricate_serving, fabricate_lookup_path, resolve_paths, resolve_request,
  get_domain,
}

-- The test of the loop.
abbrev pub serves : Text → ApiLookupPath → Bool
serves url_path l = has_prefix url_path l.prefix || text_eq url_path (clean l.prefix)

-- The lookup path is the first of the list that serves the URL path.
pub data IsFirst (url_path : Text) (l : ApiLookupPath) : List ApiLookupPath → Type 0 where
  here : (paths : List ApiLookupPath) → serves url_path l ≡ true → IsFirst url_path l (l ∷ paths)
  later :
      (other : ApiLookupPath) (paths : List ApiLookupPath)
      → serves url_path other ≡ false
      → IsFirst url_path l paths
      → IsFirst url_path l (other ∷ paths)

-- The request is served from the lookup path: its storage, its serving, its protection and its
-- project are those of the lookup path, and prefix and subpath together are the URL path (or the URL path is
-- the prefix itself, up to its last slash, and the subpath is empty).
pub record IsServedFrom (size : ℕ) (url_path : Text) (l : ApiLookupPath) (r : ServingRequest)
    : Type 0 where
  pub zip : l.source.kind ≡ codes "zip" → r.serving ≡ Serving.zip
  pub local : l.source.kind ≢ codes "zip" → r.serving ≡ Serving.local
  pub kind : r.lookup_path.serving_type ≡ l.source.kind
  pub storage : r.lookup_path.path ≡ l.source.path
  pub prefix : r.lookup_path.prefix ≡ l.prefix
  pub https : r.lookup_path.is_https_only ≡ l.https_only
  pub access : r.lookup_path.has_access_control ≡ l.access_control
  pub project : r.lookup_path.project_id ≡ to_u64 l.project_id
  pub namespace : r.lookup_path.is_namespace_project ≡ (text_eq l.prefix (codes "/") && ltb 1 size)
  pub path : (l.prefix ++ r.sub_path ≡ url_path) ⊎ ((url_path ≡ clean l.prefix) × (r.sub_path ≡ []))

fabricate_serving-zip :
    (l : ApiLookupPath) → l.source.kind ≡ codes "zip" → fabricate_serving l ≡ Serving.zip
unfolding fabricate_serving
fabricate_serving-zip l h = ground (arith, h, text_eq_iff l.source.kind (codes "zip"))

fabricate_serving-local :
    (l : ApiLookupPath) → l.source.kind ≢ codes "zip" → fabricate_serving l ≡ Serving.local
unfolding fabricate_serving
fabricate_serving-local l h =
    if-cases (λ (x : Serving). x ≡ Serving.local) (text_eq l.source.kind (codes "zip")) _ _
      (λ e. absurd (h ((text_eq_iff l.source.kind (codes "zip")).0 e))) λ e. refl

split_path :
    (url_path : Text) (l : ApiLookupPath) (size : ℕ) (paths : List ApiLookupPath)
    → serves url_path l ≡ true
    → (r : ServingRequest) × (resolve_paths size url_path (l ∷ paths) ≡ ok r)
      × IsServedFrom size url_path l r
unfolding resolve_paths
split_path url_path l size paths h = elim (Bool-cases (has_prefix url_path l.prefix)) [
  | inl e ↦ (
    record {
      serving = fabricate_serving l;
      lookup_path = fabricate_lookup_path size l;
      sub_path = trim_prefix url_path l.prefix;
    },
    ground arith,
    record {
      zip = fabricate_serving-zip l;
      local = fabricate_serving-local l;
      kind = refl;
      storage = refl;
      prefix = refl;
      https = refl;
      access = refl;
      project = refl;
      namespace = refl;
      path = inl (append-trim_prefix url_path l.prefix e);
    },
  )
  | inr e ↦ (
    record {
      serving = fabricate_serving l;
      lookup_path = fabricate_lookup_path size l;
      sub_path = [];
    },
    ground arith,
    record {
      zip = fabricate_serving-zip l;
      local = fabricate_serving-local l;
      kind = refl;
      storage = refl;
      prefix = refl;
      https = refl;
      access = refl;
      project = refl;
      namespace = refl;
      path = inr (ground (arith, text_eq_iff url_path (clean l.prefix)), refl);
    },
  )
]

-- What the loop gives: the request served from the first lookup path that fits, or the error that
-- the domain does not exist when none does.
pub data IsOutcome (size : ℕ) (url_path : Text) (paths : List ApiLookupPath)
    : Result ApiError ServingRequest → Type 0 where
  served :
      (l : ApiLookupPath) (r : ServingRequest)
      → IsFirst url_path l paths
      → IsServedFrom size url_path l r
      → IsOutcome size url_path paths (ok r)
  unserved :
      ((l : ApiLookupPath) → ¬ IsFirst url_path l paths)
      → IsOutcome size url_path paths (err domain_does_not_exist)

not-IsFirst :
    (url_path : Text) (first : ApiLookupPath) (paths : List ApiLookupPath)
    → serves url_path first ≡ false
    → ((l : ApiLookupPath) → ¬ IsFirst url_path l paths)
    → (l : ApiLookupPath) → ¬ IsFirst url_path l (first ∷ paths)
not-IsFirst url_path first paths e h l (here _ t) = cc
not-IsFirst url_path first paths e h l (later _ _ _ f) = h l f

IsOutcome-later :
    (size : ℕ) (url_path : Text) (first : ApiLookupPath) (paths : List ApiLookupPath)
    (r : Result ApiError ServingRequest)
    → serves url_path first ≡ false
    → IsOutcome size url_path paths r
    → IsOutcome size url_path (first ∷ paths) r
IsOutcome-later size url_path first paths _ e (served l r f s) =
    served l r (later first paths e f) s
IsOutcome-later size url_path first paths _ e (unserved h) =
    unserved (not-IsFirst url_path first paths e h)

resolve_paths_skip :
    (size : ℕ) (url_path : Text) (first : ApiLookupPath) (paths : List ApiLookupPath)
    → serves url_path first ≡ false
    → resolve_paths size url_path (first ∷ paths) ≡ resolve_paths size url_path paths
unfolding resolve_paths
resolve_paths_skip size url_path first paths e = ground arith

-- The loop ends in one of the two outcomes.
resolve_paths-IsOutcome :
    (size : ℕ) (url_path : Text) (paths : List ApiLookupPath)
    → IsOutcome size url_path paths (resolve_paths size url_path paths)
resolve_paths-IsOutcome size url_path [] = unfold resolve_paths in unserved (λ l h. elim h [ ])
resolve_paths-IsOutcome size url_path (l ∷ paths) = elim (Bool-cases (serves url_path l)) [
  | inl e ↦
      let (r, same, s) = split_path url_path l size paths e in rw same (served l r (here paths e) s)
  | inr e ↦ rw (resolve_paths_skip size url_path l paths e) (
      IsOutcome-later size url_path l paths (resolve_paths size url_path paths) e
        (resolve_paths-IsOutcome size url_path paths))
]

module _ (client : Text → Lookup) where
  -- How a request is resolved, by the answer of the client for its host.
  pub data IsResolved (r : Request) : Option (Result ApiError ServingRequest) → Type 0 where
    unanswered :
        (e : ApiError)
        → (client (get_host_without_port r)).error ≡ some e
        → IsResolved r (some (err e))
    nil_domain :
        (client (get_host_without_port r)).error ≡ none
        → (client (get_host_without_port r)).domain ≡ none
        → IsResolved r none
    looked_up :
        (d : VirtualDomain) (x : Result ApiError ServingRequest)
        → (client (get_host_without_port r)).error ≡ none
        → (client (get_host_without_port r)).domain ≡ some d
        → IsOutcome (length d.lookup_paths) (clean r.path) d.lookup_paths x
        → IsResolved r (some x)

  -- Resolve passes an error of the client on. With the domain that the client gives for the host, it
  -- answers for the first of its lookup paths, in the API's order, whose prefix the cleaned URL path
  -- has or is: the request carries the storage path, serving, prefix, project and protection of that
  -- lookup path, its subpath is what the prefix leaves, and it is a namespace project exactly for
  -- the prefix / beside other lookup paths. Without such a lookup path the domain does not exist.
  -- For neither error nor domain it follows a nil domain.
  pub resolve_request-IsResolved : (r : Request) → IsResolved r (resolve_request client r)
  unfolding resolve_request
  resolve_request-IsResolved r =
      let response = client (get_host_without_port r) in
      elim (Option-cases response.error) [
        | inr (e, h) ↦ rw (h, resolve_request) (unanswered e h)
        | inl h ↦ elim (Option-cases response.domain) [
          | inl n ↦ rw (h, resolve_request) (rw n (nil_domain h n))
          | inr (d, n) ↦
              let size = length d.lookup_paths in
              rw (h, resolve_request)
                (rw n (
                  looked_up d (resolve_paths size (clean r.path) d.lookup_paths) h n
                    (resolve_paths-IsOutcome size (clean r.path) d.lookup_paths)))
        ]
      ]

  -- The four ways in which a lookup ends, whatever the state of the source.
  pub data IsFetched (g : Gitlab) (name : Text)
      : Gitlab × Option (Result ApiError Found) → Type 0 where
    refused :
        (client name).error ≡ some unauthorized_api
        → IsFetched g name (record { is_ready = false }, some (err unauthorized_api))
    failed :
        (e : ApiError)
        → (client name).error ≡ some e
        → e ≢ unauthorized_api
        → IsFetched g name (g, some (err e))
    found :
        (v : VirtualDomain)
        → (client name).error ≡ none
        → (client name).domain ≡ some v
        → IsFetched g name
            (g, some (ok (record { name = name; certificate = v.certificate; key = v.key })))
    crashed : (client name).error ≡ none → (client name).domain ≡ none → IsFetched g name (g, none)

  refused_or_failed :
      (g : Gitlab) (name : Text) (e : ApiError)
      → (client name).error ≡ some e
      → IsFetched g name (get_domain client g name)
  unfolding get_domain
  refused_or_failed g name unauthorized_api h = rw (h, get_domain) (refused h)
  refused_or_failed g name domain_does_not_exist h =
      rw (h, get_domain) (failed domain_does_not_exist h (λ p. cc))
  refused_or_failed g name context_done h = rw (h, get_domain) (failed context_done h (λ p. cc))
  refused_or_failed g name retrieval_context_done h =
      rw (h, get_domain) (failed retrieval_context_done h (λ p. cc))
  refused_or_failed g name other h = rw (h, get_domain) (failed other h (λ p. cc))

  -- GetDomain clears the readiness of the source exactly when the API refuses its credentials,
  -- passes every other error on with the source unchanged, and gives a domain of the requested
  -- name with the certificate and the key that the API gave for it otherwise; it follows a nil domain exactly when the lookup has neither error nor domain.
  pub get_domain-IsFetched :
      (g : Gitlab) (name : Text) → IsFetched g name (get_domain client g name)
  get_domain-IsFetched g name = elim (Option-cases (client name).error) [
    | inr (e, h) ↦ refused_or_failed g name e h
    | inl h ↦ elim (Option-cases (client name).domain) [
      | inl d ↦ unfold get_domain in rw (h, get_domain) (rw d (crashed h d))
      | inr (v, d) ↦ unfold get_domain in rw (h, get_domain) (rw d (found v h d))
    ]
  ]
