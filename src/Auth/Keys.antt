-- ===== src/Auth/Keys.antt =====
-- internal/auth/auth.go: generateKeys and New, the three keys of an Auth and what it is made of.
use gitlab_pages_mirror.Common.{
  ℕ, zero, suc, ◌*◌, ◌≤◌, Text, Bool, Option, none, some, List, [], ◌∷◌, ◌≡◌, refl, ap, ◌∙◌, ltb,
  Dict, length, take, drop, Result, ok, err, if◌then◌else◌, All, arith,
}
use gitlab_pages_mirror.Common.Slices.{length-take, length-drop}
use gitlab_pages_mirror.Http.{Request}
use gitlab_pages_mirror.Auth.Sessions.{Auth, AccessReply, Session}
use gitlab_pages_mirror.Auth.Codes.{CodeCrypto, CodeKeys, encrypt_and_sign_code, decrypt_code}
use gitlab_pages_mirror.Artifact.Paths.{trim_right_byte}

abbrev first_key : Text → Option (List Text) → Option (List Text)
first_key key none = none
first_key key (some keys) = some (key ∷ keys)

-- The loop of generateKeys: 32 bytes for each key, from what is left of the stream of hkdf, whose
-- length is bounded.
unfoldable pub read_keys : ℕ → Text → Option (List Text)
read_keys zero stream = some []
read_keys (suc count) stream =
    let rest = read_keys count (drop 32 stream) in
    if ltb (length stream) 32 then none else first_key (take 32 stream) rest

abbrev checked_keys : ℕ → Option (List Text) → Option (List Text)
checked_keys count none = none
checked_keys count (some keys) = if ltb (length keys) count then none else some keys

-- generateKeys, where `expand` is the whole output of hkdf for a secret.
unfoldable pub generate_keys : (Text → Text) → Text → ℕ → Option (List Text)
unfolding read_keys
generate_keys expand secret count = checked_keys count (read_keys count (expand secret))

-- What New takes from the standard library and from packages: the output of hkdf, a cookie store
-- with its two keys, the HTTP client, URLs, the time and random numbers.
pub record AuthLibrary : Type 1 where
  pub expand : Text → Text
  pub store_get : Text → Text → Request → Session × Bool
  pub store_save : Text → Text → Session → Bool
  pub new_state : Text
  pub host_of_url : Text → Option Text
  pub api_get : Text → Text → AccessReply
  pub api_token : Text → Text → Option Text
  pub encode_query : Dict Text → Text
  pub crypto : CodeCrypto
  pub nonce : Text
  pub now : ℕ

abbrev value_of : {E A : Type 0} → Result E A → Option A
value_of (ok a) = some a
value_of (err e) = none

-- The settings that New is called with; a token lives for a minute.
pub record AuthSettings : Type 0 where
  pub pages_domain : Text
  pub store_secret : Text
  pub client_id : Text
  pub client_secret : Text
  pub redirect_uri : Text
  pub gitlab_server : Text
  pub auth_scope : Text

abbrev pub code_keys : Text → Text → CodeKeys
code_keys secret jwt_key = record {
  auth_secret = secret;
  jwt_signing_key = jwt_key;
  jwt_expiry = 60;
}

unfoldable pub with_keys : AuthLibrary → AuthSettings → Option (List Text) → Option Auth
unfolding trim_right_byte encrypt_and_sign_code decrypt_code
with_keys lib s (some (hash_key ∷ block_key ∷ jwt_key ∷ keys)) = some (record {
  pages_domain = s.pages_domain;
  client_id = s.client_id;
  client_secret = s.client_secret;
  redirect_uri = s.redirect_uri;
  gitlab_server = trim_right_byte b'/' s.gitlab_server;
  auth_scope = s.auth_scope;
  get_session = lib.store_get hash_key block_key;
  can_save = lib.store_save hash_key block_key;
  new_state = lib.new_state;
  host_of_url = lib.host_of_url;
  encrypt_and_sign_code = λ domain code. value_of (
      encrypt_and_sign_code lib.crypto (code_keys s.store_secret jwt_key) lib.now lib.nonce domain
        code);
  decrypt_code = λ code domain.
      value_of (decrypt_code lib.crypto (code_keys s.store_secret jwt_key) lib.now code domain);
  api_get = lib.api_get;
  api_token = lib.api_token;
  encode_query = lib.encode_query;
})
with_keys lib s keys = none

-- New
unfoldable pub new_auth : AuthLibrary → AuthSettings → Option Auth
unfolding generate_keys with_keys
new_auth lib s = with_keys lib s (generate_keys lib.expand s.store_secret 3)

-- Keys for a long enough stream: as many as asked for, of 32 bytes each.
read_keys-All :
    (count : ℕ) (stream : Text)
    → 32 * count ≤ length stream
    → (keys : List Text) × (read_keys count stream ≡ some keys)
      × (length keys ≡ count)
      × All (λ k. length k ≡ 32) keys
unfolding read_keys
read_keys-All zero stream h = ([], refl, refl, tt)
read_keys-All (suc count) stream h =
    let (keys, e, n, a) =
      read_keys-All count (drop 32 stream) (omega (arith, length-drop {0} 32 stream)) in
    (
      take 32 stream ∷ keys,
      ground (arith, e),
      ap suc n,
      (ground (arith, length-take {0} 32 stream), a),
    )

-- generateKeys gives as many keys as it is asked for, of 32 bytes each, when the stream is long
-- enough; its last check never fails.
pub generate_keys-All :
    (expand : Text → Text) (secret : Text) (count : ℕ)
    → 32 * count ≤ length (expand secret)
    → (keys : List Text) × (generate_keys expand secret count ≡ some keys)
      × (length keys ≡ count)
      × All (λ k. length k ≡ 32) keys
unfolding generate_keys
generate_keys-All expand secret count h =
    let (keys, e, n, a) = read_keys-All count (expand secret) h in
    (keys, ap (checked_keys count) e ∙ ground (arith, n), n, a)
