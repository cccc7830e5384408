-- ===== src/Auth/Codes.antt =====
-- internal/auth/auth_code.go: the code of a login on its way to a custom domain, encrypted for that
-- domain and signed. The cryptography is a parameter, with what its packages document.
use gitlab_pages_mirror.Common.{
  ℕ, ◌+◌, ◌≤◌, Text, codes, Bool, true, false, ◌||◌, Option, none, some, [], ◌∷◌, ◌≡◌, refl, ap,
  ◌∙◌, Result, ok, err, ◌>>=◌, if◌then◌else◌,
}

-- The claims of the token.
pub record CodeClaims : Type 0 where
  pub issuer : Text
  pub issued_at : ℕ
  pub expires_at : ℕ
  pub domain : Text
  pub code : Text
  pub nonce : Text

-- What DecryptCode reads of the claims of a token, none where it is no string.
pub record ReadClaims : Type 0 where
  pub code : Option Text
  pub nonce : Option Text

-- The key of a domain from the secret (hkdf), AES-GCM with a key and a nonce, where `cipher` is
-- none when there is no cipher for them, hexadecimal text, and JSON Web Tokens with HMAC.
pub record CodeCrypto : Type 1 where
  pub Aead : Type 0
  pub derive : Text → Text → Option Text
  pub cipher : Text → Text → Option Aead
  pub seal : Aead → Text → Text → Text
  pub open_sealed : Aead → Text → Text → Option Text
  pub hex_encode : Text → Text
  pub hex_decode : Text → Option Text
  pub sign : Text → CodeClaims → Option Text
  pub parse : ℕ → Text → Text → Option ReadClaims
  pub open-seal : (c : Aead) (nonce s : Text) → open_sealed c nonce (seal c nonce s) ≡ some s
  pub hex_decode-encode : (s : Text) → hex_decode (hex_encode s) ≡ some s
  pub parse-sign :
      (now : ℕ) (key token : Text) (claims : CodeClaims)
      → sign key claims ≡ some token
      → claims.issued_at ≤ now
      → now ≤ claims.expires_at
      → parse now key token ≡ some (record { code = some claims.code; nonce = some claims.nonce })

pub data CodeError : Type 0 where
  empty_domain_or_code bad_key bad_token invalid_nonce invalid_code not_decrypted : CodeError

-- What the methods read of an Auth.
pub record CodeKeys : Type 0 where
  pub auth_secret : Text
  pub jwt_signing_key : Text
  pub jwt_expiry : ℕ

abbrev is_missing : Text → Bool
is_missing [] = true
is_missing (c ∷ s) = false

-- A value, or the error that stands for its absence.
abbrev pub or_error {ℓ} : {A : Type ℓ} → CodeError → Option A → Result CodeError A
or_error e none = err e
or_error e (some x) = ok x

module _ (crypto : CodeCrypto) (a : CodeKeys) where
  open crypto use {Aead, derive, cipher, seal, open_sealed, hex_encode, hex_decode, sign, parse}

  -- newAesGcmCipher, with codeKey
  unfoldable pub new_aes_gcm_cipher : Text → Text → Result CodeError Aead
  new_aes_gcm_cipher domain nonce =
      or_error bad_key (derive a.auth_secret domain) >>= λ key. or_error bad_key (cipher key nonce)

  unfoldable pub code_claims : ℕ → Text → Text → Text → Aead → CodeClaims
  code_claims now nonce domain code c = record {
    issuer = codes "gitlab-pages";
    issued_at = now;
    expires_at = now + a.jwt_expiry;
    domain = domain;
    code = hex_encode (seal c nonce code);
    nonce = nonce;
  }

  -- EncryptAndSignCode, with its random nonce.
  unfoldable pub encrypt_and_sign_code : ℕ → Text → Text → Text → Result CodeError Text
  unfolding new_aes_gcm_cipher code_claims
  encrypt_and_sign_code now nonce domain code =
      if is_missing domain || is_missing code
      then err empty_domain_or_code
      else new_aes_gcm_cipher domain nonce >>= λ c.
          or_error bad_token (sign a.jwt_signing_key (code_claims now nonce domain code c))

  -- DecryptCode, on the claims of the token.
  unfoldable pub decrypt_claims : Text → ReadClaims → Result CodeError Text
  unfolding new_aes_gcm_cipher
  decrypt_claims domain claims = or_error invalid_nonce claims.nonce >>= λ nonce.
      or_error invalid_code claims.code >>= λ encrypted.
      or_error invalid_code (hex_decode encrypted) >>= λ cipher_text.
      new_aes_gcm_cipher domain nonce >>= λ c.
      or_error not_decrypted (open_sealed c nonce cipher_text)

  unfoldable pub decrypt_code : ℕ → Text → Text → Result CodeError Text
  unfolding decrypt_claims
  decrypt_code now jwt domain = or_error bad_token (parse now a.jwt_signing_key jwt) >>= λ claims.
      decrypt_claims domain claims

  -- A step that has succeeded.
  bound {ℓ κ} :
      {A : Type ℓ} {B : Type κ} (r : Result CodeError A) (f : A → Result CodeError B) (b : B)
      → (r >>= f) ≡ ok b
      → (x : A) × (r ≡ ok x) × (f x ≡ ok b)
  bound (ok x) f b h = (x, refl, h)
  bound (err e) f b h = cc

  or_error_ok {ℓ} :
      {A : Type ℓ} (e : CodeError) (o : Option A) (x : A) → or_error e o ≡ ok x → o ≡ some x
  or_error_ok e none x h = cc
  or_error_ok e (some y) x h = cc

  unguarded {ℓ} :
      {A : Type ℓ} (b : Bool) (e : CodeError) (r : Result CodeError A) (x : A)
      → (if b then err e else r) ≡ ok x
      → r ≡ ok x
  unguarded true e r x h = cc
  unguarded false e r x h = h

  decrypted :
      (nonce domain code : Text) (c : Aead)
      → new_aes_gcm_cipher domain nonce ≡ ok c
      → decrypt_claims domain
          (record { code = some (hex_encode (seal c nonce code)); nonce = some nonce })
        ≡ ok code
  unfolding decrypt_claims
  decrypted nonce domain code c h =
      ap
        (λ o. or_error invalid_code o >>= λ cipher_text. new_aes_gcm_cipher domain nonce >>= λ d.
          or_error not_decrypted (open_sealed d nonce cipher_text))
        (crypto.hex_decode-encode (seal c nonce code))
      ∙ ap (λ r. r >>= λ d. or_error not_decrypted (open_sealed d nonce (seal c nonce code))) h
      ∙ ap (or_error not_decrypted) (crypto.open-seal c nonce code)

  -- A token that is made of a code for a domain is decrypted for that domain to that code, at any
  -- time until the token expires.
  pub decrypt_code-encrypt :
      (now later : ℕ) (nonce domain code jwt : Text)
      → encrypt_and_sign_code now nonce domain code ≡ ok jwt
      → now ≤ later
      → later ≤ now + a.jwt_expiry
      → decrypt_code later jwt domain ≡ ok code
  unfolding encrypt_and_sign_code decrypt_code code_claims
  decrypt_code-encrypt now later nonce domain code jwt h early late =
      let (c, made, signed) =
        bound (new_aes_gcm_cipher domain nonce) _ jwt
          (unguarded (is_missing domain || is_missing code) empty_domain_or_code _ jwt h) in
      let parsed =
        crypto.parse-sign later a.jwt_signing_key jwt (code_claims now nonce domain code c)
          (or_error_ok bad_token _ jwt signed) early late in
      ap (λ o. or_error bad_token o >>= λ claims. decrypt_claims domain claims) parsed
      ∙ decrypted nonce domain code c made
