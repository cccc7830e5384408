-- ===== src/Auth/Tests.antt =====
-- internal/auth on one visitor.
use gitlab_pages_mirror.Common.{
  Text, Option, ok, take, drop, length, ap, sym, ◌∙◌, arith, take-append, drop-append,
}
use gitlab_pages_mirror.Auth.Codes.{
  CodeClaims, ReadClaims, CodeCrypto, CodeKeys, encrypt_and_sign_code, decrypt_code,
  decrypt_code-encrypt,
}
use gitlab_pages_mirror.Common.{codes, true, false, ◌≡◌, refl, none, some, [], ◌∷◌, ◌++◌}
use gitlab_pages_mirror.Http.{Request}
use gitlab_pages_mirror.Responses.{serve_error_page, page404}
use gitlab_pages_mirror.Auth.Sessions.{Auth, Session, replied}
use gitlab_pages_mirror.Auth.Callbacks.{
  domain_allowed, domain_allowed-append, IsAnswer, check_authentication_response,
  check_authentication_response-IsAnswer,
}
use gitlab_pages_mirror.Auth.Checks.{DomainOps, check_authentication}

abbrev visitor : Session
visitor =
    (codes "access_token", codes "t")
    ∷ (codes "state", codes "s")
    ∷ (codes "uri", codes "http://g.io/")
    ∷ []

abbrev auth : Auth
auth = record {
  pages_domain = codes "g.io";
  client_id = codes "id";
  client_secret = codes "secret";
  redirect_uri = codes "http://p.g.io/auth";
  gitlab_server = codes "http://gitlab";
  auth_scope = codes "api";
  get_session = λ r. (visitor, false);
  can_save = λ session. true;
  new_state = codes "n";
  host_of_url = λ url. none;
  encrypt_and_sign_code = λ domain code. some code;
  decrypt_code = λ code domain. some code;
  api_get = λ url token. replied (record { status = 200; error = none });
  api_token = λ server code. some (codes "t2");
  encode_query = λ query. [];
}

abbrev request : Request
request = record {
  method = codes "GET";
  host = codes "g.io";
  scheme = codes "http";
  path = codes "/auth";
  request_uri = codes "/auth";
  query = (codes "state", codes "s") ∷ (codes "code", codes "c") ∷ [];
  headers = [];
  tls = false;
}

abbrev project : DomainOps
project = record {
  get_project_id = λ r. 4;
  serve_not_found_auth_failed = λ r w. serve_error_page page404 w;
}

passes : (check_authentication auth project request []).0 ≡ false
unfolding check_authentication
passes = refl

check_authentication_response-IsAnswer_example :
    IsAnswer auth visitor request []
      (check_authentication_response auth (λ name. (false, false)) visitor request [])
check_authentication_response-IsAnswer_example =
    check_authentication_response-IsAnswer auth (λ name. (false, false)) visitor request []

abbrev page_request : Request
page_request = record {
  method = codes "GET";
  host = codes "g.io";
  scheme = codes "http";
  path = codes "/a";
  request_uri = codes "/a";
  query = [];
  headers = [];
  tls = false;
}

some_injective : {s t : Text} → some s ≡ some t → s ≡ t
some_injective h = cc h

-- The nonce behind its length, and then the code.
abbrev packed : CodeClaims → Text
packed claims = length claims.nonce ∷ (claims.nonce ++ claims.code)

abbrev unpacked : Text → Option ReadClaims
unpacked [] = none
unpacked (n ∷ s) = some (record { code = some (drop n s); nonce = some (take n s) })

unpacked-packed :
    (claims : CodeClaims)
    → unpacked (packed claims)
      ≡ some (record { code = some claims.code; nonce = some claims.nonce })
unpacked-packed claims =
    ap
      (λ s. some (record {
        code = some s;
        nonce = some (take (length claims.nonce) (claims.nonce ++ claims.code));
      }))
      (drop-append claims.nonce claims.code)
    ∙ ap (λ s. some (record { code = some claims.code; nonce = some s }))
        (take-append claims.nonce claims.code)

-- Encryption that hides nothing, with tokens that carry the nonce and the code.
abbrev open_crypto : CodeCrypto
open_crypto = record {
  Aead = Text;
  derive = λ secret domain. some domain;
  cipher = λ key nonce. some key;
  seal = λ key nonce s. s;
  open_sealed = λ key nonce s. some s;
  hex_encode = λ s. s;
  hex_decode = λ s. some s;
  sign = λ key claims. some (packed claims);
  parse = λ now key token. unpacked token;
  open-seal = λ c nonce s. refl;
  hex_decode-encode = λ s. refl;
  parse-sign = λ now key token claims h early late.
      ap unpacked (sym (some_injective h)) ∙ unpacked-packed claims;
}

abbrev code_keys : CodeKeys
code_keys = record { auth_secret = codes "secret"; jwt_signing_key = codes "key"; jwt_expiry = 60 }

decrypt_code-encrypt_example :
    decrypt_code open_crypto code_keys 130 (1 ∷ codes "1abc") (codes "a.io") ≡ ok (codes "abc")
decrypt_code-encrypt_example =
    decrypt_code-encrypt open_crypto code_keys 100 130 (codes "1") (codes "a.io") (codes "abc")
      (1 ∷ codes "1abc") (unfold encrypt_and_sign_code in refl) (omega arith) (omega arith)

domain_allowed-append_example :
    domain_allowed auth (λ name. (false, false)) (codes "evil" ++ codes "g.io") ≡ true
domain_allowed-append_example = domain_allowed-append auth (λ name. (false, false)) (codes "evil")
