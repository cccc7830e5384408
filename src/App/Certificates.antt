-- ===== src/App/Certificates.antt =====
-- app.go: the certificate for a TLS connection. The error of EnsureCertificate is dropped, and a nil
-- certificate leaves the choice to the certificate of the daemon.
use gitlab_pages_mirror.Common.{Text, Option, none, some, Result, ok, err, [], ◌∷◌}
use gitlab_pages_mirror.Domain.Certificates.{Certified, CertificateError, ensure_certificate}

module _ {Certificate ParseError : Type 0} where
  abbrev certificate_of : Result (CertificateError ParseError) Certificate → Option Certificate
  certificate_of (ok c) = some c
  certificate_of (err e) = none

  abbrev served_by :
      (Text → Text → Result ParseError Certificate)
      → Option (Certified Certificate ParseError)
      → Option Certificate
  unfolding ensure_certificate
  served_by key_pair none = none
  served_by key_pair (some d) = certificate_of (ensure_certificate key_pair (some d)).1

  -- ServeTLS; `domain` is what GetDomain finds for a name.
  unfoldable pub serve_tls :
      (Text → Text → Result ParseError Certificate)
      → (Text → Option (Certified Certificate ParseError))
      → Text
      → Option Certificate
  unfolding served_by
  serve_tls key_pair domain [] = none
  serve_tls key_pair domain (c ∷ name) = served_by key_pair (domain (c ∷ name))
