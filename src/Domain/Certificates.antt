-- ===== src/Domain/Certificates.antt =====
-- internal/domain/domain.go: EnsureCertificate, which parses the key pair of a domain once.
use gitlab_pages_mirror.Common.{
  Text, text_eq, ◌||◌, Option, none, some, Result, ok, err, [], if◌then◌else◌, ◌≡◌, refl,
  Option-cases, Bool-cases, inl, inr,
}

-- The fields of Domain that hold its certificate; `parsed` is what certificateOnce left in
-- certificate and certificateError.
pub record Certified {ℓ κ} (Certificate : Type ℓ) (ParseError : Type κ) : Type (ℓ ⊔ κ) where
  pub certificate_cert : Text
  pub certificate_key : Text
  pub parsed : Option (Result ParseError Certificate)

-- The errors of EnsureCertificate: that of a domain without a certificate, or the parser's.
pub data CertificateError {κ} (ParseError : Type κ) : Type κ where
  not_configured : CertificateError ParseError
  not_parsed : ParseError → CertificateError ParseError

module _ {ℓ κ} {Certificate : Type ℓ} {ParseError : Type κ} where
  abbrev outcome : Result ParseError Certificate → Result (CertificateError ParseError) Certificate
  outcome (ok c) = ok c
  outcome (err e) = err (not_parsed e)

  abbrev with_parsed :
      Certified Certificate ParseError
      → Result ParseError Certificate
      → Certified Certificate ParseError
  with_parsed d result = record {
    certificate_cert = d.certificate_cert;
    certificate_key = d.certificate_key;
    parsed = some result;
  }

  -- The domain afterwards, and the answer; `key_pair` is tls.X509KeyPair.
  unfoldable pub ensure_certificate :
      (Text → Text → Result ParseError Certificate)
      → Option (Certified Certificate ParseError)
      → Option (Certified Certificate ParseError) × Result (CertificateError ParseError) Certificate
  unfolding text_eq
  ensure_certificate key_pair none = (none, err not_configured)
  ensure_certificate key_pair (some d) =
      if text_eq d.certificate_key [] || text_eq d.certificate_cert []
      then (some d, err not_configured)
      else elim d.parsed [
        | some result ↦ (some d, outcome result)
        | none ↦
            let result = key_pair d.certificate_cert d.certificate_key in
            (some (with_parsed d result), outcome result)
      ]

  -- Whatever parsing the key pair would give a second time, a second call changes nothing and
  -- answers as the first did.
  pub ensure_certificate_again :
      (first second : Text → Text → Result ParseError Certificate)
      (d : Option (Certified Certificate ParseError))
      → let (d', answer) = ensure_certificate first d in ensure_certificate second d' ≡ (d', answer)
  unfolding ensure_certificate
  ensure_certificate_again first second none = refl
  ensure_certificate_again first second (some d) =
      elim (Bool-cases (text_eq d.certificate_key [] || text_eq d.certificate_cert [])) [
        | inl e ↦ rw e (rw e refl)
        | inr e ↦ elim (Option-cases d.parsed) [
          | inl p ↦ rw (e, p) (rw e refl)
          | inr (result, p) ↦ simp (e, p)
        ]
      ]
