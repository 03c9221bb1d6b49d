-- ===== src/CommandLine/Certificate/Examples.antt =====
-- Starts over a toy encoding, with the theorems at them.
use pipie.Prelude.{
  ◌≡◌, refl, Option, none, some, [], ◌∷◌, ◌++◌, Bytes, text, drop, All, Outcome, ok, err, IsFailure,
  inr,
}
use pipie.CommandLine.Certificate.{set_up, generate_cert, Files, Certificates, Generation, starts}
use pipie.CommandLine.Certificate.Starts.{CertificateLaws, FailsBetween, starts-FailsBetween}

abbrev load_pair : Option Bytes → Option Bytes → Outcome Bytes
load_pair (some cert) (some key) = ok (drop 11 cert)
load_pair (some cert) none = err (text "open key.pem")
load_pair none key = err (text "open cert.pem")

abbrev toy_certificates : Certificates
toy_certificates = record {
  create_certificate = λ key. some (text "of " ++ key);
  marshal_private_key = λ key. key;
  encode = λ kind content. kind ++ content;
  load = load_pair;
}

needs_key_toy : (cert : Option Bytes) → IsFailure (load_pair cert none)
needs_key_toy none = tt
needs_key_toy (some cert) = tt

loads_toy :
    (key der : Bytes)
    → some (text "of " ++ key) ≡ some der
    → load_pair (some (text "CERTIFICATE" ++ der)) (some (text "RSA PRIVATE KEY" ++ key)) ≡ ok der
loads_toy key der e = refl

toy-CertificateLaws : CertificateLaws toy_certificates
toy-CertificateLaws = record { loads = loads_toy; needs_key = needs_key_toy }

abbrev empty_directory : Files
empty_directory = record { cert_pem = none; key_pem = none }

abbrev works : Generation
works = record {
  key = some (text "k");
  serial_error = none;
  create_error = none;
  cert_write_error = none;
  cert_close_error = none;
  open_error = none;
  key_write_error = none;
  key_close_error = none;
}

abbrev no_space : Generation
no_space = record works { open_error = some (text "no space left on device") }

no_space-FailsBetween : FailsBetween no_space
no_space-FailsBetween = record {
  key = text "k";
  has_key = refl;
  no_serial_error = refl;
  no_create_error = refl;
  failed = inr (inr (text "no space left on device", refl));
}

same_certificate :
    starts toy_certificates (works ∷ (no_space ∷ [])) empty_directory
    ≡ ok (text "of k") ∷ (ok (text "of k") ∷ [])
unfolding starts set_up generate_cert
same_certificate = refl

starts-FailsBetween_example :
    All (λ r. IsFailure r) (starts toy_certificates (no_space ∷ (works ∷ [])) empty_directory)
starts-FailsBetween_example =
    starts-FailsBetween toy_certificates no_space (works ∷ []) empty_directory toy-CertificateLaws
      refl refl no_space-FailsBetween
