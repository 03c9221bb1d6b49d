-- ===== src/CommandLine/Certificate/Starts.antt =====
-- What a sequence of starts on the same directory has for a certificate.
use mathlib.Core.Path.{subst}
use pipie.Prelude.{
  continue, Action, ◌≡◌, refl, sym, ◌∙◌, ◌⊎◌, inl, inr, Option, none, some, List, [], ◌∷◌, map,
  Bytes, text, All, Outcome, ok, err, panic, IsFailure, Option-cases, ap,
}
use pipie.CommandLine.Certificate.{Files, Certificates, Generation, generate_cert, set_up, starts}

-- LoadX509KeyPair returns the certificate of a pair that was made from one key and encoded, and fails
-- where the file of the key is missing.
pub record CertificateLaws (x : Certificates) : Type 0 where
  pub loads :
      (key der : Bytes)
      → x.create_certificate key ≡ some der
      → x.load
          (some (x.encode (text "CERTIFICATE") der))
          (some (x.encode (text "RSA PRIVATE KEY") (x.marshal_private_key key)))
        ≡ ok der
  pub needs_key : (cert : Option Bytes) → IsFailure (x.load cert none)

-- Every call of a run of generateCert succeeds.
record Succeeds (x : Certificates) (g : Generation) (key der : Bytes) : Type 0 where
  has_key : g.key ≡ some key
  has_der : x.create_certificate key ≡ some der
  no_serial_error : g.serial_error ≡ none
  no_create_error : g.create_error ≡ none
  no_cert_write_error : g.cert_write_error ≡ none
  no_cert_close_error : g.cert_close_error ≡ none
  no_open_error : g.open_error ≡ none
  no_key_write_error : g.key_write_error ≡ none
  no_key_close_error : g.key_close_error ≡ none

-- It fails behind the creation of cert.pem and before that of key.pem.
pub record FailsBetween (g : Generation) : Type 0 where
  pub key : Bytes
  pub has_key : g.key ≡ some key
  pub no_serial_error : g.serial_error ≡ none
  pub no_create_error : g.create_error ≡ none
  pub failed :
      ((w : Bytes × Bytes) × (g.cert_write_error ≡ some w))
      ⊎ (((e : Bytes) × (g.cert_close_error ≡ some e)) ⊎ ((e : Bytes) × (g.open_error ≡ some e)))

module _ (x : Certificates) where
  abbrev made : Bytes → Bytes → Files
  made key der = record {
    cert_pem = some (x.encode (text "CERTIFICATE") der);
    key_pem = some (x.encode (text "RSA PRIVATE KEY") (x.marshal_private_key key));
  }

  generated :
      (g : Generation) (f : Files) (key der : Bytes)
      → Succeeds x g key der
      → generate_cert x g f ≡ (ok tt, made key der)
  unfolding generate_cert
  generated g f key der s = simp (
    s.no_serial_error, s.has_key, s.no_create_error, s.has_der, s.no_cert_write_error,
    s.no_cert_close_error, s.no_open_error, s.no_key_write_error, s.no_key_close_error,
  )

  -- A file of a certificate is there, and none of a key.
  record HalfMade (f : Files) : Type 0 where
    cert : Bytes
    has_cert : f.cert_pem ≡ some cert
    no_key : f.key_pem ≡ none

  -- Behind the creation of cert.pem: the write, the close, and key.pem.
  half_opened :
      (g : Generation) (f : Files) (key e : Bytes)
      → g.key ≡ some key
      → g.serial_error ≡ none
      → g.create_error ≡ none
      → g.cert_write_error ≡ none
      → g.cert_close_error ≡ none
      → g.open_error ≡ some e
      → f.key_pem ≡ none
      → IsFailure (generate_cert x g f).0 × HalfMade (generate_cert x g f).1
  unfolding generate_cert
  half_opened g f key e k n c w l o no_key =
      simp (n, k, c, w, l, o) (tt, record { cert = _; has_cert = refl; no_key = no_key })

  half_closed :
      (g : Generation) (f : Files) (key e : Bytes)
      → g.key ≡ some key
      → g.serial_error ≡ none
      → g.create_error ≡ none
      → g.cert_write_error ≡ none
      → g.cert_close_error ≡ some e
      → f.key_pem ≡ none
      → IsFailure (generate_cert x g f).0 × HalfMade (generate_cert x g f).1
  unfolding generate_cert
  half_closed g f key e k n c w l no_key =
      simp (n, k, c, w, l) (tt, record { cert = _; has_cert = refl; no_key = no_key })

  half_written :
      (g : Generation) (f : Files) (key : Bytes) (w : Bytes × Bytes)
      → g.key ≡ some key
      → g.serial_error ≡ none
      → g.create_error ≡ none
      → g.cert_write_error ≡ some w
      → f.key_pem ≡ none
      → IsFailure (generate_cert x g f).0 × HalfMade (generate_cert x g f).1
  unfolding generate_cert
  half_written g f key w k n c q no_key =
      simp (n, k, c, q) (tt, record { cert = w.0; has_cert = refl; no_key = no_key })

  half_generated :
      (g : Generation) (f : Files)
      → FailsBetween g
      → f.key_pem ≡ none
      → IsFailure (generate_cert x g f).0 × HalfMade (generate_cert x g f).1
  half_generated g f s none_yet = elim (Option-cases g.cert_write_error) [
    | inr (w, q) ↦ half_written g f s.key w s.has_key s.no_serial_error s.no_create_error q none_yet
    | inl written ↦ elim (Option-cases g.cert_close_error) [
      | inr (e, q) ↦
          half_closed g f s.key e s.has_key s.no_serial_error s.no_create_error written q none_yet
      | inl closed ↦ elim s.failed [
        | inl (w, q) ↦ absurd (cc)
        | inr (inl (e, q)) ↦ absurd (cc)
        | inr (inr (e, q)) ↦
            half_opened g f s.key e s.has_key s.no_serial_error s.no_create_error written closed q
              none_yet
      ]
    ]
  ]

  stays_failed :
      (r : Outcome (Unit {0})) (k : Unit {0} → Action Files Bytes) (f : Files)
      → IsFailure r
      → IsFailure (continue r k f).0 × ((continue r k f).1 ≡ f)
  stays_failed (ok a) k f fails = absurd fails
  stays_failed (err e) k f fails = (tt, refl)
  stays_failed (panic e) k f fails = (tt, refl)

  -- The first start on an empty directory, whose generation ends in some way.
  set_up-failed :
      (g : Generation) (f : Files)
      → f.cert_pem ≡ none
      → IsFailure (generate_cert x g f).0
      → IsFailure (set_up x g f).0 × ((set_up x g f).1 ≡ (generate_cert x g f).1)
  unfolding set_up
  set_up-failed g f missing fails = simp missing (stays_failed (generate_cert x g f).0 _ _ fails)

  set_up-made :
      (g : Generation) (f : Files) (key der : Bytes)
      → CertificateLaws x
      → f.cert_pem ≡ none
      → Succeeds x g key der
      → set_up x g f ≡ (ok der, made key der)
  unfolding set_up
  set_up-made g f key der laws missing s =
      simp (missing, generated g f key der s)
        (ap (λ r. (r, made key der)) (laws.loads key der s.has_der))

  starts-made :
      (gs : List Generation) (key der : Bytes)
      → CertificateLaws x
      → x.create_certificate key ≡ some der
      → starts x gs (made key der) ≡ map (λ _. ok der) gs
  unfolding starts set_up
  starts-made [] key der laws d = refl
  starts-made (g ∷ gs) key der laws d =
      rw (laws.loads key der d) (ap (λ l. ok der ∷ l) (starts-made gs key der laws d))

  starts_without_key :
      (gs : List Generation) (cert : Bytes)
      → CertificateLaws x
      → All (λ r. IsFailure r) (starts x gs (record { cert_pem = some cert; key_pem = none }))
  unfolding starts set_up
  starts_without_key [] cert laws = tt
  starts_without_key (g ∷ gs) cert laws =
      (laws.needs_key (some cert), starts_without_key gs cert laws)

  starts-HalfMade :
      (gs : List Generation) (f : Files)
      → CertificateLaws x
      → HalfMade f
      → All (λ r. IsFailure r) (starts x gs f)
  starts-HalfMade gs f laws h =
      let there : f ≡ record { cert_pem = some h.cert; key_pem = none } =
        ap (λ c. record f { cert_pem = c }) h.has_cert
        ∙ ap (λ k. record { cert_pem = some h.cert; key_pem = k }) h.no_key in
      subst (λ u. All (λ r. IsFailure r) (starts x gs u)) (sym there)
        (starts_without_key gs h.cert laws)

-- In a directory with no certificate, where every call of the first start's generation succeeds, that
-- start and every later one, whatever the later calls would give, has the certificate that was made
-- then.
starts-same :
    (x : Certificates) (g : Generation) (gs : List Generation) (f : Files) (key der : Bytes)
    → CertificateLaws x
    → f.cert_pem ≡ none
    → Succeeds x g key der
    → starts x (g ∷ gs) f ≡ map (λ _. ok der) (g ∷ gs)
unfolding starts
starts-same x g gs f key der laws missing s =
    rw (set_up-made x g f key der laws missing s)
      (ap (λ l. ok der ∷ l) (starts-made x gs key der laws s.has_der))

-- In an empty directory, where the first start fails behind the creation of cert.pem and before that
-- of key.pem, every later start fails too, although all its calls may succeed.
pub starts-FailsBetween :
    (x : Certificates) (g : Generation) (gs : List Generation) (f : Files)
    → CertificateLaws x
    → f.cert_pem ≡ none
    → f.key_pem ≡ none
    → FailsBetween g
    → All (λ r. IsFailure r) (starts x (g ∷ gs) f)
unfolding starts
starts-FailsBetween x g gs f laws missing no_key s =
    let (fails, half) = half_generated x g f s no_key in
    let (first, same) = set_up-failed x g f missing fails in
    (first, starts-HalfMade x gs (set_up x g f).1 laws (subst (λ u. HalfMade x u) (sym same) half))
