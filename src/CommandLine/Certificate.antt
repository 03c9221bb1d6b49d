-- ===== src/CommandLine/Certificate.antt =====
-- The certificate of a process: its setup in TestMain, and generateCert, of cmd/pipie/main.go.
-- `err` is the end of the process by log.Fatalf.
pub mod Starts
mod Examples
use pipie.Prelude.{
  Bool, true, false, Option, none, some, List, [], ◌∷◌, Bytes, text, Outcome, ok, err, panic,
  Action, lift, pure, ◌>>=◌, ◌>>◌,
}

-- cert.pem and key.pem, where they exist.
pub record Files : Type 0 where
  pub cert_pem : Option Bytes
  pub key_pem : Option Bytes

-- What crypto/x509, encoding/pem and tls.LoadX509KeyPair make of their arguments; the last returns
-- the first certificate of the pair. `create_certificate` is `none` on an error.
pub record Certificates : Type 0 where
  pub create_certificate : Bytes → Option Bytes
  pub marshal_private_key : Bytes → Bytes
  pub encode : Bytes → Bytes → Bytes
  pub load : Option Bytes → Option Bytes → Outcome Bytes

-- The answers of the calls of one run of generateCert: the key, `none` on an error, the errors of the
-- others, and what a write that failed has written.
pub record Generation : Type 0 where
  pub key : Option Bytes
  pub serial_error : Option Bytes
  pub create_error : Option Bytes
  pub cert_write_error : Option (Bytes × Bytes)
  pub cert_close_error : Option Bytes
  pub open_error : Option Bytes
  pub key_write_error : Option (Bytes × Bytes)
  pub key_close_error : Option Bytes

abbrev pub set_cert : Bytes → Files → Files
set_cert content f = record f { cert_pem = some content }

abbrev pub set_key : Bytes → Files → Files
set_key content f = record f { key_pem = some content }

-- A call that has only an error.
abbrev pub fatal : Option Bytes → Action Files (Unit {0})
fatal none f = (ok tt, f)
fatal (some e) f = (err e, f)

abbrev pub or_panic : Option Bytes → Action Files (Unit {0})
or_panic none f = (ok tt, f)
or_panic (some e) f = (panic e, f)

-- os.Create and os.OpenFile with O_TRUNC leave an empty file.
abbrev pub create : (Bytes → Files → Files) → Option Bytes → Action Files (Unit {0})
create set none f = (ok tt, set [] f)
create set (some e) f = (err e, f)

abbrev pub write :
    (Bytes → Files → Files) → Option (Bytes × Bytes) → Bytes → Action Files (Unit {0})
write set none content f = (ok tt, set content f)
write set (some (written, e)) content f = (err e, set written f)

-- The error of GenerateKey is overwritten; the key is then nil and `&key.PublicKey` panics.
abbrev pub public_part : Option Bytes → Action Files Bytes
public_part none f = (panic (text "invalid memory address or nil pointer dereference"), f)
public_part (some key) f = (ok key, f)

-- The error of CreateCertificate is overwritten too; there are no bytes then.
abbrev pub or_no_bytes : Option Bytes → Bytes
or_no_bytes none = []
or_no_bytes (some der) = der

module _ (x : Certificates) where
  unfoldable pub generate_cert : Generation → Action Files (Unit {0})
  generate_cert g = do
    or_panic g.serial_error
    key ← public_part g.key
    create set_cert g.create_error
    write set_cert g.cert_write_error
        (x.encode (text "CERTIFICATE") (or_no_bytes (x.create_certificate key)))
    fatal g.cert_close_error
    create set_key g.open_error
    write set_key g.key_write_error (x.encode (text "RSA PRIVATE KEY") (x.marshal_private_key key))
    fatal g.key_close_error

  -- A certificate is generated where cert.pem does not exist; key.pem is not looked at.
  abbrev pub if_missing : Option Bytes → Generation → Action Files (Unit {0})
  if_missing none g = generate_cert g
  if_missing (some content) g = pure tt

  abbrev pub load_files : Action Files Bytes
  load_files f = (x.load f.cert_pem f.key_pem, f)

  unfoldable pub set_up : Generation → Action Files Bytes
  unfolding generate_cert
  set_up g f = (do if_missing f.cert_pem g; load_files) f

  -- Several starts, one after another, on the same files.
  unfoldable pub starts : List Generation → Files → List (Outcome Bytes)
  unfolding set_up
  starts [] f = []
  starts (g ∷ gs) f = (set_up g f).0 ∷ starts gs (set_up g f).1
