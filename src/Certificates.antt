-- ===== src/Certificates.antt =====
-- approach-a-tls-mtls/gen_certs.py: the authority and the two certificates that it signs, and the files
-- that they are written to. What the `cryptography` package computes is a parameter.
pub mod Context
pub mod Written
pub mod Handshake
pub mod Vouched
pub mod Trust
pub mod Delivery
use cmpe272_finaltest_assesm.Prelude.{
  ℕ, ◌+◌, ◌*◌, Bool, true, false, Option, none, some, List, [], ◌∷◌, if◌then◌else◌,
}
use cmpe272_finaltest_assesm.Result.{Result, ok}
use cmpe272_finaltest_assesm.Exec.{Exec, pure, modify, ◌>>=◌, ◌>>◌}
use cmpe272_finaltest_assesm.Bytes.{Bytes, Text}
use cmpe272_finaltest_assesm.Text.{codes}
use cmpe272_finaltest_assesm.Directory.{Directory, owner_only, world_readable, overwrite}

pub data Purpose : Type 0 where
  server_auth client_auth : Purpose

-- A subject alternative name.
pub data San : Type 0 where
  dns_name ip_address : Text → San

-- `x509.BasicConstraints`
pub record Constraints : Type 0 where
  pub ca : Bool
  pub path_length : Option ℕ

-- `x509.KeyUsage`
pub record Usage : Type 0 where
  pub digital_signature : Bool
  pub content_commitment : Bool
  pub key_encipherment : Bool
  pub data_encipherment : Bool
  pub key_agreement : Bool
  pub key_cert_sign : Bool
  pub crl_sign : Bool
  pub encipher_only : Bool
  pub decipher_only : Bool

-- What a `CertificateBuilder` has collected; names are common names, times are seconds.
pub record Body : Type 0 where
  pub subject : Text
  pub issuer : Text
  pub public_key : Bytes
  pub serial_number : ℕ
  pub not_before : ℕ
  pub not_after : ℕ
  pub constraints : Constraints
  pub usage : Option Usage
  pub extended : Option (List Purpose)
  pub sans : Option (List San)

pub record Certificate : Type 0 where
  pub body : Body
  pub signature : Bytes

-- Elliptic curve keys, signatures over the encoding of a body, and the PEM texts.
pub record X509 : Type 0 where
  pub public_of : Bytes → Bytes
  pub sign : Bytes → Body → Bytes
  pub verify : Bytes → Body → Bytes → Bool
  pub private_bytes : Bytes → Bytes
  pub load_private : Bytes → Result Bytes
  pub public_bytes : Certificate → Bytes
  pub load_certificate : Bytes → Result Certificate
  -- Whether a host goes by an alternative name.
  pub goes_by : Text → San → Bool

abbrev pub validity_days : ℕ
validity_days = 365

-- What a run draws at random, and the time.
pub record Draws : Type 0 where
  pub ca_key : Bytes
  pub recv_key : Bytes
  pub send_key : Bytes
  pub ca_serial : ℕ
  pub recv_serial : ℕ
  pub send_serial : ℕ
  pub now : ℕ

abbrev pub not_after : Draws → ℕ
not_after r = r.now + validity_days * 86400

abbrev pub ca_name : Text
ca_name = codes "cmpe272-demo-CA"

abbrev ca_usage : Usage
ca_usage = record {
  digital_signature = false;
  content_commitment = false;
  key_encipherment = false;
  data_encipherment = false;
  key_agreement = false;
  key_cert_sign = true;
  crl_sign = true;
  encipher_only = false;
  decipher_only = false;
}

abbrev pub signed : X509 → Bytes → Body → Certificate
signed x key body = record { body = body; signature = x.sign key body }

-- `_key_pem` and `_cert_pem`
abbrev pub key_pem : X509 → Bytes → Bytes
key_pem x key = x.private_bytes key

abbrev pub cert_pem : X509 → Certificate → Bytes
cert_pem x cert = x.public_bytes cert

-- `_write`
unfoldable pub write : (ℕ → ℕ) → Text → Bytes → Bool → Exec Directory Unit
write umask name bs secret =
    modify (overwrite umask name (if secret then owner_only else world_readable) bs)

-- `if sans`: without names there is no extension.
abbrev named : List San → Option (List San)
named [] = none
named (s ∷ sans) = some (s ∷ sans)

module _ (x : X509) (r : Draws) where
  -- The root, which signs itself.
  unfoldable pub ca_cert : Certificate
  ca_cert = signed x r.ca_key (record {
    subject = ca_name;
    issuer = ca_name;
    public_key = x.public_of r.ca_key;
    serial_number = r.ca_serial;
    not_before = r.now;
    not_after = not_after r;
    constraints = record { ca = true; path_length = some 0 };
    usage = some ca_usage;
    extended = none;
    sans = none;
  })

  -- `issue_leaf`, with the key and the serial number that it draws
  unfoldable pub issue_leaf : Bytes → ℕ → Text → List Purpose → List San → Certificate
  issue_leaf leaf_key serial cn eku sans = signed x r.ca_key (record {
    subject = cn;
    issuer = ca_name;
    public_key = x.public_of leaf_key;
    serial_number = serial;
    not_before = r.now;
    not_after = not_after r;
    constraints = record { ca = false; path_length = none };
    usage = none;
    extended = some eku;
    sans = named sans;
  })

  unfoldable pub recv_cert : Certificate
  recv_cert =
      issue_leaf r.recv_key r.recv_serial (codes "transfer-receiver") (server_auth ∷ [])
        (dns_name (codes "localhost") ∷ ip_address (codes "127.0.0.1") ∷ [])

  unfoldable pub send_cert : Certificate
  send_cert = issue_leaf r.send_key r.send_serial (codes "transfer-sender") (client_auth ∷ []) []

  -- `main`
  unfoldable pub gen_certs : (ℕ → ℕ) → Exec Directory ℕ
  gen_certs umask = do
    write umask (codes "ca.key") (key_pem x r.ca_key) true
    write umask (codes "ca.crt") (cert_pem x ca_cert) false
    write umask (codes "receiver.key") (key_pem x r.recv_key) true
    write umask (codes "receiver.crt") (cert_pem x recv_cert) false
    write umask (codes "sender.key") (key_pem x r.send_key) true
    write umask (codes "sender.crt") (cert_pem x send_cert) false
    pure 0
