-- ===== src/Certificates/Context.antt =====
-- `build_server_context` of receiver.py and `build_client_context` of sender.py, of approach-a-tls-mtls,
-- and the first steps of their `main`, which call these.
use cmpe272_finaltest_assesm.Prelude.{
  ℕ, Bool, true, false, Option, none, some, List, [], ◌∷◌, ◌=ₜ◌, if◌then◌else◌,
}
use cmpe272_finaltest_assesm.Result.{Result, ok, err, os_error, ◌>>=◌}
use cmpe272_finaltest_assesm.Bytes.{Bytes, Text}
use cmpe272_finaltest_assesm.Text.{codes}
use cmpe272_finaltest_assesm.Directory.{Directory, read}
use cmpe272_finaltest_assesm.Socket.{Socket}
use cmpe272_finaltest_assesm.Tls.Main.{Accepted, Disk, receiver_main, sender_main}
use cmpe272_finaltest_assesm.Certificates.{Certificate, X509}

pub data Version : Type 0 where
  minimum_supported tls_v1_2 tls_v1_3 : Version

pub data VerifyMode : Type 0 where
  cert_none cert_optional cert_required : VerifyMode

-- An `ssl.SSLContext`, as far as the code sets it.
pub record Context : Type 0 where
  pub minimum_version : Version
  pub chain : Option (Certificate × Bytes)
  pub roots : List Certificate
  pub verify_mode : VerifyMode
  pub check_hostname : Bool

-- `ssl.SSLContext(ssl.PROTOCOL_TLS_SERVER)` and `ssl.SSLContext(ssl.PROTOCOL_TLS_CLIENT)`
abbrev pub protocol_tls_server : Context
protocol_tls_server = record {
  minimum_version = minimum_supported;
  chain = none;
  roots = [];
  verify_mode = cert_none;
  check_hostname = false;
}

abbrev pub protocol_tls_client : Context
protocol_tls_client = record {
  minimum_version = minimum_supported;
  chain = none;
  roots = [];
  verify_mode = cert_required;
  check_hostname = true;
}

module _ (x : X509) (dir : Directory) where
  -- A key that is not the certificate's is an SSLError, which is an OSError.
  abbrev chained : Certificate → Bytes → Context → Result Context
  chained cert key ctx =
      if x.public_of key =ₜ cert.body.public_key
      then ok (record ctx { chain = some (cert, key) })
      else err os_error

  unfoldable pub load_cert_chain : Text → Text → Context → Result Context
  load_cert_chain cert_name key_name ctx = do
    cert_pem ← read cert_name dir
    key_pem ← read key_name dir
    cert ← x.load_certificate cert_pem
    key ← x.load_private key_pem
    chained cert key ctx

  unfoldable pub load_verify_locations : Text → Context → Result Context
  load_verify_locations name ctx = do
    pem ← read name dir
    root ← x.load_certificate pem
    ok (record ctx { roots = root ∷ ctx.roots })

  unfoldable pub build_server_context : Result Context
  build_server_context = do
    ctx ←
        load_cert_chain (codes "receiver.crt") (codes "receiver.key")
          (record protocol_tls_server { minimum_version = tls_v1_3 })
    ctx ← load_verify_locations (codes "ca.crt") ctx
    ok (record ctx { verify_mode = cert_required })

  unfoldable pub build_client_context : Result Context
  build_client_context = do
    ctx ←
        load_cert_chain (codes "sender.crt") (codes "sender.key")
          (record protocol_tls_client { minimum_version = tls_v1_3 })
    ctx ← load_verify_locations (codes "ca.crt") ctx
    ok (record ctx { verify_mode = cert_required; check_hostname = true })

  module _ (sha256 : Bytes → Bytes) where
    -- `main` of receiver.py: what accepting gives depends on the context.
    unfoldable pub receiver_with_certs : (Context → Accepted) → Disk → Result ℕ × Disk
    receiver_with_certs accept d = elim build_server_context [
      | err e ↦ (err e, d)
      | ok ctx ↦ receiver_main sha256 (accept ctx) d
    ]

    -- `main` of sender.py: a missing file comes before the certificates.
    unfoldable pub sender_with_certs :
        (Context → Result (Result Socket)) → Option Bytes → Result ℕ × Bytes
    sender_with_certs connect none = (ok 1, [])
    sender_with_certs connect (some file) = elim build_client_context [
      | err e ↦ (err e, [])
      | ok ctx ↦ sender_main sha256 (some file) (connect ctx)
    ]
