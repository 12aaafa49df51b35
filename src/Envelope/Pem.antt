-- ===== src/Envelope/Pem.antt =====
-- The functions of approach-b-broker-envelope/envelope.py that load keys. A key is its raw bytes, which
-- are also what `raw_public` gives of a public key: a file with a key of the other kind, which Python
-- loads and fails on at its first use, is not told apart.
use cmpe272_finaltest_assesm.Prelude.{◌≡◌}
use cmpe272_finaltest_assesm.Result.{Result, ok, ◌>>=◌}
use cmpe272_finaltest_assesm.Bytes.{Bytes, Text}
use cmpe272_finaltest_assesm.Directory.{Directory, read}

pub data Kind : Type 0 where
  x25519 ed25519 : Kind

-- The PEM texts of keys, as the `cryptography` package prints and loads them: PKCS8 without encryption
-- for private keys, SubjectPublicKeyInfo for public ones.
pub record Pem : Type 0 where
  pub private_bytes : Kind → Bytes → Bytes
  pub public_bytes : Kind → Bytes → Bytes
  pub load_private : Bytes → Result Bytes
  pub load_public : Bytes → Result Bytes

-- What was printed is loaded as the same key.
pub record IsPem (pem : Pem) : Type 0 where
  pub private_read :
      (kind : Kind) (key : Bytes) → pem.load_private (pem.private_bytes kind key) ≡ ok key
  pub public_read :
      (kind : Kind) (key : Bytes) → pem.load_public (pem.public_bytes kind key) ≡ ok key

module _ (pem : Pem) (dir : Directory) where
  unfoldable pub load_x25519_private : Text → Result Bytes
  load_x25519_private path = read path dir >>= pem.load_private

  unfoldable pub load_x25519_public : Text → Result Bytes
  load_x25519_public path = read path dir >>= pem.load_public

  unfoldable pub load_ed25519_private : Text → Result Bytes
  load_ed25519_private path = read path dir >>= pem.load_private

  unfoldable pub load_ed25519_public : Text → Result Bytes
  load_ed25519_public path = read path dir >>= pem.load_public
