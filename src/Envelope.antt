-- ===== src/Envelope.antt =====
-- approach-b-broker-envelope/envelope.py: key derivation, nonces, associated data, and the names of
-- the blobs. The primitives of the `cryptography` package are a parameter.
pub mod Nonces
pub mod Pem
use cmpe272_finaltest_assesm.Prelude.{
  ℕ, ◌+◌, ◌*◌, ◌≡◌, Bool, true, List, [], ◌∷◌, ◌++◌, Option, some, length,
}
use cmpe272_finaltest_assesm.Result.{Result, ok, ◌>>=◌}
use cmpe272_finaltest_assesm.Bytes.{Bytes, Text, to_bytes8}
use cmpe272_finaltest_assesm.Bytes.Hex.{IsOctets}
use cmpe272_finaltest_assesm.Text.{codes, padded8}

abbrev pub manifest_version : Text
manifest_version = codes "cmpe272-approach-b/v1"

abbrev pub key_len : ℕ
key_len = 32

abbrev pub freshness_window_s : ℕ
freshness_window_s = 24 * 3600

abbrev pub clock_skew_s : ℕ
clock_skew_s = 300

-- The primitives that the program calls, with what it relies on.
pub record Crypto : Type 0 where
  -- `hashlib.sha256(bs).digest()`
  pub sha256 : Bytes → Bytes
  -- HKDF-SHA256 of a length, a salt, an info and a secret
  pub hkdf : ℕ → Bytes → Bytes → Bytes → Bytes
  -- X25519: the public half of a private key, and the shared secret of a private and a public
  -- key; `none` is the `ValueError` for a point of low order
  pub x25519_public : Bytes → Bytes
  pub x25519_exchange : Bytes → Bytes → Option Bytes
  -- Ed25519: the public half, a signature, and its verification
  pub ed25519_public : Bytes → Bytes
  pub ed25519_sign : Bytes → Bytes → Bytes
  pub ed25519_verify : Bytes → Bytes → Bytes → Bool
  -- ChaCha20-Poly1305 of a key, a nonce, a text and associated data; `none` is `InvalidTag`
  pub aead_encrypt : Bytes → Bytes → Bytes → Bytes → Bytes
  pub aead_decrypt : Bytes → Bytes → Bytes → Bytes → Option Bytes

-- Their documented behaviour between honest parties.
pub record IsCorrect (c : Crypto) : Type 0 where
  pub agree :
      (a b : Bytes)
      → (z : Bytes) × (c.x25519_exchange a (c.x25519_public b) ≡ some z)
        × (c.x25519_exchange b (c.x25519_public a) ≡ some z)
  pub signs : (k m : Bytes) → c.ed25519_verify (c.ed25519_public k) (c.ed25519_sign k m) m ≡ true
  pub decrypts : (k n p a : Bytes) → c.aead_decrypt k n (c.aead_encrypt k n p a) a ≡ some p
  pub public_size : (k : Bytes) → length (c.x25519_public k) ≡ 32
  pub public_octets : (k : Bytes) → IsOctets (c.x25519_public k)
  pub digest_size : (bs : Bytes) → length (c.sha256 bs) ≡ 32

-- `transfer_id` salts the derivation, and the info binds the version and both public keys.
unfoldable pub derive_chunk_key : Crypto → Bytes → Bytes → Bytes → Bytes → Bytes
derive_chunk_key c shared_secret transfer_id ephemeral_pub_raw receiver_pub_raw =
    let info =
      manifest_version ++ (codes "|chunkkey|" ++ (ephemeral_pub_raw ++ receiver_pub_raw)) in
    c.hkdf key_len transfer_id info shared_secret

unfoldable pub chunk_nonce : ℕ → Result Bytes
chunk_nonce index = do bs ← to_bytes8 index; ok (0 ∷ 0 ∷ 0 ∷ 0 ∷ bs)

unfoldable pub chunk_aad : Bytes → ℕ → ℕ → Result Bytes
chunk_aad transfer_id index total_chunks = do
  i ← to_bytes8 index
  t ← to_bytes8 total_chunks
  ok (transfer_id ++ (i ++ t))

unfoldable pub manifest_key : Text → Text
manifest_key transfer_id_hex = transfer_id_hex ++ codes "/manifest"

unfoldable pub signature_key : Text → Text
signature_key transfer_id_hex = transfer_id_hex ++ codes "/manifest.sig"

unfoldable pub chunk_key : Text → ℕ → Text
chunk_key transfer_id_hex index = transfer_id_hex ++ (codes "/chunk_" ++ padded8 index)
