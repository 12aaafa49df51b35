-- ===== src/Sender/Sealing.antt =====
-- The key of a transfer and the encryption of a chunk, in `send` of sender.py.
use cmpe272_finaltest_assesm.Prelude.{ℕ, length}
use cmpe272_finaltest_assesm.Result.{Result, ok, ◌>>=◌}
use cmpe272_finaltest_assesm.Bytes.{Bytes, hex}
use cmpe272_finaltest_assesm.Text.{codes}
use cmpe272_finaltest_assesm.Envelope.{Crypto, derive_chunk_key, chunk_nonce, chunk_aad}
use cmpe272_finaltest_assesm.Json.{Value, num, str, obj, end, field}
use cmpe272_finaltest_assesm.Receiver.Manifest.{or_value_error}
use cmpe272_finaltest_assesm.Sender.State.{TransferState, Sending}

abbrev pub chunk_record : ℕ → Bytes → Bytes → Crypto → Value
chunk_record index plain ct c = obj (
    field (codes "index") (num index) (
      field (codes "plaintext_len") (num (length plain))
        (field (codes "ciphertext_sha256") (str (hex (c.sha256 ct))) end)))

-- The ciphertext of a chunk, and its record in the manifest.
unfoldable pub seal_chunk : Crypto → Bytes → Bytes → ℕ → ℕ → Bytes → Result (Bytes × Value)
seal_chunk c key transfer_id total index plain = do
  nonce ← chunk_nonce index
  aad ← chunk_aad transfer_id index total
  let ct = c.aead_encrypt key nonce plain aad
  ok (ct, chunk_record index plain ct c)

-- The sender's half of the exchange.
unfoldable pub sender_key : Sending → TransferState → Bytes → Result Bytes
sender_key p st transfer_id = do
  shared ← or_value_error (p.crypto.x25519_exchange st.ephemeral_key p.receiver_pub)
  let ephemeral_pub_raw = p.crypto.x25519_public st.ephemeral_key
  ok (derive_chunk_key p.crypto shared transfer_id ephemeral_pub_raw p.receiver_pub)
