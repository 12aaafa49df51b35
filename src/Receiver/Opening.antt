-- ===== src/Receiver/Opening.antt =====
-- The checks on a chunk in the loop of `receive`: fetch, digest, decryption, size.
use cmpe272_finaltest_assesm.Prelude.{ℕ, Option, none, some, length}
use cmpe272_finaltest_assesm.Result.{
  Result, ok, err, key_error, verification_error, guard, ◌>>=◌, ◌>>◌,
}
use cmpe272_finaltest_assesm.Bytes.{Bytes, Text, hex}
use cmpe272_finaltest_assesm.Text.{codes}
use cmpe272_finaltest_assesm.Envelope.{chunk_nonce, chunk_aad, chunk_key}
use cmpe272_finaltest_assesm.Json.{Value, item, is_text, is_int}
use cmpe272_finaltest_assesm.Receiver.State.{Setting}
use cmpe272_finaltest_assesm.Receiver.Manifest.{Plan, find_record}

abbrev pub or_refused : Option Bytes → Result Bytes
or_refused none = err verification_error
or_refused (some bs) = ok bs

abbrev pub or_no_record : Option Value → Result Value
or_no_record none = err key_error
or_no_record (some r) = ok r

-- The plaintext of a chunk, or the exception that ends the run.
module _ (s : Setting) (id : Text) (plan : Plan) where
  unfoldable pub open_chunk : ℕ → Result Bytes
  open_chunk index = do
    record_ ← or_no_record (find_record index plan.records)
    found ← s.broker_get (chunk_key id index)
    ct ← or_refused found
    digest ← item record_ (codes "ciphertext_sha256")
    guard (is_text (some digest) (hex (s.crypto.sha256 ct))) verification_error
    nonce ← chunk_nonce index
    aad ← chunk_aad plan.transfer_id index plan.total_chunks
    plain ← or_refused (s.crypto.aead_decrypt plan.key nonce ct aad)
    size ← item record_ (codes "plaintext_len")
    guard (is_int size (length plain)) verification_error
    ok plain
