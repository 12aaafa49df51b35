-- ===== src/Sender/Sealed.antt =====
-- What the sender encrypts, the receiver opens: the two halves of a transfer agree.
use cmpe272_finaltest_assesm.Prelude.{
  ℕ, ◌<◌, ◌≡◌, refl, ap, ◌∙◌, some, ◌∷◌, ◌++◌, arith, text_eq_refl, ==_refl, length,
}
use cmpe272_finaltest_assesm.Result.{ok}
use cmpe272_finaltest_assesm.Bytes.{Bytes, Text, u64_mod, be, hex}
use cmpe272_finaltest_assesm.Text.{codes}
use cmpe272_finaltest_assesm.Envelope.{Crypto, IsCorrect, chunk_key}
use cmpe272_finaltest_assesm.Envelope.Nonces.{chunk_nonce_lem, chunk_aad_lem}
use cmpe272_finaltest_assesm.Json.{Value, num, str, item, find_field, is_text, is_int, as_int}
use cmpe272_finaltest_assesm.Receiver.State.{Setting}
use cmpe272_finaltest_assesm.Receiver.Manifest.{Plan, find_record}
use cmpe272_finaltest_assesm.Receiver.Opening.{open_chunk}
use cmpe272_finaltest_assesm.Sender.Sealing.{chunk_record, seal_chunk}

module _ (c : Crypto) (key tid : Bytes) (total index : ℕ) (plain : Bytes) where
  abbrev pub nonce : Bytes
  nonce = 0 ∷ 0 ∷ 0 ∷ 0 ∷ be 8 index

  abbrev pub aad : Bytes
  aad = tid ++ (be 8 index ++ be 8 total)

  abbrev pub ciphertext : Bytes
  ciphertext = c.aead_encrypt key nonce plain aad

  -- A chunk with a 64-bit index and total is always sealed.
  pub seal_chunk_lem :
      index < u64_mod
      → total < u64_mod
      → seal_chunk c key tid total index plain
        ≡ ok (ciphertext, chunk_record index plain ciphertext c)
  unfolding seal_chunk
  seal_chunk_lem hi ht = rw (chunk_nonce_lem index hi, chunk_aad_lem tid index total hi ht) refl

-- A record that has the digest of the ciphertext and the size of the plaintext lets it pass.
pub open_chunk-ok :
    (s : Setting) (id : Text) (plan : Plan) (index : ℕ) (plain : Bytes) (r : Value)
    → IsCorrect s.crypto
    → index < u64_mod
    → plan.total_chunks < u64_mod
    → find_record index plan.records ≡ some r
    → let ct = ciphertext s.crypto plan.key plan.transfer_id plan.total_chunks index plain in
      item r (codes "ciphertext_sha256") ≡ ok (str (hex (s.crypto.sha256 ct)))
      → item r (codes "plaintext_len") ≡ ok (num (length plain))
      → s.broker_get (chunk_key id index) ≡ ok (some ct)
      → open_chunk s id plan index ≡ ok plain
unfolding open_chunk is_text is_int as_int
open_chunk-ok s id plan index plain r correct hi ht known digest size got =
    let ct = ciphertext s.crypto plan.key plan.transfer_id plan.total_chunks index plain in
    rw
      (
        known,
        got,
        digest,
        text_eq_refl (hex (s.crypto.sha256 ct)),
        chunk_nonce_lem index hi,
        chunk_aad_lem plan.transfer_id index plan.total_chunks hi ht,
        correct.decrypts plan.key
            (nonce s.crypto plan.key plan.transfer_id plan.total_chunks index plain) plain
            (aad s.crypto plan.key plan.transfer_id plan.total_chunks index plain),
        size,
        ==_refl (length plain),
      )
      refl

-- A chunk is sealed under the key, the id and the total of the receiver's plan. If the manifest has
-- its record and the broker returns its ciphertext, the receiver gets the plaintext. The index and the
-- total are below 2 ^ 64, and the primitives are correct.
pub open_chunk-seal_chunk :
    (s : Setting) (id : Text) (plan : Plan) (index : ℕ) (plain : Bytes) (sealed : Bytes × Value)
    → IsCorrect s.crypto
    → index < u64_mod
    → plan.total_chunks < u64_mod
    → seal_chunk s.crypto plan.key plan.transfer_id plan.total_chunks index plain ≡ ok sealed
    → find_record index plan.records ≡ some sealed.1
    → s.broker_get (chunk_key id index) ≡ ok (some sealed.0)
    → open_chunk s id plan index ≡ ok plain
open_chunk-seal_chunk s id plan index plain sealed correct hi ht done known got =
    let ran =
      seal_chunk_lem s.crypto plan.key plan.transfer_id plan.total_chunks index plain hi ht in
    let same : sealed ≡ (
      ciphertext s.crypto plan.key plan.transfer_id plan.total_chunks index plain,
      chunk_record index plain
          (ciphertext s.crypto plan.key plan.transfer_id plan.total_chunks index plain) s.crypto,
    ) =
      ground (arith, done, ran) in
    open_chunk-ok s id plan index plain sealed.1 correct hi ht known
      (unfold item find_field in rw same refl) (unfold item find_field in rw same refl)
      (got ∙ ap (λ q. ok (some q.0)) same)
