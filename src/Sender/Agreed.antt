-- ===== src/Sender/Agreed.antt =====
-- Both sides derive the same key.
use cmpe272_finaltest_assesm.Prelude.{◌≡◌, ap, sym, some, [], ◌==◌, arith, length}
use cmpe272_finaltest_assesm.Result.{ok, value_error, verification_error, guard, >>=-eq-ok}
use cmpe272_finaltest_assesm.Bytes.{Bytes, Text, hex, from_hex}
use cmpe272_finaltest_assesm.Bytes.Hex.{from_hex-hex}
use cmpe272_finaltest_assesm.Text.{codes}
use cmpe272_finaltest_assesm.Envelope.{IsCorrect, derive_chunk_key}
use cmpe272_finaltest_assesm.Json.{Value, str, item, elements, as_int}
use cmpe272_finaltest_assesm.Receiver.State.{Setting}
use cmpe272_finaltest_assesm.Receiver.Manifest.{
  Plan, index_records, is_complete, or_verification_error, or_value_error, text_of, plan_of,
}
use cmpe272_finaltest_assesm.Sender.State.{TransferState, Sending}
use cmpe272_finaltest_assesm.Sender.Sealing.{sender_key}

-- What a plan was made of.
plan_of_sound :
    (s : Setting) (tid : Bytes) (m : Value) (plan : Plan)
    → plan_of s tid m ≡ ok plan
    → (v : Value) × (t : Text) × (raw z : Bytes) × (item m (codes "ephemeral_x25519_pub") ≡ ok v)
      × (text_of v ≡ ok t)
      × (from_hex t ≡ ok raw)
      × (or_value_error (s.crypto.x25519_exchange s.receiver_key raw) ≡ ok z)
      × (plan.key ≡ derive_chunk_key s.crypto z tid raw (s.crypto.x25519_public s.receiver_key))
      × (plan.transfer_id ≡ tid)
unfolding plan_of
plan_of_sound s tid m plan h =
    let (total, e0, h0) = >>=-eq-ok (item m (codes "total_chunks")) _ h in
    let (listed, e1, h1) = >>=-eq-ok (item m (codes "chunks")) _ h0 in
    let (items, e2, h2) = >>=-eq-ok (elements listed) _ h1 in
    let (records, e3, h3) = >>=-eq-ok (index_records items []) _ h2 in
    let (n, e4, h4) = >>=-eq-ok (or_verification_error (as_int total)) _ h3 in
    let (u, e5, h5) = >>=-eq-ok (guard (is_complete records n) verification_error) _ h4 in
    let (v, e6, h6) = >>=-eq-ok (item m (codes "ephemeral_x25519_pub")) _ h5 in
    let (t, e7, h7) = >>=-eq-ok (text_of v) _ h6 in
    let (raw, e8, h8) = >>=-eq-ok (from_hex t) _ h7 in
    let (u', e9, h9) = >>=-eq-ok (guard (length raw == 32) value_error) _ h8 in
    let (z, e10, h10) =
      >>=-eq-ok (or_value_error (s.crypto.x25519_exchange s.receiver_key raw)) _ h9 in
    (v, t, raw, z, e6, e7, e8, e10, ground (arith, h10), ground (arith, h10))

-- The key of a plan is derived from the ephemeral key in the manifest.
plan_of-key :
    (s : Setting) (tid raw : Bytes) (m : Value) (plan : Plan) (z : Bytes)
    → item m (codes "ephemeral_x25519_pub") ≡ ok (str (hex raw))
    → from_hex (hex raw) ≡ ok raw
    → s.crypto.x25519_exchange s.receiver_key raw ≡ some z
    → plan_of s tid m ≡ ok plan
    → (plan.key ≡ derive_chunk_key s.crypto z tid raw (s.crypto.x25519_public s.receiver_key))
      × (plan.transfer_id ≡ tid)
plan_of-key s tid raw m plan z e back shared h =
    let (v, t, raw', z', got, text, read, agreed, key, id) = plan_of_sound s tid m plan h in
    let same_value : v ≡ str (hex raw) = ground (arith, e, got) in
    let same_text : t ≡ hex raw = ground (arith, same_value, text) in
    let same_raw : raw' ≡ raw = ground (arith, same_text, read, back) in
    let same_z : z' ≡ z = ground (arith, same_raw, agreed, shared) in
    (rw (← same_raw, ← same_z) key, id)

-- The sender has the public half of the receiver's key, and the manifest has the public half of its
-- ephemeral key. If the receiver gets as far as a plan, the plan has the key that the sender derives
-- for the transfer. The primitives are correct.
pub plan_of-sender_key :
    (s : Setting) (p : Sending) (st : TransferState) (tid : Bytes) (m : Value) (plan : Plan)
    → IsCorrect s.crypto
    → let raw = s.crypto.x25519_public st.ephemeral_key in
      let told = record p {
        crypto = s.crypto;
        receiver_pub = s.crypto.x25519_public s.receiver_key;
      } in
      item m (codes "ephemeral_x25519_pub") ≡ ok (str (hex raw))
      → plan_of s tid m ≡ ok plan
      → (sender_key told st tid ≡ ok plan.key) × (plan.transfer_id ≡ tid)
unfolding sender_key
plan_of-sender_key s p st tid m plan correct e h =
    let raw = s.crypto.x25519_public st.ephemeral_key in
    let (z, ours, theirs) = correct.agree st.ephemeral_key s.receiver_key in
    let (key, id) =
      plan_of-key s tid raw m plan z e (from_hex-hex raw (correct.public_octets st.ephemeral_key))
        theirs h in
    (rw ours (ap ok (sym key)), id)
