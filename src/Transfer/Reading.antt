-- ===== src/Transfer/Reading.antt =====
-- What the receiver reads from the manifest that a sender has signed.
use cmpe272_finaltest_assesm.Prelude.{
  ℕ, ◌≡◌, refl, true, some, List, [], length, text_eq_refl, ◌⊎◌, inl, inr, arith, le→leb,
  if◌then◌else◌,
}
use cmpe272_finaltest_assesm.Result.{ok}
use cmpe272_finaltest_assesm.Bytes.{Bytes, Text, hex, from_hex}
use cmpe272_finaltest_assesm.Text.{codes, text_le}
use cmpe272_finaltest_assesm.Envelope.{
  manifest_version, manifest_key, signature_key, derive_chunk_key,
}
use cmpe272_finaltest_assesm.Json.{
  Value, Items, num, str, arr, get, item, find_field, is_text, as_int, elements,
}
use cmpe272_finaltest_assesm.Json.Canonical.{
  canonical, canonical_items, sorted_fields, insert_field,
}
use cmpe272_finaltest_assesm.Receiver.State.{Setting}
use cmpe272_finaltest_assesm.Receiver.Manifest.{
  Records, index_records, is_complete, to_int, check_fresh, fetch_signed, fetch_verified_manifest,
  plan_of,
}
use cmpe272_finaltest_assesm.Receiver.Authentic.{IsFresh}
use cmpe272_finaltest_assesm.Sender.State.{TransferState, Sending}
use cmpe272_finaltest_assesm.Sender.Send.{manifest_of}
use cmpe272_finaltest_assesm.Sender.Count.{chunk_count}

-- A document with the members that the receiver reads.
pub record Reads (m : Value) (id : Text) (created_at size total : ℕ) (digest ephemeral name : Text)
    (chunks : Items) : Type 0 where
  pub version : get m (codes "version") ≡ ok (some (str manifest_version))
  pub transfer_id : get m (codes "transfer_id") ≡ ok (some (str id))
  pub dated : item m (codes "created_at") ≡ ok (num created_at)
  pub sized : item m (codes "file_size") ≡ ok (num size)
  pub total_chunks : item m (codes "total_chunks") ≡ ok (num total)
  pub plaintext_sha256 : item m (codes "plaintext_sha256") ≡ ok (str digest)
  pub ephemeral_pub : item m (codes "ephemeral_x25519_pub") ≡ ok (str ephemeral)
  pub filename : item m (codes "filename") ≡ ok (str name)
  pub listed : item m (codes "chunks") ≡ ok (arr chunks)

pub canonical-Reads :
    (p : Sending) (st : TransferState) (file h : Bytes) (records : Items)
    → Reads
        (canonical (manifest_of p st file h records))
        st.transfer_id
        st.created_at
        (length file)
        (chunk_count (length file))
        (hex (p.crypto.sha256 h))
        (hex (p.crypto.x25519_public st.ephemeral_key))
        p.file_name
        (canonical_items records)
unfolding canonical sorted_fields insert_field text_le get item find_field
canonical-Reads p st file h records = record {
  version = refl;
  transfer_id = refl;
  dated = refl;
  sized = refl;
  total_chunks = refl;
  plaintext_sha256 = refl;
  ephemeral_pub = refl;
  filename = refl;
  listed = refl;
}

module _ (s : Setting) (id : Text) (m : Value) {created_at size total : ℕ}
    {digest ephemeral name : Text} {chunks : Items}
    (reads : Reads m id created_at size total digest ephemeral name chunks) where
  fetch_signed-ok :
      (mb sig : Bytes)
      → s.broker_get (manifest_key id) ≡ ok (some mb)
      → s.broker_get (signature_key id) ≡ ok (some sig)
      → s.crypto.ed25519_verify s.verify_key sig mb ≡ true
      → fetch_signed s id ≡ ok mb
  unfolding fetch_signed
  fetch_signed-ok mb sig got got_sig signed = rw (got, got_sig, signed) refl

  check_fresh-ok :
      (seen : List Text) → IsFresh s id seen created_at → check_fresh s id seen created_at ≡ ok tt
  unfolding check_fresh
  check_fresh-ok seen x =
      rw (le→leb s.now _ x.not_old, le→leb created_at _ x.not_future, x.not_seen) refl

  may_deliver :
      (seen : List Text)
      → ((s.allow_redeliver ≡ true) ⊎ IsFresh s id seen created_at)
      → (if s.allow_redeliver then ok tt else check_fresh s id seen created_at) ≡ ok tt
  may_deliver seen (inl allowed) = rw allowed refl
  may_deliver seen (inr fresh) = ground (arith, check_fresh-ok seen fresh)

  -- A signed document with these members passes all checks.
  pub fetch_verified_manifest-ok :
      (seen : List Text) (mb sig : Bytes)
      → s.broker_get (manifest_key id) ≡ ok (some mb)
      → s.broker_get (signature_key id) ≡ ok (some sig)
      → s.crypto.ed25519_verify s.verify_key sig mb ≡ true
      → s.loads mb ≡ ok m
      → ((s.allow_redeliver ≡ true) ⊎ IsFresh s id seen created_at)
      → fetch_verified_manifest s id seen ≡ ok m
  unfolding fetch_verified_manifest is_text to_int as_int
  fetch_verified_manifest-ok seen mb sig got got_sig signed parsed fresh =
      rw
        (
          fetch_signed-ok mb sig got got_sig signed,
          parsed,
          reads.version,
          reads.transfer_id,
          text_eq_refl id,
          reads.dated,
          may_deliver seen fresh,
          reads.total_chunks,
          reads.sized,
        )
        refl

  -- And gives a plan.
  pub plan_of-ok :
      (tid raw z : Bytes) (records : Records)
      → index_records chunks [] ≡ ok records
      → is_complete records total ≡ true
      → ephemeral ≡ hex raw
      → from_hex (hex raw) ≡ ok raw
      → length raw ≡ 32
      → s.crypto.x25519_exchange s.receiver_key raw ≡ some z
      → plan_of s tid m
        ≡ ok (record {
          total_chunks = total;
          records = records;
          transfer_id = tid;
          key = derive_chunk_key s.crypto z tid raw (s.crypto.x25519_public s.receiver_key);
        })
  unfolding plan_of elements as_int
  plan_of-ok tid raw z records indexed complete same back size shared =
      rw
        (
          reads.total_chunks, reads.listed, indexed, complete, reads.ephemeral_pub, same, back,
          size, shared,
        )
        refl
