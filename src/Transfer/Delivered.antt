-- ===== src/Transfer/Delivered.antt =====
-- A run of the receiver on what a sender has signed and sealed.
use cmpe272_finaltest_assesm.Prelude.{
  ℕ, ◌+◌, ◌-◌, ◌/◌, ◌*◌, ◌<◌, ◌≡◌, refl, ap, ◌∙◌, true, none, some, List, [], arith, length,
  take_all, ◌⊎◌,
}
use cmpe272_finaltest_assesm.Result.{ok}
use cmpe272_finaltest_assesm.Bytes.{Bytes, u64_mod, hex, from_hex}
use cmpe272_finaltest_assesm.Bytes.Hex.{from_hex-hex}
use cmpe272_finaltest_assesm.Util.{chunk_size}
use cmpe272_finaltest_assesm.Envelope.{
  IsCorrect, chunk_key, manifest_key, signature_key, derive_chunk_key,
}
use cmpe272_finaltest_assesm.Json.{Value, str}
use cmpe272_finaltest_assesm.Json.Canonical.{canonical, canonical_items}
use cmpe272_finaltest_assesm.Receiver.State.{
  Files, Setting, ledger, no_progress, add_text, contains, load_ledger, load_progress,
  save_progress,
}
use cmpe272_finaltest_assesm.Receiver.Manifest.{
  Plan, Records, find_record, resolve_transfer_id, plan_of,
}
use cmpe272_finaltest_assesm.Receiver.Opening.{open_chunk}
use cmpe272_finaltest_assesm.Receiver.Chunks.{chunk_loop}
use cmpe272_finaltest_assesm.Receiver.Receive.{receive}
use cmpe272_finaltest_assesm.Receiver.Loop.{Same}
use cmpe272_finaltest_assesm.Receiver.Authentic.{IsFresh}
use cmpe272_finaltest_assesm.Sender.State.{TransferState, Sending}
use cmpe272_finaltest_assesm.Sender.Sealing.{sender_key}
use cmpe272_finaltest_assesm.Sender.Sealed.{open_chunk-ok}
use cmpe272_finaltest_assesm.Sender.Count.{float_mod, chunk_count, chunk_count-exact}
use cmpe272_finaltest_assesm.Transfer.Store.{piece, sealed, records_from}
use cmpe272_finaltest_assesm.Transfer.Upload.{sent_manifest, sent_bytes}
use cmpe272_finaltest_assesm.Transfer.Records.{
  read_record, read_record-digest, read_record-size, records_lem,
}
use cmpe272_finaltest_assesm.Transfer.Download.{chunk_loop-whole}
use cmpe272_finaltest_assesm.Transfer.Reading.{
  Reads, canonical-Reads, fetch_verified_manifest-ok, plan_of-ok,
}
use cmpe272_finaltest_assesm.Transfer.Steps.{
  told, paired, receive-steps, receive_file-steps, verify_whole-ok, completed,
}

module _ (p : Sending) (s : Setting) (st : TransferState) (file tid key : Bytes) where
  abbrev count : ℕ
  count = chunk_count (length file)

  abbrev plan_with : Records → Plan
  plan_with records = record {
    total_chunks = count;
    records = records;
    transfer_id = tid;
    key = key;
  }

  abbrev read_manifest : Value
  read_manifest = canonical (sent_manifest (told p s) st file tid key)

  -- The records of the manifest, for each chunk.
  abbrev Knows : Records → Type 0
  Knows records =
      (i : ℕ) → i < count → find_record i records ≡ some (read_record p.crypto key tid count file i)

  reads :
      Reads read_manifest st.transfer_id st.created_at
        (length file)
        count
        (hex (p.crypto.sha256 file))
        (hex (p.crypto.x25519_public st.ephemeral_key))
        p.file_name
        (canonical_items (records_from p.crypto key tid count file count 0))
  unfolding sent_manifest
  reads = canonical-Reads (told p s) st file file (records_from p.crypto key tid count file count 0)

  -- The plan that the receiver makes is the sender's.
  plan_lem :
      IsCorrect p.crypto
      → sender_key (told p s) st tid ≡ ok key
      → (records : Records) × (plan_of (paired p s) tid read_manifest ≡ ok (plan_with records))
        × Knows records
  unfolding sender_key
  plan_lem correct derived =
      let raw = p.crypto.x25519_public st.ephemeral_key in
      let (z, ours, theirs) = correct.agree st.ephemeral_key s.receiver_key in
      let (records, indexed, complete, known) = records_lem p.crypto key tid count file in
      let k = derive_chunk_key p.crypto z tid raw (p.crypto.x25519_public s.receiver_key) in
      let same : k ≡ key = ground (arith, ours, derived) in
      (
        records,
        plan_of-ok (paired p s) st.transfer_id read_manifest reads tid raw z records indexed
              complete refl (from_hex-hex raw (correct.public_octets st.ephemeral_key))
              (correct.public_size st.ephemeral_key) theirs
            ∙ ap (λ q. ok (record (plan_with records) { key = q })) same,
        known,
      )

  -- What the broker has for the receiver, and what `json.loads` makes of it.
  pub record IsServed : Type 0 where
    pub parsed :
        s.loads (sent_bytes (told p s) st file tid key)
        ≡ ok (canonical (sent_manifest (told p s) st file tid key))
    pub manifest_served :
        s.broker_get (manifest_key st.transfer_id)
        ≡ ok (some (sent_bytes (told p s) st file tid key))
    pub signature_served :
        s.broker_get (signature_key st.transfer_id)
        ≡ ok (some (p.crypto.ed25519_sign p.signing_key (sent_bytes (told p s) st file tid key)))
    pub chunks_served :
        (i : ℕ)
        → i < count
        → s.broker_get (chunk_key st.transfer_id i)
          ≡ ok (some (sealed p.crypto key tid (count) file i))

  -- Every chunk opens.
  opens :
      (records : Records)
      → IsCorrect p.crypto
      → count < u64_mod
      → IsServed
      → Knows records
      → (i : ℕ) → i < count
      → open_chunk (paired p s) st.transfer_id (plan_with records) i ≡ ok (piece file i)
  unfolding sealed
  opens records correct fits served known i h =
      open_chunk-ok (paired p s) st.transfer_id (plan_with records) i (piece file i)
        (read_record p.crypto key tid count file i) correct (omega arith) fits (known i h)
        (read_record-digest p.crypto key tid count file i)
        (read_record-size p.crypto key tid count file i) (served.chunks_served i h)

  -- The loop makes the file.
  downloaded :
      (f : Files) (records : Records)
      → IsCorrect p.crypto
      → length file < float_mod
      → count < u64_mod
      → IsServed
      → Knows records
      → (done : List ℕ) × (f1 : Files) × (chunk_loop
            (paired p s)
            st.transfer_id
            (plan_with records)
            count
            0
            []
            (record f { part = some [] })
          ≡ (ok done, f1))
        × (f1.part ≡ some file)
        × Same f f1
  downloaded f records correct exact fits served known =
      let chunks : 0 + count ≡ (length file + (chunk_size - 1)) / chunk_size =
        omega (arith, chunk_count-exact (length file) exact) in
      let (done, f1, ran, held, same) =
        chunk_loop-whole (paired p s) st.transfer_id (plan_with records) file count 0 []
          (record f { part = some [] }) chunks
          (λ i h. opens records correct fits served known i (omega arith))
          (λ i h. unfold contains in refl) refl in
      (done, f1, ran, held ∙ ap some (take_all ((0 + count) * chunk_size) file (omega arith)), same)

  -- The run delivers the file.
  pub receive_lem :
      (f : Files)
      → IsCorrect p.crypto
      → sender_key (told p s) st tid ≡ ok key
      → length file < float_mod
      → count < u64_mod
      → from_hex st.transfer_id ≡ ok tid
      → resolve_transfer_id (paired p s) ≡ ok st.transfer_id
      → ((s.allow_redeliver ≡ true)
          ⊎ IsFresh (paired p s) st.transfer_id (load_ledger f.ledger_file) st.created_at)
      → load_progress f.progress_file st.transfer_id ≡ []
      → IsServed
      → ((receive (paired p s) f).0 ≡ ok 0)
        × ((receive (paired p s) f).1 ≡ record {
          part = none;
          progress_file = no_progress;
          out = some file;
          ledger_file = ledger (add_text st.transfer_id (load_ledger f.ledger_file));
        })
  receive_lem f correct derived exact fits read resolved fresh clean served =
      let (records, planned, known) = plan_lem correct derived in
      let id = st.transfer_id in
      let plan = plan_with records in
      let checked =
        fetch_verified_manifest-ok (paired p s) id read_manifest reads (load_ledger f.ledger_file)
          (sent_bytes (told p s) st file tid key)
          (p.crypto.ed25519_sign p.signing_key (sent_bytes (told p s) st file tid key))
          served.manifest_served served.signature_served
          (correct.signs p.signing_key (sent_bytes (told p s) st file tid key)) served.parsed
          fresh in
      let (done, f1, ran, whole, same) = downloaded f records correct exact fits served known in
      let f2 = save_progress id done f1 in
      let verified =
        verify_whole-ok (paired p s) f2 id tid read_manifest plan file
          (unfold save_progress in whole) reads.sized reads.plaintext_sha256 in
      let ran_all =
        receive-steps (paired p s) f id tid read_manifest plan resolved read checked planned
        ∙ receive_file-steps (paired p s) f id tid read_manifest plan (str p.file_name) done f1
            clean ran verified reads.filename in
      (
        ap (λ q. q.0) ran_all,
        ap (λ q. q.1) ran_all
            ∙ completed id file f2 f.ledger_file (unfold save_progress in whole)
                (unfold save_progress in same.1),
      )
