-- ===== src/Transfer/Upload.antt =====
-- What a run of the sender leaves on an honest broker.
use cmpe272_finaltest_assesm.Prelude.{
  ℕ, ◌+◌, ◌*◌, ◌<◌, ◌≡◌, ap, ◌∙◌, Option, some, List, [], ◌++◌, arith, length, take, take_all,
  text_eq_refl, if◌then◌else◌,
}
use cmpe272_finaltest_assesm.Result.{Result, ok}
use cmpe272_finaltest_assesm.Bytes.{Bytes, Text, u64_mod, from_hex}
use cmpe272_finaltest_assesm.Text.{codes}
use cmpe272_finaltest_assesm.Util.{chunk_size}
use cmpe272_finaltest_assesm.Envelope.{manifest_key, signature_key}
use cmpe272_finaltest_assesm.Json.{Value, Items}
use cmpe272_finaltest_assesm.Sender.State.{
  TransferState, Sending, saved, load_or_create_state, no_state,
}
use cmpe272_finaltest_assesm.Sender.Sealing.{sender_key}
use cmpe272_finaltest_assesm.Sender.Chunks.{Client, send_chunks}
use cmpe272_finaltest_assesm.Sender.Kept.{send_file-done, send-some}
use cmpe272_finaltest_assesm.Sender.Send.{Outbox, manifest_of, upload, send}
use cmpe272_finaltest_assesm.Sender.Count.{float_mod, chunk_count, chunk_count-exact}
use cmpe272_finaltest_assesm.Transfer.Names.{
  Blob, manifest, signature, chunk, name_of, IsSmall, name_of-ne,
}
use cmpe272_finaltest_assesm.Transfer.Store.{sealed, records_from, IsRight, send_chunks_lem}
use cmpe272_finaltest_assesm.Transfer.Promise.{IsStore, IsListed}

module _ (p : Sending) (st : TransferState) (file tid key : Bytes) where
  abbrev pub total : ℕ
  total = chunk_count (length file)

  -- The manifest of the file.
  unfoldable pub sent_manifest : Value
  sent_manifest = manifest_of p st file file (records_from p.crypto key tid total file total 0)

  unfoldable pub sent_bytes : Bytes
  sent_bytes = p.dumps sent_manifest

  abbrev signed : Bytes
  signed = p.crypto.ed25519_sign p.signing_key sent_bytes

  -- The file has less than 2 ^ 53 bytes, and whatever is sent can be framed.
  pub record IsSendable : Type 0 where
    pub size_fits : length file < float_mod
    pub count_fits : total < u64_mod
    pub chunks_fit : (i : ℕ) → i < total → length (sealed p.crypto key tid total file i) < u64_mod
    pub manifest_fits : length sent_bytes < u64_mod
    pub signature_fits : length (p.crypto.ed25519_sign p.signing_key sent_bytes) < u64_mod

  module _ {R : Type 0} (client : Client R) where
    -- The steps of an upload.
    upload-steps :
        (r r1 r2 r3 : R) (already : List Text) (out : Bytes × Items)
        → from_hex st.transfer_id ≡ ok tid
        → sender_key p st tid ≡ ok key
        → client.list (st.transfer_id ++ codes "/") r ≡ (ok already, r)
        → send_chunks client already p.crypto key st.transfer_id tid total total 0 file [] r
          ≡ (ok out, r1)
        → let bs = p.dumps (manifest_of p st file out.0 out.1) in
          client.put (manifest_key st.transfer_id) bs r1 ≡ (ok tt, r2)
          → client.put (signature_key st.transfer_id) (p.crypto.ed25519_sign p.signing_key bs) r2
            ≡ (ok tt, r3)
          → upload client p st file r ≡ (ok tt, r3)
    unfolding upload
    upload-steps r r1 r2 r3 already out e0 e1 e2 e3 e4 e5 = ground (arith, e0, e1, e2, e3, e4, e5)

    module _ (find : Text → R → Option Bytes) (IsGood : R → Type 0)
        (store : IsStore client find IsGood st.transfer_id) where
      abbrev at : Blob → R → Option Bytes
      at b r = find (name_of st.transfer_id b) r

      -- What is there once the sender is done: the manifest, its signature and every chunk.
      pub record IsUploaded (r : R) : Type 0 where
        pub manifest_there : at manifest r ≡ some sent_bytes
        pub signature_there : at signature r ≡ some (p.crypto.ed25519_sign p.signing_key sent_bytes)
        pub still_good : IsGood r
        pub chunks_there :
            (i : ℕ) → i < total → at (chunk i) r ≡ some (sealed p.crypto key tid total file i)

      -- Blobs of the transfer that are there already come from an earlier run for the same file.
      abbrev pub IsOurs : R → Type 0
      IsOurs r =
          (i : ℕ) (bs : Bytes)
          → i < total
          → at (chunk i) r ≡ some bs
          → bs ≡ sealed p.crypto key tid total file i

      put_keeps :
          (b b' : Blob) (bs : Bytes) (r : R)
          → IsSmall b
          → IsSmall b'
          → length bs < u64_mod
          → IsGood r
          → (b ≡ b' → ⊥)
          → at b' (client.put (name_of st.transfer_id b) bs r).1 ≡ at b' r
      put_keeps b b' bs r h h' size good other =
          store.found b b' bs r h h' size good
          ∙ ap (λ t. if t then some bs else at b' r) (name_of-ne st.transfer_id b b' other)

      put_own :
          (b : Blob) (bs : Bytes) (r : R)
          → IsSmall b
          → length bs < u64_mod
          → IsGood r
          → at b (client.put (name_of st.transfer_id b) bs r).1 ≡ some bs
      put_own b bs r h size good =
          store.found b b bs r h h size good
          ∙ ap (λ t. if t then some bs else at b r) (text_eq_refl (name_of st.transfer_id b))

      IsRight-of :
          (r : R)
          → total < u64_mod
          → IsGood r
          → IsOurs r
          → (l : IsListed client find st.transfer_id r)
          → IsRight p.crypto key tid total file client find IsGood st.transfer_id store l.names r
      IsRight-of r fits good ours l i h old =
          let (bs, there) = l.listed_there (chunk i) (omega arith) old in
          there ∙ ap some (ours i bs h there)

      -- An upload succeeds and leaves all blobs of the transfer.
      pub upload_lem :
          (r : R)
          → IsSendable
          → IsGood r
          → from_hex st.transfer_id ≡ ok tid
          → sender_key p st tid ≡ ok key
          → IsOurs r
          → IsListed client find st.transfer_id r
          → (r' : R) × (upload client p st file r ≡ (ok tt, r')) × IsUploaded r'
      unfolding sent_manifest sent_bytes
      upload_lem r can good read derived ours l =
          let (r1, sent, holds, good1) =
            send_chunks_lem p.crypto key tid total file client find IsGood st.transfer_id store
              l.names total 0 r (omega arith) can.count_fits can.chunks_fit good
              (IsRight-of r can.count_fits good ours l) (λ i h. absurd (omega arith)) in
          let whole : take ((0 + total) * chunk_size) file ≡ file =
            take_all ((0 + total) * chunk_size) file
              (omega (arith, chunk_count-exact (length file) can.size_fits)) in
          let sig = p.crypto.ed25519_sign p.signing_key sent_bytes in
          let r2 = (client.put (manifest_key st.transfer_id) sent_bytes r1).1 in
          let good2 = store.kept_good manifest sent_bytes r1 tt can.manifest_fits good1 in
          let r3 = (client.put (signature_key st.transfer_id) sig r2).1 in
          (
            r3,
            upload-steps r r1 r2 r3 l.names (file, records_from p.crypto key tid total file total 0)
                read derived l.answered
                (sent
                  ∙ ap (λ c. (ok (c, records_from p.crypto key tid total file total 0), r1)) whole)
                (ap (λ (q : Result Unit). (q, r2))
                  (store.stored manifest sent_bytes r1 tt can.manifest_fits good1))
                (ap (λ (q : Result Unit). (q, r3))
                  (store.stored signature sig r2 tt can.signature_fits good2)),
            record {
              manifest_there =
                  put_keeps signature manifest sig r2 tt tt can.signature_fits good2 (λ e. cc)
                  ∙ put_own manifest sent_bytes r1 tt can.manifest_fits good1;
              still_good = store.kept_good signature sig r2 tt can.signature_fits good2;
              signature_there = put_own signature sig r2 tt can.signature_fits good2;
              chunks_there = λ i h.
                  put_keeps signature (chunk i) sig r2 tt (omega arith) can.signature_fits good2
                    (λ e. cc)
                  ∙ put_keeps manifest (chunk i) sent_bytes r1 tt (omega arith) can.manifest_fits
                      good1 (λ e. cc)
                  ∙ holds i (omega arith);
            },
          )

      -- A run of the sender returns 0, drops the state, and leaves all blobs of the transfer, if the
      -- broker keeps what it is given, lists only what it has, and has no chunk of another file.
      pub send-IsUploaded :
          (w : Outbox R)
          → w.file ≡ some file
          → load_or_create_state p (length file) w.state_file ≡ (ok st, saved st)
          → IsSendable
          → IsGood w.remote
          → from_hex st.transfer_id ≡ ok tid
          → sender_key p st tid ≡ ok key
          → IsOurs w.remote
          → IsListed client find st.transfer_id w.remote
          → (r' : R) × (send client p w ≡ (ok 0, record w { state_file = no_state; remote = r' }))
            × IsUploaded r'
      send-IsUploaded w there loaded can good read derived ours l =
          let (r', ran, uploaded) = upload_lem w.remote can good read derived ours l in
          (
            r',
            send-some client p w file there ∙ send_file-done client p file w st r' loaded ran,
            uploaded,
          )
