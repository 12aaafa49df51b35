-- ===== src/Transfer/EndToEnd.antt =====
-- From the sender, over a broker that keeps what it is given, to the receiver.
use cmpe272_finaltest_assesm.Prelude.{
  ◌<◌, ◌≡◌, ap, ◌∙◌, true, Option, none, some, [], arith, length, ◌⊎◌,
}
use cmpe272_finaltest_assesm.Result.{ok}
use cmpe272_finaltest_assesm.Bytes.{Bytes, Text, u64_mod, from_hex}
use cmpe272_finaltest_assesm.Envelope.{IsCorrect}
use cmpe272_finaltest_assesm.Json.Canonical.{canonical}
use cmpe272_finaltest_assesm.Receiver.State.{
  Files, Setting, ledger, no_progress, add_text, load_ledger, load_progress,
}
use cmpe272_finaltest_assesm.Receiver.Manifest.{resolve_transfer_id}
use cmpe272_finaltest_assesm.Receiver.Receive.{receive}
use cmpe272_finaltest_assesm.Receiver.Authentic.{IsFresh}
use cmpe272_finaltest_assesm.Sender.State.{TransferState, Sending, saved, load_or_create_state}
use cmpe272_finaltest_assesm.Sender.Sealing.{sender_key}
use cmpe272_finaltest_assesm.Sender.Chunks.{Client}
use cmpe272_finaltest_assesm.Sender.Send.{Outbox, send}
use cmpe272_finaltest_assesm.Sender.Count.{chunk_count}
use cmpe272_finaltest_assesm.Transfer.Names.{Blob, manifest, signature, chunk, name_of, IsSmall}
use cmpe272_finaltest_assesm.Transfer.Promise.{IsStore, IsListed}
use cmpe272_finaltest_assesm.Transfer.Upload.{
  sent_manifest, sent_bytes, IsSendable, IsUploaded, IsOurs, send-IsUploaded,
}
use cmpe272_finaltest_assesm.Transfer.Delivered.{IsServed, receive_lem}
use cmpe272_finaltest_assesm.Transfer.Steps.{told, paired}

module _ {R : Type 0} (client : Client R) (find : Text → R → Option Bytes) (p : Sending)
    (s : Setting) (st : TransferState) (file tid key : Bytes) (IsGood : R → Type 0)
    (store : IsStore client find IsGood st.transfer_id) where
  -- The sender has a state for the file, with which it works, and no foreign blobs are in its way.
  pub record CanSend (w : Outbox R) : Type 0 where
    pub there : w.file ≡ some file
    pub loaded : load_or_create_state (told p s) (length file) w.state_file ≡ (ok st, saved st)
    pub can : IsSendable (told p s) st file tid key
    pub good : IsGood w.remote
    pub id_read : from_hex st.transfer_id ≡ ok tid
    pub derived : sender_key (told p s) st tid ≡ ok key
    pub ours : IsOurs (told p s) st file tid key client find IsGood store w.remote
    pub listing : IsListed client find st.transfer_id w.remote

  -- The receiver wants this transfer, for the first time and in time, and has no part of it; the broker
  -- answers it with what is stored, and `json.loads` reads what `json.dumps` printed, its keys sorted.
  pub record CanReceive (r : R) (f : Files) : Type 0 where
    pub resolved : resolve_transfer_id (paired p s) ≡ ok st.transfer_id
    pub fresh :
        (s.allow_redeliver ≡ true)
        ⊎ IsFresh (paired p s) st.transfer_id (load_ledger f.ledger_file) st.created_at
    pub clean : load_progress f.progress_file st.transfer_id ≡ []
    pub answers :
        (b : Blob)
        → IsSmall b
        → s.broker_get (name_of st.transfer_id b) ≡ ok (find (name_of st.transfer_id b) r)
    pub parses :
        s.loads (sent_bytes (told p s) st file tid key)
        ≡ ok (canonical (sent_manifest (told p s) st file tid key))

  served :
      (r : R) (f : Files)
      → chunk_count (length file) < u64_mod
      → IsUploaded (told p s) st file tid key client find IsGood store r
      → CanReceive r f
      → IsServed p s st file tid key
  served r f fits up c = record {
    parsed = c.parses;
    manifest_served = c.answers manifest tt ∙ ap ok up.manifest_there;
    signature_served = c.answers signature tt ∙ ap ok up.signature_there;
    chunks_served = λ i h. c.answers (chunk i) (omega arith) ∙ ap ok (up.chunks_there i h);
  }

  -- The file has less than 2 ^ 53 bytes, the primitives are correct, each side has the public key of the other, and the broker keeps what it
  -- is given. The sender runs, from the start or after an interrupted run for the same file; then the
  -- receiver, with no part of the transfer. Both return 0, the final name holds exactly the file, the
  -- partial file and the progress are gone, and the id is in the ledger.
  pub receive-send :
      (w : Outbox R) (f : Files)
      → IsCorrect p.crypto
      → CanSend w
      → CanReceive (send client (told p s) w).1.remote f
      → ((send client (told p s) w).0 ≡ ok 0)
        × ((receive (paired p s) f).0 ≡ ok 0)
        × ((receive (paired p s) f).1 ≡ record {
          part = none;
          progress_file = no_progress;
          out = some file;
          ledger_file = ledger (add_text st.transfer_id (load_ledger f.ledger_file));
        })
  receive-send w f correct cs cr =
      let (r', ran, up) =
        send-IsUploaded (told p s) st file tid key client find IsGood store w cs.there cs.loaded
          cs.can cs.good cs.id_read cs.derived cs.ours cs.listing in
      let cr' : CanReceive r' f = rw ran at cr in
      let (done, left) =
        receive_lem p s st file tid key f correct cs.derived cs.can.size_fits cs.can.count_fits
          cs.id_read cr.resolved cr.fresh cr.clean (served r' f cs.can.count_fits up cr') in
      (ap (λ q. q.0) ran, done, left)
