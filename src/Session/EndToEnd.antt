-- ===== src/Session/EndToEnd.antt =====
-- From sender.py through broker_client.py and broker.py to receiver.py, with every byte between them.
use cmpe272_finaltest_assesm.Prelude.{ℕ, ◌<◌, ◌≡◌, true, some, [], ◌++◌, length, ◌⊎◌}
use cmpe272_finaltest_assesm.Result.{ok}
use cmpe272_finaltest_assesm.Bytes.{Bytes, u64_mod, from_hex}
use cmpe272_finaltest_assesm.Text.{codes}
use cmpe272_finaltest_assesm.Json.Canonical.{canonical}
use cmpe272_finaltest_assesm.Broker.Storage.{Storage, list_keys}
use cmpe272_finaltest_assesm.Broker.Command.{Codec, join_lines}
use cmpe272_finaltest_assesm.Broker.Blobs.{blob}
use cmpe272_finaltest_assesm.Client.{get_request, parse_get}
use cmpe272_finaltest_assesm.Receiver.State.{Files, Setting, load_ledger, load_progress}
use cmpe272_finaltest_assesm.Receiver.Manifest.{resolve_transfer_id}
use cmpe272_finaltest_assesm.Receiver.Authentic.{IsFresh}
use cmpe272_finaltest_assesm.Sender.State.{TransferState, Sending, saved, load_or_create_state}
use cmpe272_finaltest_assesm.Sender.Sealing.{sender_key}
use cmpe272_finaltest_assesm.Sender.Send.{Outbox}
use cmpe272_finaltest_assesm.Transfer.Keys.{IsTransferId}
use cmpe272_finaltest_assesm.Transfer.Upload.{sent_manifest, sent_bytes, IsSendable, IsOurs}
use cmpe272_finaltest_assesm.Transfer.Steps.{told, paired}
use cmpe272_finaltest_assesm.Session.{call}
use cmpe272_finaltest_assesm.Session.Honest.{over_wire, over_wire-IsStore}
use cmpe272_finaltest_assesm.Session.Tidy.{IsUtf8, IsTidy}

-- The receiver asks the broker over the wire, which has this storage.
abbrev pub asking : Codec → (ℕ → Bytes → ℕ) → (ℕ → Bytes → ℕ) → Storage → Setting → Setting
asking c grant grant' fs s = record s {
  broker_get = λ key. (call c grant grant' (get_request c key) (parse_get c) fs).0;
}

module _ (c : Codec) (grant grant' : ℕ → Bytes → ℕ) (p : Sending) (s : Setting) (st : TransferState)
    (file tid key : Bytes) (utf8 : IsUtf8 c) (legal : IsTransferId st.transfer_id) where
  -- What the sender starts from: a state for the file, and a broker without foreign chunks.
  pub record Ready (w : Outbox Storage) : Type 0 where
    pub there : w.file ≡ some file
    pub loaded : load_or_create_state (told p s) (length file) w.state_file ≡ (ok st, saved st)
    pub can : IsSendable (told p s) st file tid key
    pub tidy : IsTidy w.remote
    pub listable : length (join_lines (list_keys (st.transfer_id ++ codes "/") w.remote)) < u64_mod
    pub id_read : from_hex st.transfer_id ≡ ok tid
    pub derived : sender_key (told p s) st tid ≡ ok key
    pub ours :
        IsOurs
          (told p s)
          st
          file
          tid
          key
          (over_wire c grant grant')
          blob
          IsTidy
          (over_wire-IsStore c utf8 st.transfer_id legal grant grant')
          w.remote

  -- What the receiver starts from: no part of the transfer, which it wants, and which is fresh.
  pub record Wanted (s' : Setting) (f : Files) : Type 0 where
    pub resolved : resolve_transfer_id (paired p s') ≡ ok st.transfer_id
    pub fresh :
        (s'.allow_redeliver ≡ true)
        ⊎ IsFresh (paired p s') st.transfer_id (load_ledger f.ledger_file) st.created_at
    pub clean : load_progress f.progress_file st.transfer_id ≡ []
    pub parses :
        s'.loads (sent_bytes (told p s) st file tid key)
        ≡ ok (canonical (sent_manifest (told p s) st file tid key))
