-- ===== src/Sender/Send.antt =====
-- `send` and the exit code of `main`, of sender.py.
use cmpe272_finaltest_assesm.Prelude.{ℕ, [], ◌++◌, Option, none, some, length}
use cmpe272_finaltest_assesm.Result.{Result, ok, err, broker_error}
use cmpe272_finaltest_assesm.Exec.{Exec, pure, lift, modify, ◌>>=◌, ◌>>◌}
use cmpe272_finaltest_assesm.Bytes.{Bytes, hex, from_hex}
use cmpe272_finaltest_assesm.Text.{codes}
use cmpe272_finaltest_assesm.Util.{chunk_size}
use cmpe272_finaltest_assesm.Envelope.{manifest_version, manifest_key, signature_key}
use cmpe272_finaltest_assesm.Json.{Value, Items, num, str, arr, obj, end, field}
use cmpe272_finaltest_assesm.Sender.Sealing.{sender_key}
use cmpe272_finaltest_assesm.Sender.State.{
  TransferState, StateFile, no_state, Sending, load_or_create_state,
}
use cmpe272_finaltest_assesm.Sender.Chunks.{Client, send_chunks}
use cmpe272_finaltest_assesm.Sender.Count.{chunk_count}

-- The file to send, the state file, and what is behind the client.
pub record Outbox (R : Type 0) : Type 0 where
  pub file : Option Bytes
  pub state_file : StateFile
  pub remote : R

abbrev pub manifest_of : Sending → TransferState → Bytes → Bytes → Items → Value
manifest_of p st file h records = obj (
    field (codes "version") (str manifest_version) (
      field (codes "transfer_id") (str st.transfer_id) (
        field (codes "created_at") (num st.created_at) (
          field (codes "filename") (str p.file_name) (
            field (codes "file_size") (num (length file)) (
              field (codes "chunk_size") (num chunk_size) (
                field (codes "total_chunks") (num (chunk_count (length file))) (
                  field (codes "cipher") (str (codes "ChaCha20-Poly1305")) (
                    field (codes "kdf") (str (codes "HKDF-SHA256")) (
                      field (codes "signature_alg") (str (codes "Ed25519")) (
                        field (codes "ephemeral_x25519_pub")
                          (str (hex (p.crypto.x25519_public st.ephemeral_key)))
                          (field (codes "plaintext_sha256") (str (hex (p.crypto.sha256 h)))
                            (field (codes "chunks") (arr records) end)))))))))))))

module _ {R : Type 0} where
  abbrev pub on_remote : {A : Type 0} → Exec R A → Exec (Outbox R) A
  on_remote m w = let (r, remote') = m w.remote in (r, record w { remote = remote' })

  abbrev pub on_state : {A : Type 0} → Exec StateFile A → Exec (Outbox R) A
  on_state m w = let (r, f) = m w.state_file in (r, record w { state_file = f })

  abbrev pub drop_state : Outbox R → Outbox R
  drop_state w = record w { state_file = no_state }

  module _ (client : Client R) (p : Sending) where
    -- Everything that talks to the broker.
    unfoldable pub upload : TransferState → Bytes → Exec R Unit
    upload st file = do
      transfer_id ← lift (from_hex st.transfer_id)
      key ← lift (sender_key p st transfer_id)
      already ← client.list (st.transfer_id ++ codes "/")
      let total = chunk_count (length file)
      sent ←
          send_chunks client already p.crypto key st.transfer_id transfer_id total total 0 file []
      let manifest_bytes = p.dumps (manifest_of p st file sent.0 sent.1)
      client.put (manifest_key st.transfer_id) manifest_bytes
      client.put (signature_key st.transfer_id) (p.crypto.ed25519_sign p.signing_key manifest_bytes)

    unfoldable pub send_file : Bytes → Exec (Outbox R) ℕ
    send_file file = do
      st ← on_state (load_or_create_state p (length file))
      on_remote (upload st file)
      modify drop_state
      pure 0

    unfoldable pub send : Exec (Outbox R) ℕ
    send w = elim w.file [ none ↦ (ok 1, w) | some file ↦ send_file file w ]

-- The `except` clause of `main`.
unfoldable pub exit_code : Result ℕ → Result ℕ
exit_code (ok code) = ok code
exit_code (err broker_error) = ok 1
exit_code (err e) = err e
