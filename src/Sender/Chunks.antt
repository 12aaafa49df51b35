-- ===== src/Sender/Chunks.antt =====
-- The loop of `send` over the chunks: read, encrypt, record, and upload what is missing.
use cmpe272_finaltest_assesm.Prelude.{ℕ, zero, suc, ◌+◌, List, ◌++◌, take, drop, if◌then◌else◌}
use cmpe272_finaltest_assesm.Exec.{Exec, pure, lift, ◌>>=◌, ◌>>◌}
use cmpe272_finaltest_assesm.Bytes.{Bytes, Text}
use cmpe272_finaltest_assesm.Util.{chunk_size}
use cmpe272_finaltest_assesm.Envelope.{Crypto, chunk_key}
use cmpe272_finaltest_assesm.Json.{Items, nil, cons}
use cmpe272_finaltest_assesm.Receiver.State.{contains_text}
use cmpe272_finaltest_assesm.Sender.Sealing.{seal_chunk}

-- What the sender uses of a broker client, on the state `R` of whatever is behind it.
pub record Client (R : Type 0) : Type 0 where
  pub put : Text → Bytes → Exec R Unit
  pub list : Text → Exec R (List Text)

module _ {R : Type 0} (client : Client R) (already : List Text) where
  -- A blob that the broker already has is not sent again.
  unfoldable pub put_missing : Text → Bytes → Exec R Unit
  put_missing name ct = if contains_text already name then pure tt else client.put name ct

  module _ (c : Crypto) (key : Bytes) (id : Text) (transfer_id : Bytes) (total : ℕ) where
    -- `for index in range(total_chunks)`, with `rounds` rounds and `rest` of the file left; returns
    -- the records, and what the hash of the plaintext was fed.
    unfoldable pub send_chunks : ℕ → ℕ → Bytes → Bytes → Exec R (Bytes × Items)
    send_chunks zero index rest h = pure (h, nil)
    send_chunks (suc rounds) index rest h = do
      let plain = take chunk_size rest
      sealed ← lift (seal_chunk c key transfer_id total index plain)
      put_missing (chunk_key id index) sealed.0
      later ← send_chunks rounds (index + 1) (drop chunk_size rest) (h ++ plain)
      pure (later.0, cons sealed.1 later.1)
