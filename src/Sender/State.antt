-- ===== src/Sender/State.antt =====
-- The state file of a transfer: `_load_or_create_state` of sender.py.
use cmpe272_finaltest_assesm.Prelude.{ℕ, ◌==◌, if◌then◌else◌}
use cmpe272_finaltest_assesm.Result.{ok, err, value_error}
use cmpe272_finaltest_assesm.Exec.{Exec}
use cmpe272_finaltest_assesm.Bytes.{Bytes, Text, hex}
use cmpe272_finaltest_assesm.Envelope.{Crypto}
use cmpe272_finaltest_assesm.Json.{Value}

-- The ephemeral key stands for its PEM text.
pub record TransferState : Type 0 where
  pub transfer_id : Text
  pub created_at : ℕ
  pub file_size : ℕ
  pub ephemeral_key : Bytes

-- `damaged_state` does not parse as JSON.
pub data StateFile : Type 0 where
  no_state damaged_state : StateFile
  saved : TransferState → StateFile

-- What a run is given: the primitives, the JSON printer, the two keys, the name of the file, the time,
-- the random transfer id and the random key that a new transfer would take.
pub record Sending : Type 0 where
  pub crypto : Crypto
  pub dumps : Value → Bytes
  pub signing_key : Bytes
  pub receiver_pub : Bytes
  pub file_name : Text
  pub now : ℕ
  pub random_id : Bytes
  pub random_key : Bytes

abbrev pub new_state : Sending → ℕ → TransferState
new_state p size = record {
  transfer_id = hex p.random_id;
  created_at = p.now;
  file_size = size;
  ephemeral_key = p.random_key;
}

-- The state is taken up again if the size of the file is the one in it.
unfoldable pub load_or_create_state : Sending → ℕ → Exec StateFile TransferState
load_or_create_state p size no_state = (ok (new_state p size), saved (new_state p size))
load_or_create_state p size damaged_state = (err value_error, damaged_state)
load_or_create_state p size (saved st) =
    if st.file_size == size
    then (ok st, saved st)
    else (ok (new_state p size), saved (new_state p size))
