-- ===== src/Sender/Kept.antt =====
-- The state file over a run of the sender: it is dropped on success, and kept otherwise.
use cmpe272_finaltest_assesm.Prelude.{ℕ, ◌≡◌, ◌≢◌, none, some, arith, length, ◌⊎◌}
use cmpe272_finaltest_assesm.Result.{Result, ok, err, value_error}
use cmpe272_finaltest_assesm.Bytes.{Bytes}
use cmpe272_finaltest_assesm.Sender.State.{
  TransferState, StateFile, no_state, damaged_state, saved, Sending, load_or_create_state,
  new_state,
}
use cmpe272_finaltest_assesm.Sender.Chunks.{Client}
use cmpe272_finaltest_assesm.Sender.Send.{Outbox, upload, send_file, send}

-- What a state is for: the same size of file finds it again, whatever time, random bytes and keys a
-- later run is given.
abbrev pub IsKept : TransferState → StateFile → ℕ → Type 0
IsKept st f size = (p : Sending) → load_or_create_state p size f ≡ (ok st, saved st)

module _ {R : Type 0} (client : Client R) (p : Sending) where
  -- A run that returns 0 and drops the state; one that has no file, or whose state file is damaged, and
  -- changes nothing; or one that fails later, and leaves the state that it worked with, the one found or
  -- a new one, so that each later run for a file of this size takes that up again.
  pub data Leaves (w : Outbox R) (o : Result ℕ × Outbox R) : Type 0 where
    finished : o.0 ≡ ok 0 → o.1.state_file ≡ no_state → Leaves w o
    no_file : w.file ≡ none → o.0 ≡ ok 1 → o.1 ≡ w → Leaves w o
    damaged : w.state_file ≡ damaged_state → o.0 ≡ err value_error → o.1 ≡ w → Leaves w o
    kept :
        (st : TransferState) (file : Bytes)
        → o.0 ≢ ok 0
        → w.file ≡ some file
        → load_or_create_state p (length file) w.state_file ≡ (ok st, saved st)
        → (w.state_file ≡ saved st) ⊎ (st ≡ new_state p (length file))
        → o.1.state_file ≡ saved st
        → IsKept st o.1.state_file (length file)
        → Leaves w o

  module _ (file : Bytes) (w : Outbox R) where
    module _ (st : TransferState) (r' : R)
        (loaded : load_or_create_state p (length file) w.state_file ≡ (ok st, saved st)) where
      pub send_file-done :
          upload client p st file w.remote ≡ (ok tt, r')
          → send_file client p file w ≡ (ok 0, record w { state_file = no_state; remote = r' })
      unfolding send_file
      send_file-done h = ground (arith, loaded, h)

  pub send-some :
      (w : Outbox R) (file : Bytes)
      → w.file ≡ some file
      → send client p w ≡ send_file client p file w
  unfolding send
  send-some w file e = ground (arith, e)
