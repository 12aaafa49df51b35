-- ===== src/Receiver/Receive.antt =====
-- `receive` and the exit code of `main`, of receiver.py.
use cmpe272_finaltest_assesm.Prelude.{
  ℕ, Bool, true, false, Option, none, some, List, [], ◌∷◌, length, if◌then◌else◌,
}
use cmpe272_finaltest_assesm.Result.{Result, ok, err, broker_error, verification_error}
use cmpe272_finaltest_assesm.Exec.{Exec, pure, raise, lift, gets, modify, ◌>>=◌, ◌>>◌}
use cmpe272_finaltest_assesm.Bytes.{Bytes, Text, from_hex}
use cmpe272_finaltest_assesm.Text.{codes}
use cmpe272_finaltest_assesm.Util.{sha256_file}
use cmpe272_finaltest_assesm.Json.{Value, item, is_text, is_int}
use cmpe272_finaltest_assesm.Receiver.State.{
  Files, Setting, no_progress, load_ledger, load_progress, save_progress, record_completed,
}
use cmpe272_finaltest_assesm.Receiver.Manifest.{
  Plan, resolve_transfer_id, fetch_verified_manifest, plan_of,
}
use cmpe272_finaltest_assesm.Receiver.Chunks.{content, chunk_loop}

abbrev pub exists : Option Bytes → Bool
exists none = false
exists (some c) = true

abbrev pub is_empty : List ℕ → Bool
is_empty [] = true
is_empty (i ∷ l) = false

-- The indices to resume from: without the data there are none.
abbrev pub resumable : Option Bytes → List ℕ → List ℕ
resumable none done = []
resumable (some c) done = done

-- A partial file without progress is discarded, and a missing one is made.
abbrev pub prepared : Option Bytes → List ℕ → Bytes
prepared part done = if is_empty done then [] else content part

unfoldable pub resume : Text → Exec Files (List ℕ)
resume id f =
    let done = resumable f.part (load_progress f.progress_file id) in
    (ok done, record f { part = some (prepared f.part done) })

-- `atomic_promote`, and the removal of the progress file
unfoldable pub promote : Files → Files
promote f = record f { part = none; out = f.part; progress_file = no_progress }

module _ (s : Setting) where
  -- The whole file against the signed manifest.
  unfoldable pub verify_whole : Value → Exec Files Unit
  verify_whole manifest = do
    whole ← gets (λ f. content f.part)
    actual ← lift (sha256_file s.crypto.sha256 whole none)
    size ← lift (item manifest (codes "file_size"))
    if is_int size (length whole) then pure tt else raise verification_error
    digest ← lift (item manifest (codes "plaintext_sha256"))
    if is_text (some digest) actual then pure tt else raise verification_error

  -- From the manifest on: the chunks, the verification, the promotion.
  unfoldable pub receive_file : Text → Value → Plan → Exec Files ℕ
  receive_file id manifest plan = do
    start ← resume id
    done ← chunk_loop s id plan plan.total_chunks 0 start
    modify (save_progress id done)
    verify_whole manifest
    modify promote
    modify (record_completed id)
    lift (item manifest (codes "filename"))
    pure 0

  unfoldable pub receive : Exec Files ℕ
  receive = do
    id ← lift (resolve_transfer_id s)
    transfer_id ← lift (from_hex id)
    seen ← gets (λ f. load_ledger f.ledger_file)
    manifest ← lift (fetch_verified_manifest s id seen)
    plan ← lift (plan_of s transfer_id manifest)
    receive_file id manifest plan

-- The `except` clauses of `main`.
unfoldable pub exit_code : Result ℕ → Result ℕ
exit_code (ok code) = ok code
exit_code (err verification_error) = ok 1
exit_code (err broker_error) = ok 1
exit_code (err e) = err e
