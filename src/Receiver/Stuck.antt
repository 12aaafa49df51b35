-- ===== src/Receiver/Stuck.antt =====
-- A partial file that is damaged behind a complete progress file.
use cmpe272_finaltest_assesm.Prelude.{
  ℕ, zero, suc, ◌+◌, ◌<◌, ◌≡◌, refl, ◌∙◌, true, false, none, some, List, ◌∷◌, arith, text_eq_refl,
}
use cmpe272_finaltest_assesm.Result.{ok, err, verification_error}
use cmpe272_finaltest_assesm.Bytes.{Bytes, Text, hex}
use cmpe272_finaltest_assesm.Text.{codes}
use cmpe272_finaltest_assesm.Util.Hashing.{sha256_file_lem}
use cmpe272_finaltest_assesm.Json.{Value, item, is_text}
use cmpe272_finaltest_assesm.Receiver.State.{
  Files, Setting, progress, contains, load_progress, save_progress,
}
use cmpe272_finaltest_assesm.Receiver.Manifest.{Plan}
use cmpe272_finaltest_assesm.Receiver.Chunks.{chunk_loop}
use cmpe272_finaltest_assesm.Receiver.Receive.{resumable, prepared, verify_whole, receive}
use cmpe272_finaltest_assesm.Receiver.Verified.{receive_file-reject}
use cmpe272_finaltest_assesm.Receiver.Loop.{chunk_loop-skip}
use cmpe272_finaltest_assesm.Receiver.Run.{IsReached}

module _ (s : Setting) (id : Text) (plan : Plan) (done : List ℕ) (f : Files) where
  -- Where every index is done, the loop asks the broker for nothing.
  chunk_loop-done :
      (rounds index : ℕ)
      → ((i : ℕ) → i < index + rounds → contains done i ≡ true)
      → chunk_loop s id plan rounds index done f ≡ (ok done, f)
  chunk_loop-done zero index all = unfold chunk_loop in refl
  chunk_loop-done (suc rounds) index all =
      chunk_loop-skip s id plan rounds index done f f (all index (omega arith))
      ∙ chunk_loop-done rounds (index + 1) (λ i h. all i (omega arith))

module _ (s : Setting) (id : Text) (m : Value) (plan : Plan) (c : Bytes) (i : ℕ) (l : List ℕ) where
  abbrev done : List ℕ
  done = i ∷ l

  verify_whole-fails :
      (v d : Value) (f : Files)
      → f.part ≡ some c
      → item m (codes "file_size") ≡ ok v
      → item m (codes "plaintext_sha256") ≡ ok d
      → is_text (some d) (hex (s.crypto.sha256 c)) ≡ false
      → verify_whole s m f ≡ (err verification_error, f)
  unfolding verify_whole
  verify_whole-fails v d f held e e' bad =
      ground (arith, sha256_file_lem s.crypto.sha256 c none, held)

  -- The progress file of a transfer lists every chunk, and the partial file does not have the digest
  -- of the manifest. Then a run is rejected and leaves every file as it was, so that each further run
  -- for the transfer is rejected in the same way, whatever the broker holds.
  pub damaged_part_stays :
      (v d : Value) (f : Files)
      → IsReached s f id m plan
      → f.part ≡ some c
      → f.progress_file ≡ progress id done
      → ((j : ℕ) → j < plan.total_chunks → contains done j ≡ true)
      → item m (codes "file_size") ≡ ok v
      → item m (codes "plaintext_sha256") ≡ ok d
      → is_text (some d) (hex (s.crypto.sha256 c)) ≡ false
      → receive s f ≡ (err verification_error, f)
  unfolding load_progress save_progress
  damaged_part_stays v d f r held saved all e e' bad =
      r.same_run ∙ receive_file-reject s id m plan f f verification_error done f loop verify
    where
      loaded : load_progress f.progress_file id ≡ done
      loaded = rw saved (rw (text_eq_refl id) refl)

      start : resumable f.part (load_progress f.progress_file id) ≡ done
      start = rw loaded (rw held refl)

      same : (record f { part = some (prepared f.part done) }) ≡ f
      same = ground (arith, held)

      unchanged : save_progress id done f ≡ f
      unchanged = ground (arith, saved)

      loop :
          chunk_loop s id plan plan.total_chunks 0
            (resumable f.part (load_progress f.progress_file id))
            (record f {
              part = some (prepared f.part (resumable f.part (load_progress f.progress_file id)));
            })
          ≡ (ok done, f)
      loop = rw start (
          rw same
            (chunk_loop-done s id plan done f plan.total_chunks 0 (λ i h. all i (omega arith))))

      verify : verify_whole s m (save_progress id done f) ≡ (err verification_error, f)
      verify = rw unchanged (verify_whole-fails v d f held e e' bad)
