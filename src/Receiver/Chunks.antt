-- ===== src/Receiver/Chunks.antt =====
-- The per-chunk loop of `receive`: fetch, check the digest, decrypt, write, save the progress.
use cmpe272_finaltest_assesm.Prelude.{
  ℕ, zero, suc, ◌+◌, ◌*◌, Option, none, some, List, [], if◌then◌else◌,
}
use cmpe272_finaltest_assesm.Exec.{Exec, pure, lift, modify, ◌>>=◌, ◌>>◌}
use cmpe272_finaltest_assesm.Bytes.{Bytes, Text}
use cmpe272_finaltest_assesm.Util.{chunk_size, write_at}
use cmpe272_finaltest_assesm.Receiver.State.{Files, Setting, contains, add, save_progress}
use cmpe272_finaltest_assesm.Receiver.Manifest.{Plan}
use cmpe272_finaltest_assesm.Receiver.Opening.{open_chunk}

abbrev pub content : Option Bytes → Bytes
content none = []
content (some c) = c

-- `f.seek(index * CHUNK_SIZE); f.write(plain)`
unfoldable pub write_chunk : ℕ → Bytes → Files → Files
write_chunk index plain f = record f {
  part = some (write_at (index * chunk_size) plain (content f.part));
}

module _ (s : Setting) (id : Text) (plan : Plan) where
  -- One round for an index that is not done: the new set of those that are.
  unfoldable pub do_chunk : ℕ → List ℕ → Exec Files (List ℕ)
  do_chunk index done = do
    plain ← lift (open_chunk s id plan index)
    modify (write_chunk index plain)
    modify (save_progress id (add index done))
    pure (add index done)

  -- `for index in range(total_chunks)`, with `rounds` rounds left.
  unfoldable pub chunk_loop : ℕ → ℕ → List ℕ → Exec Files (List ℕ)
  chunk_loop zero index done = pure done
  chunk_loop (suc rounds) index done =
      let skip = chunk_loop rounds (index + 1) done in
      let work = do_chunk index done >>= λ done'. chunk_loop rounds (index + 1) done' in
      if contains done index then skip else work
