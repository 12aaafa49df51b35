-- ===== src/Transfer/Download.antt =====
-- The receiver's loop over the chunks that a sender has uploaded.
use cmpe272_finaltest_assesm.Prelude.{
  ◌-◌, ◌/◌, ℕ, zero, suc, ◌+◌, ◌*◌, ◌≤◌, ◌<◌, ◌≡◌, refl, ap, ◌∙◌, false, some, List, arith, ◌==◌,
  length, length-take, take, drop, take-append-take, Bool-cases, inl, inr,
}
use cmpe272_finaltest_assesm.Result.{ok}
use cmpe272_finaltest_assesm.Bytes.{Bytes, Text}
use cmpe272_finaltest_assesm.Util.{chunk_size}
use cmpe272_finaltest_assesm.Util.WriteAt.{write_at-end}
use cmpe272_finaltest_assesm.Receiver.State.{Files, Setting, contains, add, save_progress}
use cmpe272_finaltest_assesm.Receiver.Manifest.{Plan}
use cmpe272_finaltest_assesm.Receiver.Opening.{open_chunk}
use cmpe272_finaltest_assesm.Receiver.Chunks.{write_chunk, do_chunk, chunk_loop}
use cmpe272_finaltest_assesm.Receiver.Loop.{Same, Same-trans, chunk_loop-next}
use cmpe272_finaltest_assesm.Transfer.Store.{piece}

contains-add : (n i : ℕ) (l : List ℕ) → (n == i) ≡ false → contains (add n l) i ≡ contains l i
unfolding contains add
contains-add n i l h = elim (Bool-cases (contains l n)) [
  | inl old ↦ rw old refl
  | inr new ↦ rw (new, h) refl
]

still_new :
    (index : ℕ) (done : List ℕ)
    → ((i : ℕ) → index ≤ i → contains done i ≡ false)
    → (i : ℕ) → index + 1 ≤ i
    → contains (add index done) i ≡ false
still_new index done new i h = contains-add index i done (ground arith) ∙ new i (omega arith)

module _ (s : Setting) (id : Text) (plan : Plan) (file : Bytes) where
  do_chunk-ok :
      (index : ℕ) (done : List ℕ) (f : Files) (plain : Bytes)
      → open_chunk s id plan index ≡ ok plain
      → do_chunk s id plan index done f
        ≡ (ok (add index done), save_progress id (add index done) (write_chunk index plain f))
  unfolding do_chunk
  do_chunk-ok index done f plain e = rw e refl

  -- The file grows by one chunk.
  write_chunk-grows :
      (index : ℕ) (f : Files)
      → index * chunk_size ≤ length file
      → f.part ≡ some (take (index * chunk_size) file)
      → (write_chunk index (piece file index) f).part ≡ some (take ((index + 1) * chunk_size) file)
  unfolding write_chunk piece
  write_chunk-grows index f fits held = rw held (
      ap some (
        write_at-end (index * chunk_size) (take chunk_size (drop (index * chunk_size) file))
          (take (index * chunk_size) file) (omega (arith, length-take (index * chunk_size) file))
        ∙ take-append-take (index * chunk_size) chunk_size ((index + 1) * chunk_size) file
            (omega arith)))

  -- From the beginning of the file to the whole, when every chunk opens.
  pub chunk_loop-whole :
      (rounds index : ℕ) (done : List ℕ) (f : Files)
      → index + rounds ≡ (length file + (chunk_size - 1)) / chunk_size
      → ((i : ℕ) → i < index + rounds → open_chunk s id plan i ≡ ok (piece file i))
      → ((i : ℕ) → index ≤ i → contains done i ≡ false)
      → f.part ≡ some (take (index * chunk_size) file)
      → (done' : List ℕ) × (f' : Files) × (chunk_loop s id plan rounds index done f
          ≡ (ok done', f'))
        × (f'.part ≡ some (take ((index + rounds) * chunk_size) file))
        × Same f f'
  chunk_loop-whole zero index done f count opens new held = (
    done,
    f,
    unfold chunk_loop in refl,
    held ∙ ap (λ (n : ℕ). some (take (n * chunk_size) file)) (omega arith),
    (refl, refl),
  )
  chunk_loop-whole (suc rounds) index done f count opens new held =
      let done1 = add index done in
      let f1 = save_progress id done1 (write_chunk index (piece file index) f) in
      let grown : f1.part ≡ some (take ((index + 1) * chunk_size) file) =
        unfold save_progress in write_chunk-grows index f (omega arith) held in
      let (done', f', ran, whole, same) =
        chunk_loop-whole rounds (index + 1) done1 f1 (omega arith) (λ i h. opens i (omega arith))
          (still_new index done new) grown in
      (
        done',
        f',
        chunk_loop-next s id plan rounds index done f f1 done1 (new index (omega arith))
              (do_chunk-ok index done f (piece file index) (opens index (omega arith)))
            ∙ ran,
        whole ∙ ap (λ (n : ℕ). some (take (n * chunk_size) file)) (omega arith),
        Same-trans f f1 f' (unfold save_progress write_chunk in (refl, refl)) same,
      )
