-- ===== src/Receiver/Loop.antt =====
-- The chunk loop of the receiver leaves the final name and the ledger alone, and keeps the partial
-- file.
use cmpe272_finaltest_assesm.Prelude.{
  ℕ, zero, suc, ◌+◌, ◌≡◌, refl, ◌∙◌, true, false, List, inl, inr, arith, Bool-cases,
}
use cmpe272_finaltest_assesm.Result.{ok, err, Error, Result-cases}
use cmpe272_finaltest_assesm.Exec.{bind-ok, bind-err, outcome-cases}
use cmpe272_finaltest_assesm.Bytes.{Text}
use cmpe272_finaltest_assesm.Receiver.State.{Files, Setting, contains, save_progress}
use cmpe272_finaltest_assesm.Receiver.Manifest.{Plan}
use cmpe272_finaltest_assesm.Receiver.Opening.{open_chunk}
use cmpe272_finaltest_assesm.Receiver.Chunks.{write_chunk, do_chunk, chunk_loop}
use cmpe272_finaltest_assesm.Receiver.Receive.{exists}

-- The final name and the ledger are as they were.
abbrev pub Same : Files → Files → Type 0
Same f f' = (f'.out ≡ f.out) × (f'.ledger_file ≡ f.ledger_file)

pub Same-trans : (f g h : Files) → Same f g → Same g h → Same f h
Same-trans f g h a b = (b.0 ∙ a.0, b.1 ∙ a.1)

module _ (s : Setting) (id : Text) (plan : Plan) where
  do_chunk-Same :
      (index : ℕ) (done : List ℕ) (f : Files) → Same f (do_chunk s id plan index done f).1
  unfolding do_chunk write_chunk save_progress
  do_chunk-Same index done f = elim (Result-cases (open_chunk s id plan index)) [
    | inl (plain, e) ↦ ground (arith, e)
    | inr (x, e) ↦ ground (arith, e)
  ]

  -- One round of the loop, by what it finds.
  module _ (rounds index : ℕ) (done : List ℕ) (f f1 : Files) where
    pub chunk_loop-skip :
        contains done index ≡ true
        → chunk_loop s id plan (suc rounds) index done f
          ≡ chunk_loop s id plan rounds (index + 1) done f
    unfolding chunk_loop
    chunk_loop-skip old = rw old

    pub chunk_loop-next :
        (done' : List ℕ)
        → contains done index ≡ false
        → do_chunk s id plan index done f ≡ (ok done', f1)
        → chunk_loop s id plan (suc rounds) index done f
          ≡ chunk_loop s id plan rounds (index + 1) done' f1
    unfolding chunk_loop
    chunk_loop-next done' new e =
        rw new (
          bind-ok (do_chunk s id plan index done) (λ d. chunk_loop s id plan rounds (index + 1) d)
            e)

    chunk_loop-stop :
        (x : Error)
        → contains done index ≡ false
        → do_chunk s id plan index done f ≡ (err x, f1)
        → chunk_loop s id plan (suc rounds) index done f ≡ (err x, f1)
    unfolding chunk_loop
    chunk_loop-stop x new e = rw new (
        bind-err (do_chunk s id plan index done) (λ d. chunk_loop s id plan rounds (index + 1) d) e)

  pub chunk_loop-Same :
      (rounds index : ℕ) (done : List ℕ) (f : Files)
      → Same f (chunk_loop s id plan rounds index done f).1
  chunk_loop-Same zero index done f = unfold chunk_loop in (refl, refl)
  chunk_loop-Same (suc rounds) index done f = elim (Bool-cases (contains done index)) [
    | inl old ↦
        rw (chunk_loop-skip rounds index done f f old) (chunk_loop-Same rounds (index + 1) done f)
    | inr new ↦
        let step = do_chunk-Same index done f in
        elim (outcome-cases (do_chunk s id plan index done f)) [
          | inl (done', f1, e) ↦ rw (chunk_loop-next rounds index done f f1 done' new e) (
              Same-trans f f1 (chunk_loop s id plan rounds (index + 1) done' f1).1 (rw e at step)
                (chunk_loop-Same rounds (index + 1) done' f1))
          | inr (x, f1, e) ↦ rw (chunk_loop-stop rounds index done f f1 x new e) (rw e at step)
        ]
  ]

  do_chunk-exists :
      (index : ℕ) (done : List ℕ) (f : Files)
      → exists f.part ≡ true
      → exists (do_chunk s id plan index done f).1.part ≡ true
  unfolding do_chunk write_chunk save_progress
  do_chunk-exists index done f h = elim (Result-cases (open_chunk s id plan index)) [
    | inl (plain, e) ↦ ground (arith, e)
    | inr (x, e) ↦ ground (arith, e)
  ]

  -- The partial file is there as long as the loop runs.
  pub chunk_loop-exists :
      (rounds index : ℕ) (done : List ℕ) (f : Files)
      → exists f.part ≡ true
      → exists (chunk_loop s id plan rounds index done f).1.part ≡ true
  chunk_loop-exists zero index done f h = unfold chunk_loop in h
  chunk_loop-exists (suc rounds) index done f h = elim (Bool-cases (contains done index)) [
    | inl old ↦
        rw (chunk_loop-skip rounds index done f f old)
          (chunk_loop-exists rounds (index + 1) done f h)
    | inr new ↦
        let step = do_chunk-exists index done f h in
        elim (outcome-cases (do_chunk s id plan index done f)) [
          | inl (done', f1, e) ↦
              rw (chunk_loop-next rounds index done f f1 done' new e)
                (chunk_loop-exists rounds (index + 1) done' f1 (rw e at step))
          | inr (x, f1, e) ↦ rw (chunk_loop-stop rounds index done f f1 x new e) (rw e at step)
        ]
  ]
