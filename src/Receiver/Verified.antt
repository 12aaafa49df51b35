-- ===== src/Receiver/Verified.antt =====
-- A run of the receiver against any broker: only a verified file takes the final name.
use cmpe272_finaltest_assesm.Prelude.{
  ℕ, ◌≡◌, ◌≢◌, refl, ap, sym, ◌∙◌, true, none, some, List, ◌⊎◌, inl, inr, arith, length,
}
use cmpe272_finaltest_assesm.Result.{Result, ok, err, Error, Result-cases}
use cmpe272_finaltest_assesm.Exec.{outcome-cases}
use cmpe272_finaltest_assesm.Bytes.{Bytes, Text, hex}
use cmpe272_finaltest_assesm.Text.{codes}
use cmpe272_finaltest_assesm.Util.Hashing.{sha256_file_lem}
use cmpe272_finaltest_assesm.Json.{Value, item, is_text, is_int}
use cmpe272_finaltest_assesm.Receiver.State.{
  Files, Setting, no_progress, ledger, add_text, load_ledger, load_progress, save_progress,
  record_completed,
}
use cmpe272_finaltest_assesm.Receiver.Manifest.{Plan}
use cmpe272_finaltest_assesm.Receiver.Chunks.{content, chunk_loop}
use cmpe272_finaltest_assesm.Receiver.Receive.{
  exists, resumable, prepared, resume, promote, verify_whole, receive_file,
}
use cmpe272_finaltest_assesm.Receiver.Loop.{Same, Same-trans, chunk_loop-Same, chunk_loop-exists}

-- The file is what the manifest says: its size, and its digest.
pub record IsIntact (s : Setting) (m : Value) (c : Bytes) : Type 0 where
  pub size : (v : Value) × (item m (codes "file_size") ≡ ok v) × (is_int v (length c) ≡ true)
  pub digest :
      (v : Value) × (item m (codes "plaintext_sha256") ≡ ok v)
      × (is_text (some v) (hex (s.crypto.sha256 c)) ≡ true)

module _ (s : Setting) (m : Value) (f : Files) where
  -- The verification changes no file, and passes only for an intact one.
  verify_whole_lem :
      ((verify_whole s m f).1 ≡ f)
      × (((verify_whole s m f).0 ≡ ok tt) → IsIntact s m (content f.part))
  unfolding verify_whole
  verify_whole_lem =
      let hashed = sha256_file_lem s.crypto.sha256 (content f.part) none in
      elim (Result-cases (item m (codes "file_size"))) [
        | inr (x, e) ↦ (ground (arith, hashed, e), λ h. absurd (ground (arith, hashed, e)))
        | inl (v, e) ↦ elim (Result-cases (item m (codes "plaintext_sha256"))) [
          | inr (x, e') ↦
              (ground (arith, hashed, e, e'), λ h. absurd (ground (arith, hashed, e, e')))
          | inl (d, e') ↦ (
            ground (arith, hashed, e, e'),
            λ h. record {
              size = (v, e, ground (arith, hashed, e, e'));
              digest = (d, e', ground (arith, hashed, e, e'));
            },
          )
        ]
      ]

-- What a promotion leaves.
pub record IsPromoted (s : Setting) (id : Text) (m : Value) (f f' : Files) (c : Bytes)
    : Type 0 where
  pub promoted : f'.out ≡ some c
  pub unparted : (f'.part ≡ none) × (f'.progress_file ≡ no_progress)
  pub recorded : f'.ledger_file ≡ ledger (add_text id (load_ledger f.ledger_file))
  pub intact : IsIntact s m c

abbrev pub Ends : Setting → Text → Value → Files → Result ℕ × Files → Type 0
Ends s id m f (r, f') = ((r ≢ ok 0) × Same f f') ⊎ ((c : Bytes) × IsPromoted s id m f f' c)

module _ (s : Setting) (id : Text) (m : Value) (plan : Plan) (f : Files) where
  abbrev begun : List ℕ × Files
  begun = (
    resumable f.part (load_progress f.progress_file id),
    record f {
      part = some (prepared f.part (resumable f.part (load_progress f.progress_file id)));
    },
  )

  abbrev looped : Result (List ℕ) × Files
  looped = chunk_loop s id plan plan.total_chunks 0 begun.0 begun.1

  looped-Same : Same f looped.1
  looped-Same = chunk_loop-Same s id plan plan.total_chunks 0 begun.0 begun.1

  module _ (f1 : Files) where
    pub receive_file-stop :
        (x : Error) → looped ≡ (err x, f1) → receive_file s id m plan f ≡ (err x, f1)
    unfolding receive_file resume
    receive_file-stop x e = ground (arith, e)

    pub receive_file-reject :
        (x : Error) (done : List ℕ) (f2 : Files)
        → looped ≡ (ok done, f1)
        → verify_whole s m (save_progress id done f1) ≡ (err x, f2)
        → receive_file s id m plan f ≡ (err x, f2)
    unfolding receive_file resume
    receive_file-reject x done f2 e v = ground (arith, e, v)

    receive_file-promote :
        (done : List ℕ) (f2 : Files)
        → looped ≡ (ok done, f1)
        → verify_whole s m (save_progress id done f1) ≡ (ok tt, f2)
        → (receive_file s id m plan f).1 ≡ record_completed id (promote f2)
    unfolding receive_file resume
    receive_file-promote done f2 e v = ground (arith, e, v)

  promote-IsPromoted :
      (f2 f' : Files) (c : Bytes)
      → Same f f2
      → f' ≡ record_completed id (promote f2)
      → f2.part ≡ some c
      → IsIntact s m c
      → IsPromoted s id m f f' c
  unfolding record_completed promote
  promote-IsPromoted f2 f' c same e held intact = record {
    promoted = ap (λ g. g.out) e ∙ held;
    unparted = (ap (λ g. g.part) e, ap (λ g. g.progress_file) e);
    recorded = ap (λ g. g.ledger_file) e ∙ ap (λ l. ledger (add_text id (load_ledger l))) same.1;
    intact = intact;
  }

  looped-exists : exists looped.1.part ≡ true
  looped-exists = chunk_loop-exists s id plan plan.total_chunks 0 begun.0 begun.1 refl

  -- From a manifest on, a run ends without a promotion, or with that of an intact file.
  pub receive_file-Ends : Ends s id m f (receive_file s id m plan f)
  receive_file-Ends = elim (outcome-cases looped) [
    | inr (x, f1, e) ↦ rw (receive_file-stop f1 x e) (inl (λ h. cc, rw e at looped-Same))
    | inl (done, f1, e) ↦
        let g = save_progress id done f1 in
        let same : Same f g = saved_Same done f1 (rw e at looped-Same) in
        let held : exists g.part ≡ true = saved_exists done f1 (rw e at looped-exists) in
        let checked = verify_whole_lem s m g in
        elim (outcome-cases (verify_whole s m g)) [
          | inr (x, f2, v) ↦
              rw (receive_file-reject f1 x done f2 e v)
                (inl (λ h. cc, Same-trans f g f2 same (Same-of g f2 (sym (rw v at checked.0)))))
          | inl (u, f2, v) ↦
              let back : f2 ≡ g = rw v at checked.0 in
              inr (
                content g.part,
                promote-IsPromoted g (receive_file s id m plan f).1 (content g.part) same
                    (receive_file-promote f1 done f2 e v
                      ∙ ap (λ h. record_completed id (promote h)) back)
                    (part_there g held) (checked.1 (ap (λ r. r.0) v)),
              )
        ]
  ]
    where
      saved_Same : (done : List ℕ) (f1 : Files) → Same f f1 → Same f (save_progress id done f1)
      saved_Same done f1 h = unfold save_progress in h

      saved_exists :
          (done : List ℕ) (f1 : Files)
          → exists f1.part ≡ true
          → exists (save_progress id done f1).part ≡ true
      saved_exists done f1 h = unfold save_progress in h

      Same-of : (g h : Files) → g ≡ h → Same g h
      Same-of g h e = (ap (λ x. x.out) (sym e), ap (λ x. x.ledger_file) (sym e))

      part_there : (g : Files) → exists g.part ≡ true → g.part ≡ some (content g.part)
      part_there g h = ground arith
