-- ===== src/Broker/Writers/Atomic.antt =====
-- Every PUT is atomic while no two of them share a name.
use cmpe272_finaltest_assesm.Prelude.{
  ℕ, ◌<◌, ◌≤◌, ◌≡◌, ◌≢◌, refl, ◌∙◌, inl, inr, arith, false, none, some, ◌=ₜ◌, ◌==◌, Bool-cases,
  Option-cases,
}
use cmpe272_finaltest_assesm.Bytes.{Bytes, Text}
use cmpe272_finaltest_assesm.Broker.Race.{Stage, opening, writing, renaming, stored, failed}
use cmpe272_finaltest_assesm.Broker.Writers.{
  Files, put_step, seen, Crowd, update, Step, pick, Reach, start, later,
}
use cmpe272_finaltest_assesm.Broker.Writers.Shape.{IsSound, AreApart, temp, different_sym}
use cmpe272_finaltest_assesm.Broker.Writers.Steps.{IsAt, frame, Fine, step-Fine}

-- The PUT of a thread is done, and a GET sees what it put, or not, and a GET sees what it saw before.
abbrev pub GivesWhole : Text → Bytes → Files → Stage → Files → Type 0
GivesWhole path bs f0 stored f = seen path f ≡ some bs
GivesWhole path bs f0 failed f = ⊥
GivesWhole path bs f0 _ f = seen path f ≡ seen path f0

module _ (n : ℕ) (path : ℕ → Text) (payload : ℕ → Bytes) (f0 : Files) where
  -- All threads at once.
  record Inv (s : Crowd) : Type 0 where
    pub sound : IsSound s.files
    pub old : f0.fresh ≤ s.files.fresh
    pub kept : (k : ℕ) → k < f0.fresh → s.files.content k ≡ f0.content k
    pub others :
        (q : Text)
        → ((i : ℕ) → i < n → ((q =ₜ path i) ≡ false) × ((q =ₜ temp path i) ≡ false))
        → s.files.names q ≡ f0.names q
    pub at : (i : ℕ) → i < n → IsAt n path payload f0 i (s.stage i) s.files

  update-same : (i : ℕ) (p : Stage) (stage : ℕ → Stage) → update i p stage i ≡ p
  update-same i p stage = ground arith

  update-other :
      (i : ℕ) (p : Stage) (stage : ℕ → Stage) (j : ℕ)
      → (j == i) ≡ false
      → update i p stage j ≡ stage j
  update-other i p stage j e = rw e refl

  module _ (apart : AreApart n path) where
    -- The step of one thread leaves the others where they are.
    unmoved :
        (i j : ℕ) (p : Stage) (f : Files) (o : Stage × Files)
        → i < n
        → j < n
        → i ≢ j
        → Fine n path payload f0 j f o
        → IsAt n path payload f0 i p f
        → IsAt n path payload f0 i p o.1
    unmoved i j p f o lt lt' ne fine h =
        let temps = apart.temps i j lt lt' ne in
        let mixed = apart.mixed i j lt lt' in
        frame n path payload f0 i p f o.1
          (fine.others (temp path i) (different_sym (path j) (temp path i) (apart.mixed j i lt' lt))
            temps)
          (fine.others (path i) (apart.paths i j lt lt' ne) mixed)
          (λ k held. elim held [
            | inl e ↦ fine.behind (temp path i) k temps e
            | inr e ↦ fine.behind (path i) k mixed e
          ])
          h

    Step-Inv : {s s' : Crowd} → Inv s → Step path payload n s s' → Inv s'
    Step-Inv {s} h (pick j lt) =
        let fine =
          step-Fine n path payload f0 apart j lt s.files h.sound h.old (s.stage j) (h.at j lt) in
        let o = put_step (path j) (payload j) (s.stage j) s.files in
        record {
          sound = fine.sound;
          old = omega (arith, fine.grown, h.old);
          kept = λ k old. fine.kept k old ∙ h.kept k old;
          others = λ q away. fine.others q (away j lt).0 (away j lt).1 ∙ h.others q away;
          at = λ i lt'. elim (Bool-cases (i == j)) [
            | inl same ↦
                let e : i ≡ j = ground arith in rw e (rw (update-same j o.0 s.stage) fine.at)
            | inr other ↦
                rw (update-other j o.0 s.stage i other)
                  (unmoved i j (s.stage i) s.files o lt' lt (λ e. ground arith) fine (h.at i lt'))
          ];
        }

    module _ (sound : IsSound f0) (no_temps : (i : ℕ) → i < n → f0.names (temp path i) ≡ none) where
      Reach-Inv : {s : Crowd} → Reach path payload n f0 s → Inv s
      Reach-Inv start = record {
        sound = sound;
        old = omega arith;
        kept = λ k h. refl;
        others = λ q away. refl;
        at = λ i lt. (no_temps i lt, refl);
      }
      Reach-Inv (later r step) = Step-Inv (Reach-Inv r) step

      module _ (s : Crowd) (h : Inv s) where
        seen_old : (q : Text) → s.files.names q ≡ f0.names q → seen q s.files ≡ seen q f0
        unfolding seen
        seen_old q e = elim (Option-cases (f0.names q)) [
          | inl absent ↦ ground (arith, e, absent)
          | inr (k, there) ↦ ground (arith, e, there, h.kept k (sound.below q k there))
        ]

        seen_new :
            (q : Text) (k : ℕ) (bs : Bytes)
            → s.files.names q ≡ some k
            → s.files.content k ≡ bs
            → seen q s.files ≡ some bs
        unfolding seen
        seen_new q k bs e full = ground (arith, e, full)

        at-GivesWhole :
            (i : ℕ) (p : Stage)
            → IsAt n path payload f0 i p s.files
            → GivesWhole (path i) (payload i) f0 p s.files
        at-GivesWhole i opening (a, same) = seen_old (path i) same
        at-GivesWhole i (writing k) (a, b, c, same) = seen_old (path i) same
        at-GivesWhole i renaming (k, a, b, same) = seen_old (path i) same
        at-GivesWhole i stored (k, a, there, full) = seen_new (path i) k (payload i) there full
        at-GivesWhole i failed away = away

      -- Any number of PUTs at the same time, under names of which none is another or its temporary file,
      -- from a storage without temporary files of theirs: in every state that their threads reach, in any
      -- order of the steps, none has failed, a GET of a name sees the bytes that were put if its PUT is
      -- done and what it saw before if not, and every other name, but for the temporary files, is as it
      -- was.
      pub puts_atomic :
          {s : Crowd}
          → Reach path payload n f0 s
          → ((i : ℕ) → i < n → GivesWhole (path i) (payload i) f0 (s.stage i) s.files)
            × ((q : Text)
                → ((i : ℕ) → i < n → ((q =ₜ path i) ≡ false) × ((q =ₜ temp path i) ≡ false))
                → seen q s.files ≡ seen q f0)
      puts_atomic {s} r =
          let h = Reach-Inv r in
          (
            λ i lt. at-GivesWhole s h i (s.stage i) (h.at i lt),
            λ q away. seen_old s h q (h.others q away),
          )
