-- ===== src/Broker/Writers/Steps.antt =====
-- What a step of one PUT does to the files, and to what the other PUTs rely on.
use cmpe272_finaltest_assesm.Prelude.{
  ℕ, ◌<◌, ◌≤◌, ◌≡◌, refl, ap, ◌∙◌, ◌⊎◌, inl, inr, arith, false, none, some, [], ◌++◌, ◌=ₜ◌,
  text_eq_iff, append-nil, drop, drop_all, length,
}
use cmpe272_finaltest_assesm.Bytes.{Bytes, Text}
use cmpe272_finaltest_assesm.Broker.Race.{Stage, opening, writing, renaming, stored, failed}
use cmpe272_finaltest_assesm.Broker.Writers.{
  Files, point, open_tmp, write_tmp, rename_tmp, put_step,
}
use cmpe272_finaltest_assesm.Broker.Writers.Shape.{
  IsSound, AreApart, temp, opened, written, renamed, point-same, point-other, different_sym,
  opened-IsSound, renamed-IsSound,
}

module _ (n : ℕ) (path : ℕ → Text) (payload : ℕ → Bytes) (f0 : Files) where
  -- What the stage of a PUT says of the files.
  abbrev pub IsAt : ℕ → Stage → Files → Type 0
  IsAt i opening f = (f.names (temp path i) ≡ none) × (f.names (path i) ≡ f0.names (path i))
  IsAt i (writing k) f =
      (f.names (temp path i) ≡ some k)
      × (f0.fresh ≤ k)
      × (f.content k ≡ [])
      × (f.names (path i) ≡ f0.names (path i))
  IsAt i renaming f =
      (k : ℕ) × (f.names (temp path i) ≡ some k)
      × (f.content k ≡ payload i)
      × (f.names (path i) ≡ f0.names (path i))
  IsAt i stored f =
      (k : ℕ) × (f.names (temp path i) ≡ none)
      × (f.names (path i) ≡ some k)
      × (f.content k ≡ payload i)
  IsAt i failed f = ⊥

  -- It holds on while nothing is done to the two names, nor to what is behind them.
  pub frame :
      (i : ℕ) (p : Stage) (f f' : Files)
      → f'.names (temp path i) ≡ f.names (temp path i)
      → f'.names (path i) ≡ f.names (path i)
      → ((k : ℕ)
          → (f.names (temp path i) ≡ some k) ⊎ (f.names (path i) ≡ some k)
          → f'.content k ≡ f.content k)
      → IsAt i p f
      → IsAt i p f'
  frame i opening f f' e e' same (a, b) = (e ∙ a, e' ∙ b)
  frame i (writing k) f f' e e' same (a, b, c, d) = (e ∙ a, b, same k (inl a) ∙ c, e' ∙ d)
  frame i renaming f f' e e' same (k, a, b, c) = (k, e ∙ a, same k (inl a) ∙ b, e' ∙ c)
  frame i stored f f' e e' same (k, a, b, c) = (k, e ∙ a, e' ∙ b, same k (inr b) ∙ c)
  frame i failed f f' e e' same h = h

  -- What a step of thread `j` does to the files.
  pub record Fine (j : ℕ) (f : Files) (o : Stage × Files) : Type 0 where
    pub sound : IsSound o.1
    pub grown : f.fresh ≤ o.1.fresh
    pub kept : (k : ℕ) → k < f0.fresh → o.1.content k ≡ f.content k
    pub others :
        (q : Text) → (q =ₜ path j) ≡ false → (q =ₜ temp path j) ≡ false → o.1.names q ≡ f.names q
    pub behind :
        (q : Text) (k : ℕ)
        → (q =ₜ temp path j) ≡ false
        → f.names q ≡ some k
        → o.1.content k ≡ f.content k
    pub at : IsAt j o.0 o.1

  module _ (apart : AreApart n path) (j : ℕ) (in_range : j < n) (f : Files) (sound : IsSound f)
      (old : f0.fresh ≤ f.fresh) where
    own : (path j =ₜ temp path j) ≡ false
    own = apart.mixed j j in_range in_range

    Fine-opened : IsAt j opening f → Fine j f (writing f.fresh, opened path j f)
    Fine-opened (none_there, same) = record {
      sound = opened-IsSound path j f sound;
      grown = omega arith;
      kept = λ k h. ground arith;
      others = λ q e e'. ground (arith, e');
      behind = λ q k e had. ground (arith, sound.below q k had);
      at = (
        point-same (temp path j) (some f.fresh) f.names,
        old,
        ground arith,
        point-other (temp path j) (some f.fresh) f.names (path j) own ∙ same,
      );
    }

    Fine-written : (k : ℕ) → IsAt j (writing k) f → Fine j f (renaming, written (payload j) k f)
    Fine-written k (there, new, empty, same) = record {
      sound = record { below = sound.below; single = sound.single };
      grown = omega arith;
      kept = λ i h. ground arith;
      others = λ q e e'. refl;
      behind = λ q i e had.
          ground
            (arith, e, had, there, sound.single q (temp path j) i, text_eq_iff q (temp path j));
      at = (k, there, ground arith, same);
    }

    Fine-renamed :
        (k : ℕ)
        → f.names (temp path j) ≡ some k
        → f.content k ≡ payload j
        → Fine j f (stored, renamed path j k f)
    Fine-renamed k there full = record {
      sound = renamed-IsSound path j k f there sound;
      grown = omega arith;
      kept = λ i h. refl;
      others = λ q e e'. ground (arith, e, e');
      behind = λ q i e had. refl;
      at = (
        k,
        point-other (path j) (some k) (point (temp path j) none f.names) (temp path j)
              (different_sym (path j) (temp path j) own)
            ∙ point-same (temp path j) none f.names,
        point-same (path j) (some k) (point (temp path j) none f.names),
        full,
      );
    }

    Fine-stored : IsAt j stored f → Fine j f (stored, f)
    Fine-stored h = record {
      sound = record { below = sound.below; single = sound.single };
      grown = omega arith;
      kept = λ i h. refl;
      others = λ q e e'. refl;
      behind = λ q i e had. refl;
      at = h;
    }

    opens :
        f.names (temp path j) ≡ none
        → put_step (path j) (payload j) opening f ≡ (writing f.fresh, opened path j f)
    unfolding put_step open_tmp
    opens e = ground (arith, e)

    writes :
        (k : ℕ)
        → f.content k ≡ []
        → put_step (path j) (payload j) (writing k) f ≡ (renaming, written (payload j) k f)
    unfolding put_step write_tmp
    writes k e =
        ap (λ bs. (renaming, written bs k f))
          (ap (λ bs. payload j ++ drop (length (payload j)) bs) e
            ∙ ap (λ bs. payload j ++ bs) (drop_all (length (payload j)) [] (omega arith))
            ∙ append-nil (payload j))

    renames :
        (k : ℕ)
        → f.names (temp path j) ≡ some k
        → put_step (path j) (payload j) renaming f ≡ (stored, renamed path j k f)
    unfolding put_step rename_tmp
    renames k e = ground (arith, e)

    -- The step of the thread, at every stage.
    pub step-Fine : (p : Stage) → IsAt j p f → Fine j f (put_step (path j) (payload j) p f)
    step-Fine opening h = rw (opens h.0) (Fine-opened h)
    step-Fine (writing k) h = rw (writes k h.2) (Fine-written k h)
    step-Fine renaming (k, there, full, same) = rw (renames k there) (Fine-renamed k there full)
    step-Fine stored h = unfold put_step in (Fine-stored h)
    step-Fine failed h = absurd h
