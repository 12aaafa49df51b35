-- ===== src/Broker/Writers/Shape.antt =====
-- The files while threads PUT under names that have nothing to do with each other.
use cmpe272_finaltest_assesm.Prelude.{
  ℕ, ◌+◌, ◌<◌, ◌≡◌, ◌≢◌, refl, ap, sym, ◌∙◌, ◌⊎◌, inl, inr, arith, false, Option, none, some, [],
  ◌=ₜ◌, if◌then◌else◌, text_eq_iff, text_eq_refl, Bool-cases,
}
use cmpe272_finaltest_assesm.Bytes.{Bytes, Text}
use cmpe272_finaltest_assesm.Broker.Storage.{tmp_name}
use cmpe272_finaltest_assesm.Broker.Race.{set}
use cmpe272_finaltest_assesm.Broker.Writers.{Files, point}

-- No name is behind two names, and the numbers from `fresh` on are unused.
pub record IsSound (f : Files) : Type 0 where
  pub below : (p : Text) (k : ℕ) → f.names p ≡ some k → k < f.fresh
  pub single : (p q : Text) (k : ℕ) → f.names p ≡ some k → f.names q ≡ some k → p ≡ q

-- The names under which the threads put are different, and none is the temporary file of another.
pub record AreApart (n : ℕ) (path : ℕ → Text) : Type 0 where
  pub paths : (i j : ℕ) → i < n → j < n → i ≢ j → (path i =ₜ path j) ≡ false
  pub temps : (i j : ℕ) → i < n → j < n → i ≢ j → (tmp_name (path i) =ₜ tmp_name (path j)) ≡ false
  pub mixed : (i j : ℕ) → i < n → j < n → (path i =ₜ tmp_name (path j)) ≡ false

pub point-same : (p : Text) (o : Option ℕ) (names : Text → Option ℕ) → point p o names p ≡ o
point-same p o names = rw (text_eq_refl p) refl

pub point-other :
    (p : Text) (o : Option ℕ) (names : Text → Option ℕ) (q : Text)
    → (q =ₜ p) ≡ false
    → point p o names q ≡ names q
point-other p o names q e = rw e refl

pub different_sym : (p q : Text) → (p =ₜ q) ≡ false → (q =ₜ p) ≡ false
different_sym p q e = ground (arith, e, text_eq_iff p q, text_eq_iff q p)

-- What a name is behind which something stands, after it was pointed elsewhere.
point-cases :
    (p : Text) (o : Option ℕ) (names : Text → Option ℕ) (q : Text) (k : ℕ)
    → point p o names q ≡ some k
    → ((q ≡ p) × (o ≡ some k)) ⊎ (((q =ₜ p) ≡ false) × (names q ≡ some k))
point-cases p o names q k e = elim (Bool-cases (q =ₜ p)) [
  | inl same ↦ inl ((text_eq_iff q p).0 same, sym (ap (λ b. if b then o else names q) same) ∙ e)
  | inr other ↦ inr (other, sym (ap (λ b. if b then o else names q) other) ∙ e)
]

-- The files after the second step.
abbrev pub written : Bytes → ℕ → Files → Files
written bs k f = record f { content = set k bs f.content }

module _ (path : ℕ → Text) where
  abbrev pub temp : ℕ → Text
  temp i = tmp_name (path i)

  -- The files after the first step, and after the third.
  abbrev pub opened : ℕ → Files → Files
  opened j f = record f {
    names = point (temp j) (some f.fresh) f.names;
    content = set f.fresh [] f.content;
    fresh = f.fresh + 1;
  }

  abbrev pub renamed : ℕ → ℕ → Files → Files
  renamed j k f = record f { names = point (path j) (some k) (point (temp j) none f.names) }

  pub opened-IsSound : (j : ℕ) (f : Files) → IsSound f → IsSound (opened j f)
  opened-IsSound j f s = record {
    below = λ p k e. elim (point-cases (temp j) (some f.fresh) f.names p k e) [
      | inl (same, new) ↦ ground arith
      | inr (other, had) ↦ omega (arith, s.below p k had)
    ];
    single = λ p q k e e'. elim (point-cases (temp j) (some f.fresh) f.names p k e) [
      | inl (same, new) ↦ elim (point-cases (temp j) (some f.fresh) f.names q k e') [
        | inl (same', new') ↦ same ∙ sym same'
        | inr (other', had') ↦ absurd (ground (arith, s.below q k had'))
      ]
      | inr (other, had) ↦ elim (point-cases (temp j) (some f.fresh) f.names q k e') [
        | inl (same', new') ↦ absurd (ground (arith, s.below p k had))
        | inr (other', had') ↦ s.single p q k had had'
      ]
    ];
  }

  -- Behind a name after the rename: the path, or a name that it does not touch.
  renamed-cases :
      (j k : ℕ) (f : Files) (p : Text) (i : ℕ)
      → (renamed j k f).names p ≡ some i
      → ((p ≡ path j) × (k ≡ i)) ⊎ (((p =ₜ temp j) ≡ false) × (f.names p ≡ some i))
  renamed-cases j k f p i e =
      elim (point-cases (path j) (some k) (point (temp j) none f.names) p i e) [
        | inl (same, new) ↦ inl (same, ground arith)
        | inr (other, had) ↦ elim (point-cases (temp j) none f.names p i had) [
          | inl (same', gone) ↦ absurd cc
          | inr (other', had') ↦ inr (other', had')
        ]
      ]

  pub renamed-IsSound :
      (j k : ℕ) (f : Files) → f.names (temp j) ≡ some k → IsSound f → IsSound (renamed j k f)
  renamed-IsSound j k f there s = record {
    below = λ p i e. elim (renamed-cases j k f p i e) [
      | inl (same, new) ↦ omega (arith, new, s.below (temp j) k there)
      | inr (other, had) ↦ s.below p i had
    ];
    single = λ p q i e e'. elim (renamed-cases j k f p i e) [
      | inl (same, new) ↦ elim (renamed-cases j k f q i e') [
        | inl (same', new') ↦ same ∙ sym same'
        | inr (other', had') ↦ absurd (not_behind q i new other' had')
      ]
      | inr (other, had) ↦ elim (renamed-cases j k f q i e') [
        | inl (same', new') ↦ absurd (not_behind p i new' other had)
        | inr (other', had') ↦ s.single p q i had had'
      ]
    ];
  }
    where
      -- Nothing else is behind the temporary file.
      not_behind : (q : Text) (i : ℕ) → k ≡ i → (q =ₜ temp j) ≡ false → f.names q ≡ some i → ⊥
      not_behind q i new other had =
          let same = s.single q (temp j) i had (there ∙ ap some new) in
          ground (arith, (text_eq_iff q (temp j)).1 same)
