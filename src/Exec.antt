-- ===== src/Exec.antt =====
-- Code that changes a state and may raise, as Python methods do.
use cmpe272_finaltest_assesm.Prelude.{◌≡◌, refl, ap, ◌⊎◌, inl, inr}
use cmpe272_finaltest_assesm.Result.{Error, Result, ok, err}

-- A raise keeps the state that was reached: what was written stays written.
abbrev pub Exec : Type 0 → Type 0 → Type 0
Exec S A = S → Result A × S

module _ {S A : Type 0} where
  abbrev pub pure : A → Exec S A
  pure a s = (ok a, s)

  abbrev pub raise : Error → Exec S A
  raise e s = (err e, s)

  abbrev pub lift : Result A → Exec S A
  lift r s = (r, s)

  abbrev pub gets : (S → A) → Exec S A
  gets f s = (ok (f s), s)

abbrev pub modify : {S : Type 0} → (S → S) → Exec S Unit
modify f s = (ok tt, f s)

infixl 5 ◌>>=◌ ◌>>◌
abbrev pub ◌>>=◌ : {S A B : Type 0} → Exec S A → (A → Exec S B) → Exec S B
◌>>=◌ m f s = let (r, s') = m s in elim r [ ok a ↦ f a s' | err e ↦ (err e, s') ]

abbrev pub ◌>>◌ : {S A B : Type 0} → Exec S A → Exec S B → Exec S B
m >> k = m >>= λ _. k

-- Running a chain whose first action is known.
module _ {S A B : Type 0} (m : Exec S A) (f : A → Exec S B) {s s' : S} where
  pub bind-ok : {a : A} → m s ≡ (ok a, s') → (m >>= f) s ≡ f a s'
  bind-ok e = ap (λ (p : Result A × S). elim p.0 [ ok a ↦ f a p.1 | err e ↦ (err e, p.1) ]) e

  pub bind-err : {e : Error} → m s ≡ (err e, s') → (m >>= f) s ≡ (err e, s')
  bind-err e = ap (λ (p : Result A × S). elim p.0 [ ok a ↦ f a p.1 | err e ↦ (err e, p.1) ]) e

-- To split on what an action did, and keep the equation.
pub outcome-cases :
    {S A : Type 0} (o : Result A × S)
    → ((a : A) × (s : S) × (o ≡ (ok a, s))) ⊎ ((e : Error) × (s : S) × (o ≡ (err e, s)))
outcome-cases (ok a, s) = inl (a, s, refl)
outcome-cases (err e, s) = inr (e, s, refl)
