-- ===== src/Result.antt =====
-- Python's exceptions as values.
use cmpe272_finaltest_assesm.Prelude.{Bool, ◌≡◌, refl, ◌⊎◌, inl, inr, if◌then◌else◌}

-- The exceptions that the code raises or that its calls may raise. `diverged` is no exception:
-- it marks a loop whose fuel ran out.
pub data Error : Type 0 where
  connection_error os_error io_error struct_error overflow_error : Error
  value_error key_error type_error : Error
  broker_error verification_error exited diverged : Error

pub data Result {ℓ} (A : Type ℓ) : Type ℓ where
  ok : A → Result A
  err : Error → Result A

-- An exception skips what follows it.
infixl 5 ◌>>=◌ ◌>>◌
abbrev pub ◌>>=◌ {ℓ κ} : {A : Type ℓ} {B : Type κ} → Result A → (A → Result B) → Result B
err raised >>= next = err raised
ok value >>= next = next value

abbrev pub ◌>>◌ {ℓ κ} : {A : Type ℓ} {B : Type κ} → Result A → Result B → Result B
first >> second = first >>= λ _. second

abbrev pub guard : Bool → Error → Result (Unit {0})
guard b e = if b then ok tt else err e

-- A chain that succeeds has a first step that succeeds.
pub >>=-eq-ok {ℓ κ} :
    {A : Type ℓ} {B : Type κ} (first : Result A) (next : A → Result B) {result : B}
    → first >>= next ≡ ok result
    → (value : A) × (first ≡ ok value) × (next value ≡ ok result)
>>=-eq-ok (err raised) next done = cc
>>=-eq-ok (ok value) next done = (value, refl, done)

-- To split on a result, and keep the equation.
pub Result-cases {ℓ} :
    {A : Type ℓ} (r : Result A) → ((a : A) × (r ≡ ok a)) ⊎ ((e : Error) × (r ≡ err e))
Result-cases (ok a) = inl (a, refl)
Result-cases (err e) = inr (e, refl)
