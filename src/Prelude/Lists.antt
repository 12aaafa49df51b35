-- ===== src/Prelude/Lists.antt =====
-- Lists measured and cut by native numbers, under the library's names.
use Prim.Native.Nat.{ℕ, zero, suc, ◌+◌, ◌-◌, ◌≤◌, min}
use mathlib.Core.Path.{◌≡◌, refl, ap, sym, ◌∙◌}
use mathlib.Core.List.{List, [], ◌∷◌, ◌++◌}
use mathlib.Core.Option.{Option, none, some}
use native.Mathlib.Omega.{arith}

module _ {ℓ} {A : Type ℓ} where
  abbrev pub length : List A → ℕ
  length [] = 0
  length (x ∷ xs) = suc (length xs)

  abbrev pub get_elem? : List A → ℕ → Option A
  get_elem? [] i = none
  get_elem? (x ∷ xs) zero = some x
  get_elem? (x ∷ xs) (suc i) = get_elem? xs i

  abbrev pub take : ℕ → List A → List A
  take zero xs = []
  take (suc n) [] = []
  take (suc n) (x ∷ xs) = x ∷ take n xs

  abbrev pub drop : ℕ → List A → List A
  drop zero xs = xs
  drop (suc n) [] = []
  drop (suc n) (x ∷ xs) = drop n xs

  abbrev pub replicate : ℕ → A → List A
  replicate zero a = []
  replicate (suc n) a = a ∷ replicate n a

  pub length-append : (xs ys : List A) → length (xs ++ ys) ≡ length xs + length ys
  length-append [] ys = omega arith
  length-append (x ∷ xs) ys = omega (arith, length-append xs ys)

  pub take-append-drop : (n : ℕ) (xs : List A) → take n xs ++ drop n xs ≡ xs
  take-append-drop zero xs = refl
  take-append-drop (suc n) [] = refl
  take-append-drop (suc n) (x ∷ xs) = ap (λ ys. x ∷ ys) (take-append-drop n xs)

  pub length-take : (n : ℕ) (xs : List A) → length (take n xs) ≡ min n (length xs)
  length-take zero xs = omega arith
  length-take (suc n) [] = omega arith
  length-take (suc n) (x ∷ xs) = omega (arith, length-take n xs)

  pub length-drop : (n : ℕ) (xs : List A) → length (drop n xs) ≡ length xs - n
  length-drop zero xs = omega arith
  length-drop (suc n) [] = omega arith
  length-drop (suc n) (x ∷ xs) = omega (arith, length-drop n xs)

  pub length-replicate : (n : ℕ) (a : A) → length (replicate n a) ≡ n
  length-replicate zero a = refl
  length-replicate (suc n) a = ap suc (length-replicate n a)

  -- Past the end there is nothing to cut off.
  pub take_all : (n : ℕ) (xs : List A) → length xs ≤ n → take n xs ≡ xs
  take_all zero [] h = refl
  take_all zero (x ∷ xs) h = elim h [ ]
  take_all (suc n) [] h = refl
  take_all (suc n) (x ∷ xs) h = ap (λ ys. x ∷ ys) (take_all n xs (omega arith))

  pub drop_all : (n : ℕ) (xs : List A) → length xs ≤ n → drop n xs ≡ []
  drop_all zero [] h = refl
  drop_all zero (x ∷ xs) h = elim h [ ]
  drop_all (suc n) [] h = refl
  drop_all (suc n) (x ∷ xs) h = drop_all n xs (omega arith)

  -- Cutting a concatenation inside its first part, or past it.
  pub take-append_le : (n : ℕ) (xs ys : List A) → n ≤ length xs → take n (xs ++ ys) ≡ take n xs
  take-append_le zero xs ys h = refl
  take-append_le (suc n) [] ys h = elim h [ ]
  take-append_le (suc n) (x ∷ xs) ys h = ap (λ zs. x ∷ zs) (take-append_le n xs ys (omega arith))

  pub drop-append_le :
      (n : ℕ) (xs ys : List A) → n ≤ length xs → drop n (xs ++ ys) ≡ drop n xs ++ ys
  drop-append_le zero xs ys h = refl
  drop-append_le (suc n) [] ys h = elim h [ ]
  drop-append_le (suc n) (x ∷ xs) ys h = drop-append_le n xs ys (omega arith)

module _ {ℓ} {A : Type ℓ} where
  pub take-append_self : (xs ys : List A) (n : ℕ) → n ≡ length xs → take n (xs ++ ys) ≡ xs
  take-append_self [] ys zero h = refl
  take-append_self [] ys (suc n) h = absurd (omega arith)
  take-append_self (x ∷ xs) ys zero h = absurd (omega arith)
  take-append_self (x ∷ xs) ys (suc n) h =
      ap (λ zs. x ∷ zs) (take-append_self xs ys n (omega arith))

  pub drop-append_self : (xs ys : List A) (n : ℕ) → n ≡ length xs → drop n (xs ++ ys) ≡ ys
  drop-append_self [] ys zero h = refl
  drop-append_self [] ys (suc n) h = absurd (omega arith)
  drop-append_self (x ∷ xs) ys zero h = absurd (omega arith)
  drop-append_self (x ∷ xs) ys (suc n) h = drop-append_self xs ys n (omega arith)

  -- Two cuts in a row are one; `m` is named apart, since `i + j` does not compute.
  pub take-append-take :
      (i j m : ℕ) (xs : List A) → i + j ≡ m → take i xs ++ take j (drop i xs) ≡ take m xs
  take-append-take zero j zero xs e = take_nothing j xs (omega arith)
    where
      take_nothing : (j : ℕ) (xs : List A) → j ≡ 0 → take j xs ≡ []
      take_nothing zero xs e = refl
      take_nothing (suc j) xs e = absurd (omega arith)
  take-append-take zero j (suc m) xs e = ap (λ k. take k xs) e'
    where
      e' : j ≡ suc m
      e' = omega arith
  take-append-take (suc i) j zero xs e = absurd (omega arith)
  take-append-take (suc i) zero (suc m) [] e = refl
  take-append-take (suc i) (suc j) (suc m) [] e = refl
  take-append-take (suc i) j (suc m) (x ∷ xs) e =
      ap (λ zs. x ∷ zs) (take-append-take i j m xs (omega arith))

  pub drop-drop : (i j m : ℕ) (xs : List A) → i + j ≡ m → drop j (drop i xs) ≡ drop m xs
  drop-drop zero j m xs e = ap (λ k. drop k xs) e'
    where
      e' : j ≡ m
      e' = omega arith
  drop-drop (suc i) j zero xs e = absurd (omega arith)
  drop-drop (suc i) zero (suc m) [] e = refl
  drop-drop (suc i) (suc j) (suc m) [] e = refl
  drop-drop (suc i) j (suc m) (x ∷ xs) e = drop-drop i j m xs (omega arith)

  pub take-append_ge :
      (n : ℕ) (xs ys : List A) → length xs ≤ n → take n (xs ++ ys) ≡ xs ++ take (n - length xs) ys
  take-append_ge n [] ys h = ap (λ k. take k ys) (omega arith)
  take-append_ge zero (x ∷ xs) ys h = elim h [ ]
  take-append_ge (suc n) (x ∷ xs) ys h =
      ap (λ zs. x ∷ zs)
        (take-append_ge n xs ys (omega arith) ∙ ap (λ k. xs ++ take k ys) (omega arith))

  pub take_nil : (n : ℕ) → take {A = A} n [] ≡ []
  take_nil zero = refl
  take_nil (suc n) = refl

module _ {ℓ} {A : Type ℓ} where
  -- A block of `n`, then what is left of `m` behind the block that came.
  pub take-append_block :
      (n m : ℕ) (xs : List A)
      → n ≤ m
      → take n xs ++ take (m - length (take n xs)) (drop n xs) ≡ take m xs
  take-append_block zero m xs h = ap (λ k. take k xs) (omega arith)
  take-append_block (suc n) m [] h = take_nil (m - 0) ∙ sym (take_nil m)
  take-append_block (suc n) zero (x ∷ xs) h = elim h [ ]
  take-append_block (suc n) (suc m) (x ∷ xs) h =
      ap (λ zs. x ∷ zs)
        (ap (λ k. take n xs ++ take k (drop n xs)) (omega arith)
          ∙ take-append_block n m xs (omega arith))
