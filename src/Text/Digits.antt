-- ===== src/Text/Digits.antt =====
-- The characters and the length of a number in decimal.
use cmpe272_finaltest_assesm.Prelude.{
  ℕ, zero, suc, ◌+◌, ◌-◌, ◌*◌, ◌/◌, ◌%◌, ◌≤◌, ◌<◌, ◌≡◌, ap, ◌∙◌, Bool, true, ◌&&◌, [], ◌∷◌, ◌++◌,
  arith, leb, ltb, lt→ltb, Bool-cases, inl, inr, length, length-append, length-replicate, replicate,
}
use cmpe272_finaltest_assesm.Bytes.{Text, u64_mod}
use cmpe272_finaltest_assesm.Text.{decimal, str, padded8}

-- `[0-9]`
abbrev pub is_digit : ℕ → Bool
is_digit c = leb 48 c && leb c 57

-- All characters are digits.
pub data Digits : Text → Type 0 where
  nil : Digits []
  cons : {c : ℕ} {s : Text} → is_digit c ≡ true → Digits s → Digits (c ∷ s)

Digits-append : {s t : Text} → Digits s → Digits t → Digits (s ++ t)
Digits-append nil k = k
Digits-append (cons h hs) k = cons h (Digits-append hs k)

decimal-Digits : (fuel n : ℕ) → Digits (decimal fuel n)
unfolding decimal
decimal-Digits zero n = nil
decimal-Digits (suc fuel) n = elim (Bool-cases (ltb n 10)) [
  | inl small ↦ rw small (cons (ground arith) nil)
  | inr large ↦ rw large (Digits-append (decimal-Digits fuel (n / 10)) (cons (ground arith) nil))
]

pub str-Digits : (n : ℕ) → Digits (str n)
str-Digits n = decimal-Digits (suc n) n

zeros-Digits : (k : ℕ) → Digits (replicate k 48)
zeros-Digits zero = nil
zeros-Digits (suc k) = cons (ground arith) (zeros-Digits k)

pub padded8-Digits : (n : ℕ) → Digits (padded8 n)
unfolding padded8
padded8-Digits n = Digits-append (zeros-Digits (8 - length (str n))) (decimal-Digits (suc n) n)

ten_to : ℕ → ℕ
ten_to zero = 1
ten_to (suc k) = 10 * ten_to k

length-decimal : (k fuel n : ℕ) → n < 10 * ten_to k → length (decimal fuel n) ≤ k + 1
unfolding decimal ten_to
length-decimal k zero n h = omega arith
length-decimal zero (suc fuel) n h = rw (lt→ltb n 10 (omega arith)) (omega arith)
length-decimal (suc k) (suc fuel) n h = ground (
  arith,
  length-append (decimal fuel (n / 10)) ((48 + n % 10) ∷ []),
  length-decimal k fuel (n / 10) (omega arith),
)

padding :
    (s : Text)
    → length s ≤ 20
    → let t = replicate (8 - length s) 48 ++ s in (1 ≤ length t) × (length t ≤ 20)
padding s h =
    let total = length-append (replicate (8 - length s) 48) s in
    let e : length (replicate (8 - length s) 48 ++ s) ≡ 8 - length s + length s =
      total ∙ ap (λ k. k + length s) (length-replicate (8 - length s) 48) in
    (omega arith, omega arith)

-- A 64-bit number has at most twenty digits.
pub length-padded8 : (n : ℕ) → n < u64_mod → (1 ≤ length (padded8 n)) × (length (padded8 n) ≤ 20)
unfolding padded8 ten_to
length-padded8 n h = padding (str n) (length-decimal 19 (suc n) n (omega arith))
