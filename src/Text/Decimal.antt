-- ===== src/Text/Decimal.antt =====
-- Decimal formatting is read back, padded or not, so different numbers have different texts.
use cmpe272_finaltest_assesm.Prelude.{
  ℕ, zero, suc, ◌+◌, ◌-◌, ◌*◌, ◌/◌, ◌%◌, ◌≤◌, ◌<◌, ◌≡◌, refl, ap, sym, ◌∙◌, [], ◌∷◌, ◌++◌, arith,
  ltb, ltb→lt, Bool-cases, inl, inr, length, replicate,
}
use cmpe272_finaltest_assesm.Bytes.{Text}
use cmpe272_finaltest_assesm.Text.{decimal, str, padded8}

-- The number that a text of digits stands for, after `acc`.
unfoldable pub value : ℕ → Text → ℕ
value acc [] = acc
value acc (c ∷ s) = value (acc * 10 + (c - 48)) s

value-append : (acc : ℕ) (s : Text) (c : ℕ) → value acc (s ++ c ∷ []) ≡ value acc s * 10 + (c - 48)
unfolding value
value-append acc [] c = refl
value-append acc (x ∷ s) c = value-append (acc * 10 + (x - 48)) s c

value-decimal : (fuel n : ℕ) → n < fuel → value 0 (decimal fuel n) ≡ n
unfolding decimal
value-decimal zero n h = elim h [ ]
value-decimal (suc fuel) n h = elim (Bool-cases (ltb n 10)) [
  | inl small ↦ rw small (unfold value in ground (arith, ltb→lt n 10 small))
  | inr large ↦
      let ge : 10 ≤ n = ground arith in
      rw
        (
          large,
          value-append 0 (decimal fuel (n / 10)) (48 + n % 10),
          value-decimal fuel (n / 10) (omega arith),
        )
        (omega arith)
]

value-zeros : (k : ℕ) (s : Text) → value 0 (replicate k 48 ++ s) ≡ value 0 s
unfolding value
value-zeros zero s = refl
value-zeros (suc k) s = value-zeros k s

value-padded8 : (n : ℕ) → value 0 (padded8 n) ≡ n
unfolding padded8
value-padded8 n = value-zeros (8 - length (str n)) (str n) ∙ value-decimal (suc n) n (omega arith)

pub padded8_injective : (m n : ℕ) → padded8 m ≡ padded8 n → m ≡ n
padded8_injective m n e = sym (value-padded8 m) ∙ ap (value 0) e ∙ value-padded8 n
