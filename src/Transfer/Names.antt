-- ===== src/Transfer/Names.antt =====
-- The names of the blobs of one transfer are different.
use cmpe272_finaltest_assesm.Prelude.{
  ℕ, ◌≡◌, refl, ap, sym, ◌∙◌, false, [], ◌∷◌, ◌++◌, arith, ◌=ₜ◌, text_eq_iff, length, Bool-cases,
  inl, inr, ◌<◌, drop-append_self, drop,
}
use cmpe272_finaltest_assesm.Bytes.{Text, u64_mod}
use cmpe272_finaltest_assesm.Text.{codes, padded8}
use cmpe272_finaltest_assesm.Text.Decimal.{padded8_injective}
use cmpe272_finaltest_assesm.Envelope.{manifest_key, signature_key, chunk_key}

pub data Blob : Type 0 where
  manifest signature : Blob
  chunk : ℕ → Blob

abbrev pub name_of : Text → Blob → Text
name_of id manifest = manifest_key id
name_of id signature = signature_key id
name_of id (chunk i) = chunk_key id i

-- The indices that a chunk can have.
abbrev pub IsSmall : Blob → Type 0
IsSmall manifest = Unit
IsSmall signature = Unit
IsSmall (chunk i) = i < u64_mod

-- The letter behind the slash.
abbrev letter : Text → ℕ
letter [] = 0
letter (c ∷ []) = 0
letter (c ∷ d ∷ s) = d

pub append_cancel : (xs ys zs : Text) → xs ++ ys ≡ xs ++ zs → ys ≡ zs
append_cancel xs ys zs e =
    sym (drop-append_self xs ys (length xs) refl)
    ∙ ap (drop (length xs)) e
    ∙ drop-append_self xs zs (length xs) refl

name_of_injective : (id : Text) (b b' : Blob) → name_of id b ≡ name_of id b' → b ≡ b'
unfolding manifest_key signature_key chunk_key
name_of_injective id manifest manifest e = refl
name_of_injective id manifest signature e = cc (append_cancel id _ _ e)
name_of_injective id manifest (chunk i) e =
    absurd (omega (arith, ap letter (append_cancel id _ _ e)))
name_of_injective id signature manifest e = cc (append_cancel id _ _ e)
name_of_injective id signature signature e = refl
name_of_injective id signature (chunk i) e =
    absurd (omega (arith, ap letter (append_cancel id _ _ e)))
name_of_injective id (chunk i) manifest e =
    absurd (omega (arith, ap letter (append_cancel id _ _ e)))
name_of_injective id (chunk i) signature e =
    absurd (omega (arith, ap letter (append_cancel id _ _ e)))
name_of_injective id (chunk i) (chunk j) e = ap chunk (
    padded8_injective i j
      (append_cancel (codes "/chunk_") (padded8 i) (padded8 j) (append_cancel id _ _ e)))

-- Different blobs have different names.
pub name_of-ne : (id : Text) (b b' : Blob) → (b ≡ b' → ⊥) → (name_of id b =ₜ name_of id b') ≡ false
name_of-ne id b b' other = elim (Bool-cases (name_of id b =ₜ name_of id b')) [
  | inl same ↦
      absurd
        (other (name_of_injective id b b' ((text_eq_iff (name_of id b) (name_of id b')).0 same)))
  | inr ne ↦ ne
]
