-- ===== src/Broker/Legal.antt =====
-- Which keys are legal: every namespace and name of the right characters and sizes.
use cmpe272_finaltest_assesm.Prelude.{
  ℕ, ◌≡◌, refl, ap, sym, ◌∙◌, Bool, true, false, [], ◌∷◌, ◌++◌, arith, ◌==◌, Bool-cases, inl, inr,
  append-nil,
}
use cmpe272_finaltest_assesm.Result.{ok}
use cmpe272_finaltest_assesm.Bytes.{Text}
use cmpe272_finaltest_assesm.Broker.Key.{
  is_namespace_char, is_name_char, span, in_bounds, key_re_match, has_dotdot, safe_path,
}
use cmpe272_finaltest_assesm.Broker.Confined.{all, avoids, namespace_avoids, split1-append}

module _ (p : ℕ → Bool) where
  span-all : (s : Text) → all p s ≡ true → span p s ≡ (s, [])
  unfolding span all
  span-all [] h = refl
  span-all (c ∷ s) h = ground (arith, span-all s)

  span-append :
      (s t : Text) (c : ℕ) → all p s ≡ true → p c ≡ false → span p (s ++ c ∷ t) ≡ (s, c ∷ t)
  unfolding span all
  span-append [] t c h stops = rw stops refl
  span-append (d ∷ s) t c h stops = ground (arith, span-append s t c)

  pub all-append : (s t : Text) → all p s ≡ true → all p t ≡ true → all p (s ++ t) ≡ true
  unfolding all
  all-append [] t h k = k
  all-append (c ∷ s) t h k = ground (arith, all-append s t)

  pub all_weaken :
      (q : ℕ → Bool) (s : Text)
      → ((c : ℕ) → p c ≡ true → q c ≡ true)
      → all p s ≡ true
      → all q s ≡ true
  unfolding all
  all_weaken q [] le h = refl
  all_weaken q (c ∷ s) le h = ground (arith, le c, all_weaken q s le)

  pub all-avoids : (c : ℕ) (s : Text) → p c ≡ false → all p s ≡ true → avoids c s ≡ true
  unfolding all avoids
  all-avoids c [] out h = refl
  all-avoids c (d ∷ s) out h = elim (Bool-cases (d == c)) [
    | inl same ↦ let e : d ≡ c = ground arith in ground (arith, ap p e)
    | inr other ↦ ground (arith, all-avoids c s)
  ]

-- What stands before the first dot does not matter.
dotdot-append : (s t : Text) → avoids b'.' s ≡ true → has_dotdot (s ++ t) ≡ has_dotdot t
unfolding has_dotdot avoids
dotdot-append [] t h = refl
dotdot-append (c ∷ []) [] h = refl
dotdot-append (c ∷ []) (d ∷ t) h = ground arith
dotdot-append (c ∷ d ∷ s) t h = ground (arith, dotdot-append (d ∷ s) t)

pub dotdot_free : (s : Text) → avoids b'.' s ≡ true → has_dotdot s ≡ false
dotdot_free s h =
    ap has_dotdot (sym (append-nil s)) ∙ dotdot-append s [] h ∙ (unfold has_dotdot in refl)

module _ (ns name : Text) where
  -- The key that consists of a namespace of 1 to 128 letters, digits, `_` and `-`, a slash, and a name
  -- of 1 to 128 such characters and dots, no two dots in a row, is accepted, with these components.
  pub safe_path_legal :
      all is_namespace_char ns ≡ true
      → in_bounds ns ≡ true
      → all is_name_char name ≡ true
      → in_bounds name ≡ true
      → has_dotdot name ≡ false
      → safe_path (ns ++ b'/' ∷ name) ≡ ok (ns, name)
  unfolding safe_path key_re_match
  safe_path_legal chars size name_chars name_size no_dots = ground (
    arith,
    size,
    name_size,
    span-append is_namespace_char ns name b'/' chars refl,
    span-all is_name_char name name_chars,
    dotdot-append ns (b'/' ∷ name) (all-avoids is_namespace_char b'.' ns refl chars),
    dotdot-append (b'/' ∷ []) name (unfold avoids in refl),
    no_dots,
    split1-append b'/' ns name (namespace_avoids ns chars),
  )
