-- ===== src/Broker/Every.antt =====
-- Lists of texts that all have a property.
use cmpe272_finaltest_assesm.Prelude.{
  ◌≡◌, refl, true, some, List, [], ◌∷◌, ◌++◌, arith, ◌=ₜ◌, text_eq_refl, text_eq_iff, Bool-cases,
  inl, inr,
}
use cmpe272_finaltest_assesm.Bytes.{Text}
use cmpe272_finaltest_assesm.Text.{text_le}
use cmpe272_finaltest_assesm.Dict.{Dict, lookup, keys}
use cmpe272_finaltest_assesm.Receiver.State.{contains_text}
use cmpe272_finaltest_assesm.Broker.Storage.{insert_sorted, sorted}

-- Every text of the list has the property.
pub data Every (P : Text → Type 0) : List Text → Type 0 where
  nil : Every P []
  cons : {k : Text} {l : List Text} → P k → Every P l → Every P (k ∷ l)

module _ {P : Text → Type 0} where
  pub Every-append : {l m : List Text} → Every P l → Every P m → Every P (l ++ m)
  Every-append nil k = k
  Every-append (cons h hs) k = cons h (Every-append hs k)

  Every-insert_sorted : (k : Text) (l : List Text) → P k → Every P l → Every P (insert_sorted k l)
  unfolding insert_sorted
  Every-insert_sorted k [] h hs = cons h nil
  Every-insert_sorted k (j ∷ l) h (cons g gs) = elim (Bool-cases (text_le k j)) [
    | inl le ↦ rw le (cons h (cons g gs))
    | inr gt ↦ rw gt (cons g (Every-insert_sorted k l h gs))
  ]

  pub Every-sorted : (l : List Text) → Every P l → Every P (sorted l)
  unfolding sorted
  Every-sorted [] nil = nil
  Every-sorted (k ∷ l) (cons h hs) = Every-insert_sorted k (sorted l) h (Every-sorted l hs)

  pub Every-contains_text : (l : List Text) (k : Text) → Every P l → contains_text l k ≡ true → P k
  unfolding contains_text
  Every-contains_text [] k nil h = cc
  Every-contains_text (j ∷ l) k (cons p ps) h = elim (Bool-cases (j =ₜ k)) [
    | inl same ↦ rw ((text_eq_iff j k).0 same) at p
    | inr other ↦ Every-contains_text l k ps (ground arith)
  ]

pub Every-weaken :
    {P Q : Text → Type 0} {l : List Text} → ((k : Text) → P k → Q k) → Every P l → Every Q l
Every-weaken le nil = nil
Every-weaken le (cons {k} h hs) = cons (le k h) (Every-weaken le hs)

-- The names of a directory.
abbrev pub Has : {V : Type 0} → Dict V → Text → Type 0
Has {V} d k = (v : V) × (lookup k d ≡ some v)

pub keys-Has : {V : Type 0} (d : Dict V) → Every (Has d) (keys d)
unfolding lookup
keys-Has [] = nil
keys-Has ((j, v) ∷ d) =
    cons (v, rw (text_eq_refl j) refl) (Every-weaken (λ k h. behind j v d k h) (keys-Has d))
  where
    behind : {V : Type 0} (j : Text) (v : V) (d : Dict V) (k : Text) → Has d k → Has ((j, v) ∷ d) k
    behind j v d k (w, e) = elim (Bool-cases (j =ₜ k)) [
      | inl same ↦ (v, rw same refl)
      | inr other ↦ (w, rw other e)
    ]
