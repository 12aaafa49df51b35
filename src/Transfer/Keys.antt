-- ===== src/Transfer/Keys.antt =====
-- The names of the blobs of a transfer are legal keys of the broker, and none is another's temporary
-- file.
use cmpe272_finaltest_assesm.Prelude.{
  ℕ, ◌≡◌, refl, ap, sym, ◌∙◌, Bool, true, false, [], ◌∷◌, ◌++◌, append_assoc, arith, ◌=ₜ◌,
  text_eq_iff, Bool-cases, inl, inr, drop,
}
use cmpe272_finaltest_assesm.Result.{ok}
use cmpe272_finaltest_assesm.Bytes.{Text}
use cmpe272_finaltest_assesm.Text.{codes, padded8}
use cmpe272_finaltest_assesm.Text.Digits.{Digits, nil, cons, padded8-Digits, length-padded8}
use cmpe272_finaltest_assesm.Envelope.{manifest_key, signature_key, chunk_key}
use cmpe272_finaltest_assesm.Broker.Key.{
  is_namespace_char, is_name_char, in_bounds, has_dotdot, safe_path,
}
use cmpe272_finaltest_assesm.Broker.Confined.{all, avoids}
use cmpe272_finaltest_assesm.Broker.Legal.{
  all-append, all_weaken, all-avoids, dotdot_free, safe_path_legal,
}
use cmpe272_finaltest_assesm.Transfer.Names.{
  Blob, manifest, signature, chunk, name_of, IsSmall, append_cancel,
}

-- What stands behind the slash.
abbrev pub file_of : Blob → Text
file_of manifest = codes "manifest"
file_of signature = codes "manifest.sig"
file_of (chunk i) = codes "chunk_" ++ padded8 i

pub name_of-file_of : (id : Text) (b : Blob) → name_of id b ≡ id ++ b'/' ∷ file_of b
unfolding manifest_key signature_key chunk_key
name_of-file_of id manifest = refl
name_of-file_of id signature = refl
name_of-file_of id (chunk i) = refl

Digits-chars : {s : Text} → Digits s → all is_namespace_char s ≡ true
unfolding all
Digits-chars nil = refl
Digits-chars (cons h hs) = ground (arith, Digits-chars hs)

chunk_chars : (i : ℕ) → all is_namespace_char (file_of (chunk i)) ≡ true
chunk_chars i =
    all-append is_namespace_char (codes "chunk_") (padded8 i) (unfold all in refl)
      (Digits-chars (padded8-Digits i))

pub file_chars : (b : Blob) → all is_name_char (file_of b) ≡ true
unfolding all
file_chars manifest = refl
file_chars signature = refl
file_chars (chunk i) =
    all_weaken is_namespace_char is_name_char (file_of (chunk i)) (λ c h. ground arith)
      (chunk_chars i)

pub file_size : (b : Blob) → IsSmall b → in_bounds (file_of b) ≡ true
file_size manifest h = refl
file_size signature h = refl
file_size (chunk i) h = ground (arith, length-padded8 i h)

file_dots : (b : Blob) → has_dotdot (file_of b) ≡ false
unfolding has_dotdot avoids
file_dots manifest = refl
file_dots signature = refl
file_dots (chunk i) =
    dotdot_free (file_of (chunk i))
      (all-avoids is_namespace_char b'.' (file_of (chunk i)) refl (chunk_chars i))

-- An id as `secrets.token_hex` makes them, and any other that is a legal namespace.
pub record IsTransferId (id : Text) : Type 0 where
  pub id_chars : all is_namespace_char id ≡ true
  pub id_size : in_bounds id ≡ true

pub safe_path-name_of :
    (id : Text) (b : Blob)
    → IsTransferId id
    → IsSmall b
    → safe_path (name_of id b) ≡ ok (id, file_of b)
safe_path-name_of id b t h =
    ap safe_path (name_of-file_of id b)
    ∙ safe_path_legal id (file_of b) t.id_chars t.id_size (file_chars b) (file_size b h)
        (file_dots b)

pub not_dot : (b : Blob) → (file_of b =ₜ codes ".") ≡ false
not_dot manifest = refl
not_dot signature = refl
not_dot (chunk i) = refl

has_dot : (s : Text) → avoids b'.' (s ++ codes ".tmp") ≡ false
unfolding avoids
has_dot [] = refl
has_dot (c ∷ s) = ground (arith, has_dot s)

true_ne_false : {b : Bool} → b ≡ true → b ≡ false → ⊥
true_ne_false h k = cc

not_tmp : (b b' : Blob) → file_of b ++ codes ".tmp" ≡ file_of b' → ⊥
not_tmp b manifest e =
    true_ne_false (ap (avoids b'.') e ∙ (unfold avoids in refl)) (has_dot (file_of b))
not_tmp b (chunk i) e =
    true_ne_false
      (ap (avoids b'.') e
        ∙ all-avoids is_namespace_char b'.' (file_of (chunk i)) refl (chunk_chars i))
      (has_dot (file_of b))
not_tmp manifest signature e = true_ne_false ((text_eq_iff _ _).1 e) refl
not_tmp signature signature e = true_ne_false ((text_eq_iff _ _).1 e) refl
not_tmp (chunk i) signature e = true_ne_false ((text_eq_iff _ _).1 e) refl

-- No blob of a transfer is stored where a PUT of another writes its temporary file.
pub name_of_tmp :
    (id : Text) (b b' : Blob) → ((name_of id b ++ codes ".tmp") =ₜ name_of id b') ≡ false
name_of_tmp id b b' = elim (Bool-cases ((name_of id b ++ codes ".tmp") =ₜ name_of id b')) [
  | inr ne ↦ ne
  | inl same ↦
      let e = (text_eq_iff (name_of id b ++ codes ".tmp") (name_of id b')).0 same in
      let whole : id ++ (b'/' ∷ file_of b ++ codes ".tmp") ≡ id ++ b'/' ∷ file_of b' =
        sym (append_assoc id (b'/' ∷ file_of b) (codes ".tmp"))
        ∙ ap (λ s. s ++ codes ".tmp") (sym (name_of-file_of id b))
        ∙ e
        ∙ name_of-file_of id b' in
      absurd (not_tmp b b' (ap (drop 1) (append_cancel id _ _ whole)))
]
