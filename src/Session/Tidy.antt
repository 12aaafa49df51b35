-- ===== src/Session/Tidy.antt =====
-- What a storage has to be like for its blobs to come through: names in ASCII without newlines, and
-- sizes that a frame can have.
use cmpe272_finaltest_assesm.Prelude.{
  ℕ, ◌≤◌, ◌<◌, ◌≡◌, refl, ap, Bool, true, ◌&&◌, ◌||◌, some, [], ◌∷◌, ◌++◌, arith, ltb, ◌==◌, ◌=ₜ◌,
  text_eq_iff, Bool-cases, inl, inr, length, length-append,
}
use cmpe272_finaltest_assesm.Bytes.{Bytes, Text, u64_mod}
use cmpe272_finaltest_assesm.Broker.Key.{is_namespace_char, is_name_char}
use cmpe272_finaltest_assesm.Broker.Storage.{Storage, read_file, store_blob}
use cmpe272_finaltest_assesm.Broker.Command.{Codec}
use cmpe272_finaltest_assesm.Broker.Confined.{all, avoids, namespace_avoids}
use cmpe272_finaltest_assesm.Broker.Legal.{all-append, all_weaken, all-avoids}
use cmpe272_finaltest_assesm.Broker.Blobs.{store_blob_lem}
use cmpe272_finaltest_assesm.Transfer.Names.{Blob, name_of, IsSmall}
use cmpe272_finaltest_assesm.Transfer.Keys.{
  file_of, name_of-file_of, file_chars, file_size, IsTransferId, not_dot,
}

abbrev pub is_ascii : ℕ → Bool
is_ascii x = ltb x 128

-- UTF-8 leaves ASCII as it is.
pub record IsUtf8 (c : Codec) : Type 0 where
  pub encode_ascii : (t : Text) → all is_ascii t ≡ true → c.encode t ≡ t
  pub decode_ascii : (t : Text) → all is_ascii t ≡ true → c.decode t ≡ t

-- A file whose key can be listed, and whose content can be sent.
pub record IsTidyFile (ns name : Text) (bs : Bytes) : Type 0 where
  pub ns_flat : avoids b'/' ns ≡ true
  pub key_ascii : all is_ascii (ns ++ b'/' ∷ name) ≡ true
  pub key_line : avoids b'\n' (ns ++ b'/' ∷ name) ≡ true
  pub size : length bs < u64_mod

abbrev pub IsTidy : Storage → Type 0
IsTidy fs = (ns name : Text) (bs : Bytes) → read_file ns name fs ≡ some bs → IsTidyFile ns name bs

-- The characters of a key, the slash included.
abbrev is_key_char : ℕ → Bool
is_key_char x = is_name_char x || x == b'/'

module _ (id : Text) (t : IsTransferId id) (b : Blob) where
  key_chars : all is_key_char (id ++ b'/' ∷ file_of b) ≡ true
  key_chars =
      all-append is_key_char id (b'/' ∷ file_of b)
        (all_weaken is_namespace_char is_key_char id (λ x h. ground arith) t.id_chars)
        (all-append is_key_char (b'/' ∷ []) (file_of b) (unfold all in refl)
          (all_weaken is_name_char is_key_char (file_of b) (λ x h. ground arith) (file_chars b)))

  pub own_ascii : all is_ascii (id ++ b'/' ∷ file_of b) ≡ true
  own_ascii =
      all_weaken is_key_char is_ascii (id ++ b'/' ∷ file_of b) (λ x h. ground arith) key_chars

  own_tidy : (bs : Bytes) → length bs < u64_mod → IsTidyFile id (file_of b) bs
  own_tidy bs h = record {
    ns_flat = namespace_avoids id t.id_chars;
    key_ascii = own_ascii;
    key_line = all-avoids is_key_char b'\n' (id ++ b'/' ∷ file_of b) refl key_chars;
    size = h;
  }

  pub key_small : IsSmall b → length (name_of id b) ≤ 257
  key_small h =
      let id_short : length id ≤ 128 = ground (arith, t.id_size) in
      let file_short : length (file_of b) ≤ 128 = ground (arith, file_size b h) in
      omega (arith, ap length (name_of-file_of id b), length-append {0} id (b'/' ∷ file_of b))

module _ (id : Text) (t : IsTransferId id) (b : Blob) (bs : Bytes) (fs : Storage) where
  -- A PUT of a blob of a transfer leaves the storage tidy.
  pub store_blob-IsTidy :
      length bs < u64_mod → IsTidy fs → IsTidy (store_blob id (file_of b) bs fs).1
  store_blob-IsTidy size tidy ns name bs' e =
      let after = (store_blob_lem id (file_of b) bs fs ns name (not_dot b)).1 in
      elim (Bool-cases (id =ₜ ns && file_of b =ₜ name)) [
        | inl own ↦
            let same : (id ≡ ns) × (file_of b ≡ name) =
              ground (arith, text_eq_iff id ns, text_eq_iff (file_of b) name) in
            let new : bs ≡ bs' = ground (arith, after) in
            rw (← same.0, ← same.1, ← new) (own_tidy id t b bs size)
        | inr other ↦ tidy ns name bs' (ground (arith, after))
      ]
