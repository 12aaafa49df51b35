-- ===== src/Transfer/Records.antt =====
-- The chunk list of a manifest that the sender made, as the receiver indexes it.
use cmpe272_finaltest_assesm.Prelude.{
  ℕ, zero, suc, ◌+◌, ◌≤◌, ◌<◌, ◌≡◌, refl, ◌∙◌, true, false, some, [], ◌∷◌, arith, ◌==◌, ==_refl,
  length, Bool-cases, ◌⊎◌, inl, inr, if◌then◌else◌,
}
use cmpe272_finaltest_assesm.Result.{ok}
use cmpe272_finaltest_assesm.Bytes.{Bytes, hex}
use cmpe272_finaltest_assesm.Text.{codes, text_le}
use cmpe272_finaltest_assesm.Envelope.{Crypto}
use cmpe272_finaltest_assesm.Json.{Value, num, str, item, find_field, as_int}
use cmpe272_finaltest_assesm.Json.Canonical.{
  canonical, canonical_items, sorted_fields, insert_field,
}
use cmpe272_finaltest_assesm.Receiver.Manifest.{
  Records, find_record, put_record, index_records, all_below, has_all, is_complete,
}
use cmpe272_finaltest_assesm.Transfer.Store.{piece, sealed, record_of, records_from}

length-put_record :
    (n m : ℕ) (r : Value) (l : Records)
    → m ≤ n
    → all_below l m ≡ true
    → length (put_record n r l) ≡ suc (length l)
unfolding put_record
length-put_record n m r [] h below = refl
length-put_record n m r ((i, q) ∷ l) h below = ground (arith, length-put_record n m r l h)

all_below-put_record :
    (n : ℕ) (r : Value) (l : Records)
    → all_below l n ≡ true
    → all_below (put_record n r l) (n + 1) ≡ true
unfolding put_record
all_below-put_record n r [] below = ground arith
all_below-put_record n r ((i, q) ∷ l) below = ground (arith, all_below-put_record n r l)

find_record-put_record :
    (n i : ℕ) (r : Value) (l : Records)
    → find_record i (put_record n r l) ≡ (if n == i then some r else find_record i l)
unfolding find_record put_record
find_record-put_record n i r [] = refl
find_record-put_record n i r ((j, q) ∷ l) = ground (arith, find_record-put_record n i r l)

module _ (c : Crypto) (key tid : Bytes) (total : ℕ) (file : Bytes) where
  -- The record of a chunk, as it is read back.
  unfoldable pub read_record : ℕ → Value
  read_record i = canonical (record_of c key tid total file i)

  pub read_record-index : (i : ℕ) → item (read_record i) (codes "index") ≡ ok (num i)
  unfolding read_record record_of canonical sorted_fields insert_field text_le item find_field
  read_record-index i = refl

  pub read_record-digest :
      (i : ℕ)
      → item (read_record i) (codes "ciphertext_sha256")
        ≡ ok (str (hex (c.sha256 (sealed c key tid total file i))))
  unfolding read_record record_of canonical sorted_fields insert_field text_le item find_field
  read_record-digest i = refl

  pub read_record-size :
      (i : ℕ) → item (read_record i) (codes "plaintext_len") ≡ ok (num (length (piece file i)))
  unfolding read_record record_of canonical sorted_fields insert_field text_le item find_field
  read_record-size i = refl

  -- The first `n` chunks have their records, and nothing else has one.
  pub record IsIndexed (n : ℕ) (l : Records) : Type 0 where
    pub counted : length l ≡ n
    pub below : all_below l n ≡ true
    pub known : (i : ℕ) → i < n → find_record i l ≡ some (read_record i)

  put_record-IsIndexed :
      (n : ℕ) (l : Records) → IsIndexed n l → IsIndexed (n + 1) (put_record n (read_record n) l)
  put_record-IsIndexed n l x = record {
    counted =
        omega (arith, length-put_record n n (read_record n) l (omega arith) x.below, x.counted);
    below = all_below-put_record n (read_record n) l x.below;
    known = λ i h. find_record-put_record n i (read_record n) l ∙ known i h (Bool-cases (n == i));
  }
    where
      known :
          (i : ℕ)
          → i < n + 1
          → (((n == i) ≡ true) ⊎ ((n == i) ≡ false))
          → (if n == i then some (read_record n) else find_record i l) ≡ some (read_record i)
      known i h (inl same) = let e : n ≡ i = ground arith in rw e (rw (==_refl i) refl)
      known i h (inr other) = let lt : i < n = ground arith in rw other (x.known i lt)

  IsIndexed-at : (m n : ℕ) (l : Records) → m ≡ n → IsIndexed m l → IsIndexed n l
  IsIndexed-at m n l e x = rw (← e) x

  index_records_lem :
      (rounds index : ℕ) (l : Records)
      → IsIndexed index l
      → (l' : Records) × (index_records
            (canonical_items (records_from c key tid total file rounds index))
            l
          ≡ ok l')
        × IsIndexed (index + rounds) l'
  unfolding index_records canonical records_from read_record as_int
  index_records_lem zero index l x = (l, refl, IsIndexed-at index (index + 0) l (omega arith) x)
  index_records_lem (suc rounds) index l x =
      let (l', e, x') =
        index_records_lem rounds (index + 1) (put_record index (read_record index) l)
          (put_record-IsIndexed index l x) in
      (
        l',
        rw (read_record-index index) e,
        IsIndexed-at (index + 1 + rounds) (index + suc rounds) l' (omega arith) x',
      )

  has_all-known :
      (n m : ℕ) (l : Records)
      → n ≤ m
      → ((i : ℕ) → i < m → find_record i l ≡ some (read_record i))
      → has_all n l ≡ true
  unfolding has_all
  has_all-known zero m l h known = refl
  has_all-known (suc n) m l h known =
      rw (known n (omega arith)) (has_all-known n m l (omega arith) known)

  -- The chunk list of the manifest is complete.
  pub records_lem :
      (l : Records) × (index_records
          (canonical_items (records_from c key tid total file total 0))
          []
        ≡ ok l)
      × (is_complete l total ≡ true)
      × ((i : ℕ) → i < total → find_record i l ≡ some (read_record i))
  unfolding is_complete
  records_lem =
      let none_yet : IsIndexed 0 [] = record {
        counted = refl;
        below = refl;
        known = λ i h. absurd (omega arith);
      } in
      let (l, e, x) = index_records_lem total 0 [] none_yet in
      let x' = IsIndexed-at (0 + total) total l (omega arith) x in
      (
        l,
        e,
        rw (x'.counted, x'.below, ==_refl total)
            (has_all-known total total l (omega arith) x'.known),
        x'.known,
      )
