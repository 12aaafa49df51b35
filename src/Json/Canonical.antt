-- ===== src/Json/Canonical.antt =====
-- `canonical_manifest_bytes` of envelope.py prints an object with its keys sorted: the document that a
-- reader of those bytes gets.
use cmpe272_finaltest_assesm.Prelude.{
  ◌≡◌, refl, Option, none, some, arith, ◌=ₜ◌, text_eq_iff, if◌then◌else◌,
}
use cmpe272_finaltest_assesm.Bytes.{Text}
use cmpe272_finaltest_assesm.Text.{text_le, text_le_refl}
use cmpe272_finaltest_assesm.Json.{
  Value, null, bool, num, str, arr, obj, Items, nil, cons, Fields, end, field, find_field,
}

-- A member is put before the first key that is not less.
unfoldable pub insert_field : Text → Value → Fields → Fields
insert_field k v end = field k v end
insert_field k v (field j w fs) =
    if text_le k j then field k v (field j w fs) else field j w (insert_field k v fs)

-- `sort_keys=True`, at every depth
unfoldable mutual
  pub canonical : Value → Value
  canonical null = null
  canonical (bool b) = bool b
  canonical (num n) = num n
  canonical (str s) = str s
  canonical (arr xs) = arr (canonical_items xs)
  canonical (obj fs) = obj (sorted_fields fs)

  pub canonical_items : Items → Items
  canonical_items nil = nil
  canonical_items (cons v xs) = cons (canonical v) (canonical_items xs)

  pub sorted_fields : Fields → Fields
  sorted_fields end = end
  sorted_fields (field k v fs) = insert_field k (canonical v) (sorted_fields fs)

find_field-insert_field :
    (j k : Text) (v : Value) (fs : Fields)
    → find_field j (insert_field k v fs) ≡ (if k =ₜ j then some v else find_field j fs)
unfolding find_field insert_field
find_field-insert_field j k v end = refl
find_field-insert_field j k v (field i w fs) = ground (
  arith,
  text_eq_iff k j,
  text_eq_iff i j,
  text_eq_iff k i,
  text_le_refl k,
  find_field-insert_field j k v fs,
)

abbrev pub canonical_option : Option Value → Option Value
canonical_option none = none
canonical_option (some v) = some (canonical v)

-- A document with sorted keys has the same members, with sorted keys themselves.
pub find_field-sorted_fields :
    (k : Text) (fs : Fields) → find_field k (sorted_fields fs) ≡ canonical_option (find_field k fs)
unfolding find_field sorted_fields
find_field-sorted_fields k end = refl
find_field-sorted_fields k (field j v fs) = ground (
  arith,
  find_field-insert_field k j (canonical v) (sorted_fields fs),
  find_field-sorted_fields k fs,
)
