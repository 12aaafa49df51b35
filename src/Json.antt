-- ===== src/Json.antt =====
-- The values of a JSON document, as `json.loads` returns them, and how the receiver reads them.
-- Numbers are the non-negative integers, the only ones that a sender writes.
pub mod Canonical
use cmpe272_finaltest_assesm.Prelude.{
  ℕ, Bool, true, false, Option, none, some, ◌=ₜ◌, ◌==◌, if◌then◌else◌,
}
use cmpe272_finaltest_assesm.Result.{Result, ok, err, key_error, type_error}
use cmpe272_finaltest_assesm.Bytes.{Text}

mutual
  pub data Value : Type 0 where
    null : Value
    bool : Bool → Value
    num : ℕ → Value
    str : Text → Value
    arr : Items → Value
    obj : Fields → Value

  pub data Items : Type 0 where
    nil : Items
    cons : Value → Items → Items

  pub data Fields : Type 0 where
    end : Fields
    field : Text → Value → Fields → Fields

unfoldable pub find_field : Text → Fields → Option Value
find_field k end = none
find_field k (field j v fs) = if j =ₜ k then some v else find_field k fs

abbrev pub or_key_error : Option Value → Result Value
or_key_error none = err key_error
or_key_error (some v) = ok v

-- `value[key]`
unfoldable pub item : Value → Text → Result Value
item (obj fs) k = or_key_error (find_field k fs)
item v k = err type_error

-- `value.get(key)`; what is no object has no `get`.
unfoldable pub get : Value → Text → Result (Option Value)
get (obj fs) k = ok (find_field k fs)
get v k = err type_error

-- `value == s` for a string `s`, where `value` may be missing
unfoldable pub is_text : Option Value → Text → Bool
is_text (some (str s)) t = s =ₜ t
is_text _ t = false

-- `value == n` for a number `n`: `True` is 1 and `False` is 0.
unfoldable pub as_int : Value → Option ℕ
as_int (num n) = some n
as_int (bool true) = some 1
as_int (bool false) = some 0
as_int v = none

unfoldable pub is_int : Value → ℕ → Bool
is_int v n = elim (as_int v) [ none ↦ false | some m ↦ m == n ]

abbrev pub or_type_error : Option ℕ → Result ℕ
or_type_error none = err type_error
or_type_error (some n) = ok n

-- The elements that a `for` goes through.
unfoldable pub elements : Value → Result Items
elements (arr xs) = ok xs
elements v = err type_error
