-- ===== src/Receiver/Manifest.antt =====
-- `_resolve_transfer_id` and `_fetch_verified_manifest` of receiver.py, and what `receive` reads from
-- the manifest.
use cmpe272_finaltest_assesm.Prelude.{
  ℕ, zero, suc, ◌+◌, Bool, true, false, not, ◌&&◌, Option, none, some, List, [], ◌∷◌, ltb, leb,
  ◌==◌, length, if◌then◌else◌,
}
use cmpe272_finaltest_assesm.Result.{
  Result, ok, err, value_error, type_error, verification_error, guard, ◌>>=◌, ◌>>◌,
}
use cmpe272_finaltest_assesm.Bytes.{Bytes, Text, from_hex}
use cmpe272_finaltest_assesm.Text.{codes, ends_with, split1}
use cmpe272_finaltest_assesm.Envelope.{
  manifest_version, freshness_window_s, clock_skew_s, manifest_key, signature_key, derive_chunk_key,
}
use cmpe272_finaltest_assesm.Json.{
  Value, Items, nil, cons, str, item, get, is_text, as_int, or_type_error, elements,
}
use cmpe272_finaltest_assesm.Receiver.State.{Setting, contains_text, add_text}

-- The namespaces that hold a manifest, each once.
unfoldable pub manifest_ids : List Text → List Text
manifest_ids [] = []
manifest_ids (k ∷ l) =
    let rest = manifest_ids l in
    if ends_with k (codes "/manifest") then add_text (split1 b'/' k).0 rest else rest

abbrev pub only_id : List Text → Result Text
only_id [] = err verification_error
only_id (id ∷ []) = ok id
only_id (id ∷ id' ∷ l) = err verification_error

abbrev pub is_given : Option Text → Option Text
is_given none = none
is_given (some []) = none
is_given (some (c ∷ s)) = some (c ∷ s)

unfoldable pub resolve_transfer_id : Setting → Result Text
resolve_transfer_id s =
    let listed = s.broker_list [] >>= λ names. only_id (manifest_ids names) in
    elim (is_given s.given_id) [ some id ↦ ok id | none ↦ listed ]

-- `None` is a verification error here, with a message.
abbrev pub present : Option Bytes → Result Bytes
present none = err verification_error
present (some bs) = ok bs

-- `int(value)`
unfoldable pub to_int : Setting → Value → Result ℕ
to_int s (str t) = s.parse_int t
to_int s v = or_type_error (as_int v)

-- The age is `now - created_at`, which may be negative: `age > window` and `age < -skew`.
unfoldable pub check_fresh : Setting → Text → List Text → ℕ → Result (Unit {0})
check_fresh s id seen created_at = do
  guard (leb s.now (created_at + freshness_window_s)) verification_error
  guard (leb created_at (s.now + clock_skew_s)) verification_error
  guard (not (contains_text seen id)) verification_error

-- The bytes are fetched, both of them before either is looked at.
unfoldable pub fetch_signed : Setting → Text → Result Bytes
fetch_signed s id = do
  found ← s.broker_get (manifest_key id)
  found_signature ← s.broker_get (signature_key id)
  manifest_bytes ← present found
  signature ← present found_signature
  guard (s.crypto.ed25519_verify s.verify_key signature manifest_bytes) verification_error
  ok manifest_bytes

unfoldable pub fetch_verified_manifest : Setting → Text → List Text → Result Value
fetch_verified_manifest s id seen = do
  manifest_bytes ← fetch_signed s id
  manifest ← s.loads manifest_bytes
  version ← get manifest (codes "version")
  guard (is_text version manifest_version) verification_error
  named ← get manifest (codes "transfer_id")
  guard (is_text named id) verification_error
  created ← item manifest (codes "created_at")
  created_at ← to_int s created
  if s.allow_redeliver then ok tt else check_fresh s id seen created_at
  item manifest (codes "total_chunks")
  item manifest (codes "file_size")
  ok manifest

-- `records`: a later record of the same index takes the place of an earlier one.
abbrev pub Records : Type 0
Records = List (ℕ × Value)

unfoldable pub find_record : ℕ → Records → Option Value
find_record i [] = none
find_record i ((j, r) ∷ l) = if j == i then some r else find_record i l

unfoldable pub put_record : ℕ → Value → Records → Records
put_record i r [] = (i, r) ∷ []
put_record i r ((j, q) ∷ l) = if j == i then (i, r) ∷ l else (j, q) ∷ put_record i r l

unfoldable pub index_records : Items → Records → Result Records
index_records nil records = ok records
index_records (cons r rs) records = do
  index ← item r (codes "index")
  i ← or_type_error (as_int index)
  index_records rs (put_record i r records)

abbrev pub all_below : Records → ℕ → Bool
all_below [] n = true
all_below ((i, r) ∷ l) n = ltb i n && all_below l n

abbrev pub is_some : Option Value → Bool
is_some none = false
is_some (some v) = true

unfoldable pub has_all : ℕ → Records → Bool
has_all zero records = true
has_all (suc n) records = is_some (find_record n records) && has_all n records

-- `len(records) == n and set(records) == set(range(n))`
unfoldable pub is_complete : Records → ℕ → Bool
is_complete records n = length records == n && (all_below records n && has_all n records)

abbrev pub or_verification_error : Option ℕ → Result ℕ
or_verification_error none = err verification_error
or_verification_error (some n) = ok n

-- What the manifest says that is needed for the chunks.
pub record Plan : Type 0 where
  pub total_chunks : ℕ
  pub records : Records
  pub transfer_id : Bytes
  pub key : Bytes

abbrev pub or_value_error : Option Bytes → Result Bytes
or_value_error none = err value_error
or_value_error (some bs) = ok bs

abbrev pub text_of : Value → Result Text
text_of (str s) = ok s
text_of v = err type_error

-- The middle of `receive`: the chunk list is checked, and the key is derived.
unfoldable pub plan_of : Setting → Bytes → Value → Result Plan
plan_of s transfer_id manifest = do
  total ← item manifest (codes "total_chunks")
  listed ← item manifest (codes "chunks")
  items ← elements listed
  records ← index_records items []
  n ← or_verification_error (as_int total)
  guard (is_complete records n) verification_error
  ephemeral ← item manifest (codes "ephemeral_x25519_pub")
  hex ← text_of ephemeral
  ephemeral_pub_raw ← from_hex hex
  guard (length ephemeral_pub_raw == 32) value_error
  let receiver_pub_raw = s.crypto.x25519_public s.receiver_key
  shared ← or_value_error (s.crypto.x25519_exchange s.receiver_key ephemeral_pub_raw)
  ok (record {
    total_chunks = n;
    records = records;
    transfer_id = transfer_id;
    key = derive_chunk_key s.crypto shared transfer_id ephemeral_pub_raw receiver_pub_raw;
  })
