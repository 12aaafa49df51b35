-- ===== src/Tests/Inbox.antt =====
-- The broker receiver at concrete inputs: one transfer of one chunk, with toy primitives.
use cmpe272_finaltest_assesm.Prelude.{
  ℕ, zero, suc, ◌<◌, ◌+◌, ◌≡◌, refl, [], ◌∷◌, ◌++◌, true, false, none, some, Option, arith, ◌=ₜ◌,
  ◌==◌, if◌then◌else◌, length, replicate,
}
use cmpe272_finaltest_assesm.Result.{Result, Error, ok, err, value_error, verification_error}
use cmpe272_finaltest_assesm.Bytes.{Bytes, Text, be, hex, from_hex, to_bytes8}
use cmpe272_finaltest_assesm.Text.{codes, decimal, padded8}
use cmpe272_finaltest_assesm.Util.{write_at, sha256_file}
use cmpe272_finaltest_assesm.Envelope.{
  Crypto, manifest_version, manifest_key, signature_key, chunk_key, chunk_nonce, chunk_aad,
  derive_chunk_key,
}
use cmpe272_finaltest_assesm.Json.{
  Value, num, str, arr, obj, nil, cons, end, field, find_field, item, get, is_text, as_int, is_int,
  elements,
}
use cmpe272_finaltest_assesm.Receiver.State.{
  Files, Setting, no_progress, progress, no_ledger, ledger, contains, contains_text, add, add_text,
  load_ledger, load_progress, save_progress, record_completed,
}
use cmpe272_finaltest_assesm.Receiver.Manifest.{
  Plan, resolve_transfer_id, to_int, check_fresh, fetch_signed, fetch_verified_manifest,
  find_record, put_record, index_records, has_all, is_complete, plan_of,
}
use cmpe272_finaltest_assesm.Receiver.Opening.{open_chunk}
use cmpe272_finaltest_assesm.Receiver.Chunks.{write_chunk, do_chunk, chunk_loop}
use cmpe272_finaltest_assesm.Receiver.Receive.{resume, promote, verify_whole, receive_file, receive}
use cmpe272_finaltest_assesm.Receiver.Authentic.{IsAuthentic, fetch_verified_manifest-IsAuthentic}
use cmpe272_finaltest_assesm.Receiver.Run.{IsReached, Outcome, only_verified, no_second_delivery}
use cmpe272_finaltest_assesm.Receiver.Stuck.{damaged_part_stays}

-- A ciphertext is the length of its associated data before the plaintext.
abbrev pub open_toy : Bytes → Bytes → Option Bytes
open_toy [] aad = none
open_toy (t ∷ plain) aad = if t == length aad then some plain else none

abbrev pub toy_digest : Bytes → Bytes
toy_digest [] = replicate 32 0
toy_digest (b ∷ bs) = replicate 32 (b + length bs)

abbrev pub toy : Crypto
toy = record {
  sha256 = toy_digest;
  hkdf = λ n salt info secret. replicate n 5;
  x25519_public = λ k. replicate 32 6;
  x25519_exchange = λ k p. some (replicate 32 7);
  ed25519_public = λ k. k;
  ed25519_sign = λ k m. k ++ m;
  ed25519_verify = λ k sig m. sig =ₜ (k ++ m);
  aead_encrypt = λ k n p a. length a ∷ p;
  aead_decrypt = λ k n c a. open_toy c a;
}

abbrev pub id : Text
id = codes "00ff"

abbrev pub plain : Bytes
plain = 1 ∷ 2 ∷ 3 ∷ []

abbrev pub ciphertext : Bytes
ciphertext = 18 ∷ plain

abbrev chunk_record : Value
chunk_record = obj (
    field (codes "index") (num 0) (
      field (codes "ciphertext_sha256") (str (hex (toy_digest ciphertext)))
        (field (codes "plaintext_len") (num 3) end)))

abbrev pub manifest : Value
manifest = obj (
    field (codes "version") (str manifest_version) (
      field (codes "transfer_id") (str id) (
        field (codes "created_at") (num 1000) (
          field (codes "total_chunks") (num 1) (
            field (codes "file_size") (num 3) (
              field (codes "plaintext_sha256") (str (hex (toy_digest plain))) (
                field (codes "ephemeral_x25519_pub") (str (hex (replicate 32 6))) (
                  field (codes "filename") (str (codes "f"))
                    (field (codes "chunks") (arr (cons chunk_record nil)) end)))))))))

abbrev toy_loads : Bytes → Result Value
toy_loads [] = err value_error
toy_loads (b ∷ bs) = ok manifest

-- What an honest broker has.
abbrev fetch : Text → Option Bytes
fetch key =
    if key =ₜ codes "00ff/manifest"
    then some (4 ∷ [])
    else if key =ₜ codes "00ff/manifest.sig"
    then some (9 ∷ 4 ∷ [])
    else if key =ₜ codes "00ff/chunk_00000000"
    then some ciphertext
    else none

abbrev pub setting : Setting
setting = record {
  crypto = toy;
  loads = toy_loads;
  broker_get = λ key. ok (fetch key);
  broker_list = λ prefix. ok (codes "00ff/manifest" ∷ []);
  verify_key = 9 ∷ [];
  receiver_key = 6 ∷ [];
  given_id = some id;
  allow_redeliver = false;
  parse_int = λ t. err value_error;
  now = 1010;
}

abbrev empty : Files
empty = record { part = none; progress_file = no_progress; out = none; ledger_file = no_ledger }

only_verified_example : Outcome setting empty (receive setting empty)
only_verified_example = only_verified setting empty

fetched : fetch_verified_manifest setting id [] ≡ ok manifest
unfolding fetch_verified_manifest fetch_signed check_fresh to_int item get find_field is_text as_int
    contains_text manifest_key signature_key
fetched = refl

fetch_verified_manifest-IsAuthentic_example : IsAuthentic setting id [] manifest
fetch_verified_manifest-IsAuthentic_example =
    fetch_verified_manifest-IsAuthentic setting id [] manifest fetched

resolved : resolve_transfer_id setting ≡ ok id
unfolding resolve_transfer_id
resolved = refl

abbrev pub plan : Plan
plan = record {
  total_chunks = 1;
  records = (0, chunk_record) ∷ [];
  transfer_id = 0 ∷ 255 ∷ [];
  key = replicate 32 5;
}

pub planned : plan_of setting (0 ∷ 255 ∷ []) manifest ≡ ok plan
unfolding plan_of item find_field as_int elements index_records put_record is_complete has_all
    find_record from_hex derive_chunk_key hex
planned = refl

received :
    (f : Files)
    → load_ledger f.ledger_file ≡ []
    → receive setting f ≡ receive_file setting id manifest plan f
unfolding receive from_hex
received f unseen = ground (arith, unseen, resolved, fetched, planned)

delivered : (receive setting empty).0 ≡ ok 0
unfolding receive_file resume chunk_loop do_chunk open_chunk write_chunk verify_whole promote
    record_completed save_progress load_progress load_ledger add add_text contains contains_text
    find_record item find_field is_text as_int is_int chunk_nonce chunk_aad to_bytes8 chunk_key
    padded8 decimal hex be write_at sha256_file
delivered = rw (received empty refl) refl

-- The second run.
no_second_delivery_example :
    let f' = (receive setting empty).1 in (x : Error) × (receive setting f' ≡ (err x, f'))
no_second_delivery_example =
    no_second_delivery setting setting empty id resolved delivered refl resolved

abbrev known : Files
known = record empty { ledger_file = ledger (id ∷ []) }

-- Two of the three bytes are not as they were sent, and the progress is complete.
abbrev spoiled : Files
spoiled = record empty { part = some (9 ∷ 2 ∷ 4 ∷ []); progress_file = progress id (0 ∷ []) }

spoiled-IsReached : IsReached setting spoiled id manifest plan
unfolding load_ledger
spoiled-IsReached = record {
  resolved = resolved;
  checked = fetched;
  same_run = received spoiled refl;
}

all_done : (j : ℕ) → j < 1 → contains (0 ∷ []) j ≡ true
unfolding contains
all_done zero h = refl
all_done (suc j) h = absurd (omega arith)

damaged_part_stays_example : receive setting spoiled ≡ (err verification_error, spoiled)
unfolding item find_field is_text hex
damaged_part_stays_example =
    damaged_part_stays setting id manifest plan (9 ∷ 2 ∷ 4 ∷ []) 0 [] (num 3)
      (str (hex (toy_digest plain))) spoiled spoiled-IsReached refl refl all_done refl refl refl
