-- ===== src/Receiver/Authentic.antt =====
-- What a manifest has been checked for when `_fetch_verified_manifest` returns it.
use cmpe272_finaltest_assesm.Prelude.{
  ℕ, ◌+◌, ◌≤◌, ◌≡◌, refl, ap, sym, ◌∙◌, Bool, true, false, Option, none, some, List, ◌⊎◌, inl, inr,
  arith, Bool-cases, if◌then◌else◌,
}
use cmpe272_finaltest_assesm.Result.{ok, Error, verification_error, guard, >>=-eq-ok}
use cmpe272_finaltest_assesm.Bytes.{Bytes, Text}
use cmpe272_finaltest_assesm.Text.{codes}
use cmpe272_finaltest_assesm.Envelope.{
  manifest_version, freshness_window_s, clock_skew_s, manifest_key, signature_key,
}
use cmpe272_finaltest_assesm.Json.{Value, item, get, is_text}
use cmpe272_finaltest_assesm.Receiver.State.{Setting, contains_text}
use cmpe272_finaltest_assesm.Receiver.Manifest.{
  to_int, present, check_fresh, fetch_signed, fetch_verified_manifest,
}

-- The manifest is recent, and its transfer is not in the ledger.
pub record IsFresh (s : Setting) (id : Text) (seen : List Text) (created_at : ℕ) : Type 0 where
  pub not_old : s.now ≤ created_at + freshness_window_s
  pub not_future : created_at ≤ s.now + clock_skew_s
  pub not_seen : contains_text seen id ≡ false

-- The manifest was signed with the key of the sender, is of this version and transfer, and is fresh
-- unless a second delivery is allowed.
pub record IsAuthentic (s : Setting) (id : Text) (seen : List Text) (m : Value) : Type 0 where
  pub manifest_bytes : Bytes
  pub signature : Bytes
  pub fetched : s.broker_get (manifest_key id) ≡ ok (some manifest_bytes)
  pub fetched_signature : s.broker_get (signature_key id) ≡ ok (some signature)
  pub signed : s.crypto.ed25519_verify s.verify_key signature manifest_bytes ≡ true
  pub parsed : s.loads manifest_bytes ≡ ok m
  pub version :
      (v : Option Value) × (get m (codes "version") ≡ ok v) × (is_text v manifest_version ≡ true)
  pub named : (v : Option Value) × (get m (codes "transfer_id") ≡ ok v) × (is_text v id ≡ true)
  pub created : Value
  pub created_at : ℕ
  pub dated : (item m (codes "created_at") ≡ ok created) × (to_int s created ≡ ok created_at)
  pub fresh : (s.allow_redeliver ≡ true) ⊎ IsFresh s id seen created_at

guard-true : (b : Bool) (e : Error) (u : Unit {0}) → guard b e ≡ ok u → b ≡ true
guard-true true e u h = refl
guard-true false e u h = cc

present-some : (o : Option Bytes) (bs : Bytes) → present o ≡ ok bs → o ≡ some bs
present-some none bs h = cc
present-some (some c) bs h = ground arith

pub check_fresh_sound :
    (s : Setting) (id : Text) (seen : List Text) (created_at : ℕ)
    → check_fresh s id seen created_at ≡ ok tt
    → IsFresh s id seen created_at
unfolding check_fresh
check_fresh_sound s id seen created_at h = record {
  not_old = ground arith;
  not_future = ground arith;
  not_seen = ground arith;
}

fetch_signed_sound :
    (s : Setting) (id : Text) (mb : Bytes)
    → fetch_signed s id ≡ ok mb
    → (sig : Bytes) × (s.broker_get (manifest_key id) ≡ ok (some mb))
      × (s.broker_get (signature_key id) ≡ ok (some sig))
      × (s.crypto.ed25519_verify s.verify_key sig mb ≡ true)
unfolding fetch_signed
fetch_signed_sound s id mb h =
    let (found, e0, h0) = >>=-eq-ok (s.broker_get (manifest_key id)) _ h in
    let (found_sig, e1, h1) = >>=-eq-ok (s.broker_get (signature_key id)) _ h0 in
    let (bs, e2, h2) = >>=-eq-ok (present found) _ h1 in
    let (sig, e3, h3) = >>=-eq-ok (present found_sig) _ h2 in
    let (u, e4, h4) =
      >>=-eq-ok (guard (s.crypto.ed25519_verify s.verify_key sig bs) verification_error) _ h3 in
    let same : bs ≡ mb = cc in
    let signed = guard-true _ verification_error u e4 in
    (
      sig,
      e0 ∙ ap ok (present-some found bs e2 ∙ ap some same),
      e1 ∙ ap ok (present-some found_sig sig e3),
      sym (ap (λ b. s.crypto.ed25519_verify s.verify_key sig b) same) ∙ signed,
    )

IsFresh-of :
    (s : Setting) (id : Text) (seen : List Text) (created_at : ℕ) {u : Unit {0}}
    → (if s.allow_redeliver then ok tt else check_fresh s id seen created_at) ≡ ok u
    → (s.allow_redeliver ≡ true) ⊎ IsFresh s id seen created_at
IsFresh-of s id seen created_at h = elim (Bool-cases s.allow_redeliver) [
  | inl allowed ↦ inl allowed
  | inr strict ↦ inr (check_fresh_sound s id seen created_at (ground (arith, strict)))
]

-- A manifest that is returned was fetched with a signature that verifies with the sender's key, parses
-- to what is returned, has this version and the id that was asked for, and, unless a second delivery
-- is allowed, is neither too old nor in the future, nor is its id in the ledger.
pub fetch_verified_manifest-IsAuthentic :
    (s : Setting) (id : Text) (seen : List Text) (m : Value)
    → fetch_verified_manifest s id seen ≡ ok m
    → IsAuthentic s id seen m
unfolding fetch_verified_manifest
fetch_verified_manifest-IsAuthentic s id seen m h =
    let (mb, e0, h0) = >>=-eq-ok (fetch_signed s id) _ h in
    let (sig, got, got_sig, verified) = fetch_signed_sound s id mb e0 in
    let (m', e1, h1) = >>=-eq-ok (s.loads mb) _ h0 in
    let (v, e2, h2) = >>=-eq-ok (get m' (codes "version")) _ h1 in
    let (u3, e3, h3) = >>=-eq-ok (guard (is_text v manifest_version) verification_error) _ h2 in
    let (n, e4, h4) = >>=-eq-ok (get m' (codes "transfer_id")) _ h3 in
    let (u5, e5, h5) = >>=-eq-ok (guard (is_text n id) verification_error) _ h4 in
    let (c, e6, h6) = >>=-eq-ok (item m' (codes "created_at")) _ h5 in
    let (at, e7, h7) = >>=-eq-ok (to_int s c) _ h6 in
    let (u8, e8, h8) =
      >>=-eq-ok (if s.allow_redeliver then ok tt else check_fresh s id seen at) _ h7 in
    let (t, e9, h9) = >>=-eq-ok (item m' (codes "total_chunks")) _ h8 in
    let (z, e10, h10) = >>=-eq-ok (item m' (codes "file_size")) _ h9 in
    let same : m' ≡ m = cc in
    rw (← same) (record {
      manifest_bytes = mb;
      signature = sig;
      fetched = got;
      fetched_signature = got_sig;
      signed = verified;
      parsed = e1;
      version = (v, e2, guard-true _ verification_error u3 e3);
      named = (n, e4, guard-true _ verification_error u5 e5);
      created = c;
      created_at = at;
      dated = (e6, e7);
      fresh = IsFresh-of s id seen at e8;
    })
