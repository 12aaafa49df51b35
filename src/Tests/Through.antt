-- ===== src/Tests/Through.antt =====
-- One transfer from the broker's sender to its receiver, over a broker that is a mapping, after a run
-- of the sender that was interrupted behind its only chunk.
use cmpe272_finaltest_assesm.Prelude.{
  ℕ, zero, suc, ◌<◌, ◌≡◌, refl, [], ◌∷◌, none, some, Option, arith, inr, ◌=ₜ◌, if◌then◌else◌,
  length, replicate, true, false, ◌||◌,
}
use cmpe272_finaltest_assesm.Result.{Result, ok, err, value_error}
use cmpe272_finaltest_assesm.Bytes.{Bytes, Text, from_hex, u64_mod, be, to_bytes8}
use cmpe272_finaltest_assesm.Text.{codes, decimal, padded8}
use cmpe272_finaltest_assesm.Dict.{Dict, lookup, insert, keys, lookup-insert}
use cmpe272_finaltest_assesm.Envelope.{derive_chunk_key, chunk_nonce, chunk_aad, chunk_key}
use cmpe272_finaltest_assesm.Json.{Value}
use cmpe272_finaltest_assesm.Json.Canonical.{canonical}
use cmpe272_finaltest_assesm.Receiver.State.{
  Files, Setting, no_progress, no_ledger, ledger, add_text, contains_text, load_ledger,
  load_progress,
}
use cmpe272_finaltest_assesm.Receiver.Manifest.{resolve_transfer_id}
use cmpe272_finaltest_assesm.Receiver.Receive.{receive}
use cmpe272_finaltest_assesm.Sender.Count.{chunk_count, to_float}
use cmpe272_finaltest_assesm.Sender.State.{Sending, saved, load_or_create_state}
use cmpe272_finaltest_assesm.Sender.Sealing.{sender_key}
use cmpe272_finaltest_assesm.Sender.Chunks.{Client}
use cmpe272_finaltest_assesm.Sender.Send.{Outbox, send}
use cmpe272_finaltest_assesm.Transfer.Names.{chunk, name_of}
use cmpe272_finaltest_assesm.Transfer.Store.{piece, sealed}
use cmpe272_finaltest_assesm.Transfer.Promise.{IsStore}
use cmpe272_finaltest_assesm.Transfer.Upload.{sent_manifest, sent_bytes}
use cmpe272_finaltest_assesm.Transfer.Steps.{told, paired}
use cmpe272_finaltest_assesm.Transfer.EndToEnd.{CanSend, CanReceive, receive-send}
use cmpe272_finaltest_assesm.Tests.Inbox.{toy, id, plain, setting}
use cmpe272_finaltest_assesm.Tests.Outbox.{toy-IsCorrect, sending, state}

abbrev Blobs : Type 0
Blobs = Dict Bytes

abbrev shelf : Client Blobs
shelf = record { put = λ k bs r. (ok tt, insert k bs r); list = λ prefix r. (ok (keys r), r) }

abbrev find : Text → Blobs → Option Bytes
find k r = lookup k r

abbrev IsGood : Blobs → Type 0
IsGood r = Unit

shelf-IsStore : IsStore shelf find IsGood id
shelf-IsStore = record {
  stored = λ b bs r h size good. refl;
  kept_good = λ b bs r h size good. tt;
  found = λ b b' bs r h h' size good. lookup-insert (name_of id b) (name_of id b') bs r;
}

listed_key :
    (k : Text) (r : Blobs) → contains_text (keys r) k ≡ true → (bs : Bytes) × (lookup k r ≡ some bs)
unfolding contains_text lookup
listed_key k [] h = cc
listed_key k ((j, bs) ∷ r) h =
    elim (j =ₜ k)
        as (λ t.
          (t || contains_text (keys r) k) ≡ true
          → (cs : Bytes) × ((if t then some bs else lookup k r) ≡ some cs)) [
            | true ↦ λ h. (bs, refl)
            | false ↦ λ h. listed_key k r h
          ]
      h

abbrev pub tid : Bytes
tid = 0 ∷ 255 ∷ []

abbrev pub key : Bytes
key = replicate 32 5

abbrev one_chunk : Blobs
one_chunk = (codes "00ff/chunk_00000000", 18 ∷ plain) ∷ []

abbrev outbox : Outbox Blobs
outbox = record { file = some plain; state_file = saved state; remote = one_chunk }

abbrev pub instructed : Sending
instructed = told sending setting

abbrev loads : Bytes → Result Value
loads bs =
    if bs =ₜ (4 ∷ [])
    then ok (canonical (sent_manifest instructed state plain tid key))
    else err value_error

-- The broker answers the receiver with what the sender left.
abbrev pub serving : Setting
serving = record setting {
  loads = loads;
  broker_get = λ k. ok (lookup k (send shelf instructed outbox).1.remote);
}

abbrev pub nothing : Files
nothing = record { part = none; progress_file = no_progress; out = none; ledger_file = no_ledger }

pub chunk_fits : (i : ℕ) → i < 1 → length (sealed toy key tid 1 plain i) < u64_mod
unfolding sealed piece
chunk_fits zero h = omega arith
chunk_fits (suc i) h = absurd (omega arith)

pub sealed_chunk : sealed toy key tid 1 plain 0 ≡ 18 ∷ plain
unfolding sealed piece chunk_aad to_bytes8 be chunk_nonce
sealed_chunk = refl

ours :
    (i : ℕ) (bs : Bytes)
    → i < 1
    → lookup (name_of id (chunk i)) one_chunk ≡ some bs
    → bs ≡ sealed toy key tid 1 plain i
unfolding lookup chunk_key padded8 decimal
ours zero bs h e = ground (arith, sealed_chunk)
ours (suc i) bs h e = absurd (omega arith)

ready : CanSend shelf find sending serving state plain tid key IsGood shelf-IsStore outbox
unfolding chunk_count to_float load_or_create_state from_hex sender_key derive_chunk_key sent_bytes
ready = record {
  there = refl;
  loaded = refl;
  can = record {
    size_fits = omega arith;
    count_fits = omega arith;
    chunks_fit = chunk_fits;
    manifest_fits = omega arith;
    signature_fits = omega arith;
  };
  good = tt;
  id_read = refl;
  derived = refl;
  ours = ours;
  listing = record {
    names = keys one_chunk;
    answered = refl;
    listed_there = λ b h old. listed_key (name_of id b) one_chunk old;
  };
}

wanted :
    CanReceive shelf find sending serving state plain tid key IsGood shelf-IsStore
      (send shelf instructed outbox).1.remote
      nothing
unfolding resolve_transfer_id load_ledger load_progress contains_text sent_bytes
wanted = record {
  resolved = refl;
  fresh = inr (record { not_old = omega arith; not_future = omega arith; not_seen = refl });
  clean = refl;
  answers = λ b h. refl;
  parses = refl;
}

receive-send_example :
    ((send shelf instructed outbox).0 ≡ ok 0)
    × ((receive (paired sending serving) nothing).0 ≡ ok 0)
    × ((receive (paired sending serving) nothing).1 ≡ record {
      part = none;
      progress_file = no_progress;
      out = some plain;
      ledger_file = ledger (add_text id (load_ledger no_ledger));
    })
receive-send_example =
    receive-send shelf find sending serving state plain tid key IsGood shelf-IsStore outbox nothing
      toy-IsCorrect ready wanted
