-- ===== src/Tests/Outbox.antt =====
-- The broker sender at concrete inputs, with the toy primitives of the receiver's tests.
use cmpe272_finaltest_assesm.Prelude.{
  ℕ, zero, suc, ◌+◌, ◌≡◌, refl, [], ◌∷◌, ◌++◌, some, arith, text_eq_refl, ==_refl, length,
  replicate, length-replicate,
}
use cmpe272_finaltest_assesm.Result.{ok, err, broker_error}
use cmpe272_finaltest_assesm.Exec.{Exec}
use cmpe272_finaltest_assesm.Bytes.{Bytes, be, to_bytes8}
use cmpe272_finaltest_assesm.Bytes.Hex.{IsOctets}
use cmpe272_finaltest_assesm.Text.{codes, decimal, padded8}
use cmpe272_finaltest_assesm.Envelope.{IsCorrect, chunk_key, chunk_nonce, chunk_aad}
use cmpe272_finaltest_assesm.Json.{item, find_field}
use cmpe272_finaltest_assesm.Receiver.Manifest.{Plan, find_record}
use cmpe272_finaltest_assesm.Receiver.Opening.{open_chunk}
use cmpe272_finaltest_assesm.Sender.State.{TransferState, Sending, no_state}
use cmpe272_finaltest_assesm.Sender.Sealing.{chunk_record, seal_chunk, sender_key}
use cmpe272_finaltest_assesm.Sender.Chunks.{Client}
use cmpe272_finaltest_assesm.Sender.Count.{chunk_count, to_float}
use cmpe272_finaltest_assesm.Sender.Send.{Outbox}
use cmpe272_finaltest_assesm.Sender.Sealed.{open_chunk-seal_chunk}
use cmpe272_finaltest_assesm.Sender.Agreed.{plan_of-sender_key}
use cmpe272_finaltest_assesm.Tests.Inbox.{
  toy_digest, toy, id, plain, ciphertext, manifest, setting, plan, planned,
}

toy_digest-size : (bs : Bytes) → length (toy_digest bs) ≡ 32
toy_digest-size [] = refl
toy_digest-size (b ∷ bs) = length-replicate 32 (b + length bs)

octets : (n : ℕ) → IsOctets (replicate n 6)
octets zero = tt
octets (suc n) = (omega arith, octets n)

pub toy-IsCorrect : IsCorrect toy
toy-IsCorrect = record {
  agree = λ a b. (replicate 32 7, refl, refl);
  signs = λ k m. text_eq_refl (k ++ m);
  decrypts = λ k n p a. rw (==_refl (length a)) refl;
  public_size = λ k. refl;
  public_octets = λ k. octets 32;
  digest_size = toy_digest-size;
}

-- The plan of the receiver's tests, with the record that the sender writes.
abbrev sent_plan : Plan
sent_plan = record plan { records = (0, chunk_record 0 plain ciphertext toy) ∷ [] }

open_chunk-seal_chunk_example : open_chunk setting id sent_plan 0 ≡ ok plain
unfolding seal_chunk chunk_nonce chunk_aad to_bytes8 be find_record chunk_key padded8 decimal
open_chunk-seal_chunk_example =
    open_chunk-seal_chunk setting id sent_plan 0 plain
      (ciphertext, chunk_record 0 plain ciphertext toy) toy-IsCorrect (omega arith) (omega arith)
      refl refl refl

abbrev pub sending : Sending
sending = record {
  crypto = toy;
  dumps = λ v. 4 ∷ [];
  signing_key = 9 ∷ [];
  receiver_pub = replicate 32 6;
  file_name = codes "f";
  now = 1000;
  random_id = 0 ∷ 255 ∷ [];
  random_key = 3 ∷ [];
}

abbrev pub state : TransferState
state = record { transfer_id = id; created_at = 1000; file_size = 3; ephemeral_key = 3 ∷ [] }

plan_of-sender_key_example :
    let told = record sending {
      crypto = setting.crypto;
      receiver_pub = setting.crypto.x25519_public setting.receiver_key;
    } in
    (sender_key told state (0 ∷ 255 ∷ []) ≡ ok plan.key) × (plan.transfer_id ≡ 0 ∷ 255 ∷ [])
unfolding item find_field
plan_of-sender_key_example =
    plan_of-sender_key setting sending state (0 ∷ 255 ∷ []) manifest plan toy-IsCorrect refl planned

-- A broker that is gone after some requests, given by its state.
abbrev request : {A : Type 0} → A → Exec ℕ A
request a zero = (err broker_error, zero)
request a (suc n) = (ok a, n)

abbrev flaky : Client ℕ
flaky = record { put = λ k bs. request tt; list = λ prefix. request [] }

abbrev outbox : Outbox ℕ
outbox = record { file = some plain; state_file = no_state; remote = 2 }

-- One byte more than 2 ^ 53, which the float drops, is in no chunk.
rounded_down : chunk_count 9007199254740993 ≡ 8589934592
unfolding chunk_count to_float
rounded_down = refl

rounded_up : chunk_count 9007199255789567 ≡ 8589934593
unfolding chunk_count to_float
rounded_up = refl
