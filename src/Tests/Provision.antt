-- ===== src/Tests/Provision.antt =====
-- The key files of approach B, with a PEM text that is the raw key behind a byte for its kind.
use cmpe272_finaltest_assesm.Prelude.{ℕ, ◌≡◌, ◌↔◌, refl, some, [], ◌∷◌, arith, ◌*◌, ◌/◌}
use cmpe272_finaltest_assesm.Result.{Result, ok, err, value_error}
use cmpe272_finaltest_assesm.Bytes.{Bytes}
use cmpe272_finaltest_assesm.Dict.{lookup, insert}
use cmpe272_finaltest_assesm.Envelope.Pem.{Kind, x25519, ed25519, Pem}
use cmpe272_finaltest_assesm.Directory.{Directory, world_readable, IsUmask, mode_of, overwrite}
use cmpe272_finaltest_assesm.Receiver.State.{Setting}
use cmpe272_finaltest_assesm.Session.Honest.{over_wire}
use cmpe272_finaltest_assesm.Session.EndToEnd.{asking}
use cmpe272_finaltest_assesm.Keys.{
  receiver_private, sender_private, gen_keys, send_with_keys, write,
}
use cmpe272_finaltest_assesm.Keys.Modes.{IsKeptPrivate, WasPrivate, private_after-gen_keys}
use cmpe272_finaltest_assesm.Tests.Inbox.{toy}
use cmpe272_finaltest_assesm.Tests.Outbox.{sending}
use cmpe272_finaltest_assesm.Tests.Through.{serving}
use cmpe272_finaltest_assesm.Tests.Wire.{codec, three, wire_outbox}

abbrev kind_byte : Kind → ℕ
kind_byte x25519 = 1
kind_byte ed25519 = 2

abbrev unpacked : Bytes → Result Bytes
unpacked [] = err value_error
unpacked (b ∷ bs) = ok bs

abbrev pem : Pem
pem = record {
  private_bytes = λ kind bs. kind_byte kind ∷ bs;
  public_bytes = λ kind bs. kind_byte kind ∷ bs;
  load_private = unpacked;
  load_public = unpacked;
}

-- umask 077
abbrev strict : ℕ → ℕ
strict mode = mode / 64 * 64

strict-IsUmask : IsUmask strict
strict-IsUmask mode h = omega arith

-- A directory with an old key that everybody may read.
abbrev leftover : Directory
leftover = (sender_private, record { content = 9 ∷ []; mode = world_readable }) ∷ []

abbrev provided : Directory
provided = (gen_keys toy pem strict serving.receiver_key sending.signing_key leftover).1

private_after-gen_keys_example :
    (IsKeptPrivate receiver_private (gen_keys toy pem strict (7 ∷ []) (8 ∷ []) leftover).1
      ↔ WasPrivate receiver_private leftover)
    × (IsKeptPrivate sender_private (gen_keys toy pem strict (7 ∷ []) (8 ∷ []) leftover).1
        ↔ WasPrivate sender_private leftover)
private_after-gen_keys_example =
    private_after-gen_keys toy pem strict (7 ∷ []) (8 ∷ []) leftover strict-IsUmask

-- An old key file keeps its permissions when the new key is written into it.
leftover_mode :
    mode_of sender_private (gen_keys toy pem strict (7 ∷ []) (8 ∷ []) leftover).1
    ≡ some world_readable
unfolding mode_of lookup gen_keys write overwrite insert
leftover_mode = refl

abbrev provided_setting : Setting
provided_setting =
    asking codec three three
      (send_with_keys pem provided (over_wire codec three three) sending wire_outbox).1.remote
      serving
