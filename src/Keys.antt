-- ===== src/Keys.antt =====
-- approach-b-broker-envelope/gen_keys.py, which makes the long-lived keys, and the first steps of `send`
-- of sender.py and `receive` of receiver.py, which load them.
pub mod Provisioned
pub mod Modes
pub mod EndToEnd
use cmpe272_finaltest_assesm.Prelude.{ℕ, Bool, true, false, none, some, if◌then◌else◌}
use cmpe272_finaltest_assesm.Result.{ok}
use cmpe272_finaltest_assesm.Exec.{Exec, pure, lift, modify, ◌>>=◌, ◌>>◌}
use cmpe272_finaltest_assesm.Bytes.{Bytes, Text}
use cmpe272_finaltest_assesm.Text.{codes}
use cmpe272_finaltest_assesm.Envelope.{Crypto}
use cmpe272_finaltest_assesm.Envelope.Pem.{
  Kind, x25519, ed25519, Pem, load_x25519_private, load_x25519_public, load_ed25519_private,
  load_ed25519_public,
}
use cmpe272_finaltest_assesm.Directory.{Directory, owner_only, world_readable, overwrite, read}
use cmpe272_finaltest_assesm.Receiver.State.{Files, Setting}
use cmpe272_finaltest_assesm.Receiver.Receive.{receive}
use cmpe272_finaltest_assesm.Sender.State.{Sending}
use cmpe272_finaltest_assesm.Sender.Chunks.{Client}
use cmpe272_finaltest_assesm.Sender.Send.{Outbox, send_file}

abbrev pub receiver_private : Text
receiver_private = codes "receiver_x25519.key"

abbrev pub receiver_public : Text
receiver_public = codes "receiver_x25519.pub"

abbrev pub sender_private : Text
sender_private = codes "sender_ed25519.key"

abbrev pub sender_public : Text
sender_public = codes "sender_ed25519.pub"

-- `_write`
unfoldable pub write : (ℕ → ℕ) → Text → Bytes → Bool → Exec Directory Unit
write umask name bs secret =
    modify (overwrite umask name (if secret then owner_only else world_readable) bs)

-- `_priv_pem` and `_pub_pem`
abbrev pub priv_pem : Pem → Kind → Bytes → Bytes
priv_pem pem kind key = pem.private_bytes kind key

abbrev pub pub_pem : Pem → Kind → Bytes → Bytes
pub_pem pem kind key = pem.public_bytes kind key

-- `main`, with the two private keys that `generate` drew.
unfoldable pub gen_keys : Crypto → Pem → (ℕ → ℕ) → Bytes → Bytes → Exec Directory ℕ
gen_keys c pem umask recv_x send_ed = do
  write umask receiver_private (priv_pem pem x25519 recv_x) true
  write umask receiver_public (pub_pem pem x25519 (c.x25519_public recv_x)) false
  write umask sender_private (priv_pem pem ed25519 send_ed) true
  write umask sender_public (pub_pem pem ed25519 (c.ed25519_public send_ed)) false
  pure 0

module _ (pem : Pem) (dir : Directory) where
  -- `send` of sender.py, with the keys from `--keys-dir`
  unfoldable pub send_with_keys : {R : Type 0} → Client R → Sending → Exec (Outbox R) ℕ
  send_with_keys client p w = elim w.file [
    | none ↦ (ok 1, w)
    | some file ↦
        let with_keys : Exec (Outbox _) ℕ = do
          signing_key ← lift (load_ed25519_private pem dir sender_private)
          receiver_pub ← lift (load_x25519_public pem dir receiver_public)
          send_file client (record p { signing_key = signing_key; receiver_pub = receiver_pub })
              file
        in with_keys w
  ]

  -- `receive` of receiver.py, with the keys from `--keys-dir`
  unfoldable pub receive_with_keys : Setting → Exec Files ℕ
  receive_with_keys s = do
    receiver_priv ← lift (load_x25519_private pem dir receiver_private)
    sender_verify_key ← lift (load_ed25519_public pem dir sender_public)
    receive (record s { receiver_key = receiver_priv; verify_key = sender_verify_key })
