-- ===== src/Keys/Modes.antt =====
-- Who may read the private keys that gen_keys.py writes.
use cmpe272_finaltest_assesm.Prelude.{
  ℕ, ◌≡◌, ◌↔◌, ◌∙◌, refl, ap, arith, some, Option-cases, inl, inr,
}
use cmpe272_finaltest_assesm.Bytes.{Bytes, Text}
use cmpe272_finaltest_assesm.Envelope.{Crypto}
use cmpe272_finaltest_assesm.Envelope.Pem.{Pem}
use cmpe272_finaltest_assesm.Directory.{
  Directory, owner_only, mode_of, mode_after, IsPrivate, IsUmask, mode_of-overwrite,
}
use cmpe272_finaltest_assesm.Keys.{
  receiver_private, receiver_public, sender_private, sender_public, gen_keys, write,
}
use cmpe272_finaltest_assesm.Keys.Provisioned.{made}

-- The file that held this name, if there was one, was private.
abbrev pub WasPrivate : Text → Directory → Type 0
WasPrivate name d = (mode : ℕ) → mode_of name d ≡ some mode → IsPrivate mode

abbrev pub IsKeptPrivate : Text → Directory → Type 0
IsKeptPrivate name dir = (mode : ℕ) × (mode_of name dir ≡ some mode) × IsPrivate mode

module _ (c : Crypto) (pem : Pem) (umask : ℕ → ℕ) (recv_x send_ed : Bytes) (d : Directory) where
  receiver_private_mode :
      mode_of receiver_private (made c pem umask recv_x send_ed d)
      ≡ some (mode_after (umask owner_only) (mode_of receiver_private d))
  receiver_private_mode =
      rw
        (
          mode_of-overwrite umask sender_public receiver_private,
          mode_of-overwrite umask sender_private receiver_private,
          mode_of-overwrite umask receiver_public receiver_private,
          mode_of-overwrite umask receiver_private receiver_private,
        )
        refl

  sender_private_mode :
      mode_of sender_private (made c pem umask recv_x send_ed d)
      ≡ some (mode_after (umask owner_only) (mode_of sender_private d))
  sender_private_mode =
      rw
        (
          mode_of-overwrite umask sender_public sender_private,
          mode_of-overwrite umask sender_private sender_private,
          mode_of-overwrite umask receiver_public sender_private,
          mode_of-overwrite umask receiver_private sender_private,
        )
        refl

  kept-Private :
      (name : Text) (dir : Directory)
      → IsUmask umask
      → mode_of name dir ≡ some (mode_after (umask owner_only) (mode_of name d))
      → (IsKeptPrivate name dir ↔ WasPrivate name d)
  kept-Private name dir u e = elim (Option-cases (mode_of name d)) [
    | inl absent ↦ (
      λ _ mode was. ground (arith, absent, was),
      λ _. (
        umask owner_only,
        e ∙ ap (λ o. some (mode_after (umask owner_only) o)) absent,
        u owner_only refl,
      ),
    )
    | inr (old, there) ↦ (
      λ (m, now, p) mode was. ground (arith, e, now, p, there, was),
      λ was. (old, e ∙ ap (λ o. some (mode_after (umask owner_only) o)) there, was old there),
    )
  ]

  -- After a run, a private key is in a file that only its owner may read exactly if there was no file of
  -- that name before or only its owner could read it: a file that exists keeps its permissions.
  pub private_after-gen_keys :
      IsUmask umask
      → let dir = (gen_keys c pem umask recv_x send_ed d).1 in
        (IsKeptPrivate receiver_private dir ↔ WasPrivate receiver_private d)
        × (IsKeptPrivate sender_private dir ↔ WasPrivate sender_private d)
  unfolding gen_keys write
  private_after-gen_keys u =
      let dir = made c pem umask recv_x send_ed d in
      (
        kept-Private receiver_private dir u receiver_private_mode,
        kept-Private sender_private dir u sender_private_mode,
      )
