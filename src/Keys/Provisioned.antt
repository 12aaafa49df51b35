-- ===== src/Keys/Provisioned.antt =====
-- What gen_keys.py leaves, and what the loaders read from it.
use cmpe272_finaltest_assesm.Prelude.{
  ℕ, ◌≡◌, refl, ◌∙◌, arith, ◌=ₜ◌, ◌||◌, Bool, false, if◌then◌else◌,
}
use cmpe272_finaltest_assesm.Result.{ok}
use cmpe272_finaltest_assesm.Bytes.{Bytes, Text}
use cmpe272_finaltest_assesm.Envelope.{Crypto}
use cmpe272_finaltest_assesm.Directory.{
  Directory, owner_only, world_readable, overwrite, read, read-overwrite,
}
use cmpe272_finaltest_assesm.Envelope.Pem.{
  x25519, ed25519, Pem, IsPem, load_x25519_private, load_x25519_public, load_ed25519_private,
  load_ed25519_public,
}
use cmpe272_finaltest_assesm.Keys.{
  receiver_private, receiver_public, sender_private, sender_public, write, gen_keys,
}

-- Behind four tests that fail.
last_of :
    {A : Type 0} (p q r s : Bool) (a b c d e : A)
    → (p || q || r || s) ≡ false
    → (if p then a else if q then b else if r then c else if s then d else e) ≡ e
last_of p q r s a b c d e h = ground arith

module _ (c : Crypto) (pem : Pem) (umask : ℕ → ℕ) (recv_x send_ed : Bytes) (d : Directory) where
  abbrev pub first : Directory
  first = overwrite umask receiver_private owner_only (pem.private_bytes x25519 recv_x) d

  abbrev pub second : Directory
  second =
      overwrite umask receiver_public world_readable
        (pem.public_bytes x25519 (c.x25519_public recv_x)) first

  abbrev pub third : Directory
  third = overwrite umask sender_private owner_only (pem.private_bytes ed25519 send_ed) second

  -- The directory after the run.
  abbrev pub made : Directory
  made =
      overwrite umask sender_public world_readable
        (pem.public_bytes ed25519 (c.ed25519_public send_ed)) third

  pub gen_keys-ok : gen_keys c pem umask recv_x send_ed d ≡ (ok 0, made)
  unfolding gen_keys write
  gen_keys-ok = refl

  -- The content of a file after the run.
  pub read-made :
      (name : Text)
      → read name made ≡ (
          if sender_public =ₜ name
          then ok (pem.public_bytes ed25519 (c.ed25519_public send_ed))
          else if sender_private =ₜ name
          then ok (pem.private_bytes ed25519 send_ed)
          else if receiver_public =ₜ name
          then ok (pem.public_bytes x25519 (c.x25519_public recv_x))
          else if receiver_private =ₜ name
          then ok (pem.private_bytes x25519 recv_x)
          else read name d)
  read-made name = ground (
    arith,
    read-overwrite umask sender_public name world_readable
        (pem.public_bytes ed25519 (c.ed25519_public send_ed)) third,
    read-overwrite umask sender_private name owner_only (pem.private_bytes ed25519 send_ed) second,
    read-overwrite umask receiver_public name world_readable
        (pem.public_bytes x25519 (c.x25519_public recv_x)) first,
    read-overwrite umask receiver_private name owner_only (pem.private_bytes x25519 recv_x) d,
  )

  -- After a run in any directory, the loaders give the receiver its private key and the public half of
  -- the sender's, and the sender its private key and the public half of the receiver's; no other file
  -- is changed. What the PEM printer prints is loaded as the same key.
  pub load-gen_keys :
      IsPem pem
      → let dir = (gen_keys c pem umask recv_x send_ed d).1 in
        ((gen_keys c pem umask recv_x send_ed d).0 ≡ ok 0)
        × (load_x25519_private pem dir receiver_private ≡ ok recv_x)
        × (load_ed25519_public pem dir sender_public ≡ ok (c.ed25519_public send_ed))
        × (load_ed25519_private pem dir sender_private ≡ ok send_ed)
        × (load_x25519_public pem dir receiver_public ≡ ok (c.x25519_public recv_x))
        × ((name : Text)
            → ((sender_public =ₜ name)
                || (sender_private =ₜ name)
                || (receiver_public =ₜ name)
                || (receiver_private =ₜ name))
              ≡ false
            → read name dir ≡ read name d)
  unfolding load_x25519_private load_x25519_public load_ed25519_private load_ed25519_public
  load-gen_keys h = rw gen_keys-ok (
    refl,
    rw (read-made receiver_private) (h.private_read x25519 recv_x),
    rw (read-made sender_public) (h.public_read ed25519 (c.ed25519_public send_ed)),
    rw (read-made sender_private) (h.private_read ed25519 send_ed),
    rw (read-made receiver_public) (h.public_read x25519 (c.x25519_public recv_x)),
    λ name other.
        read-made name
        ∙ last_of (sender_public =ₜ name) (sender_private =ₜ name) (receiver_public =ₜ name)
            (receiver_private =ₜ name) (ok (pem.public_bytes ed25519 (c.ed25519_public send_ed)))
            (ok (pem.private_bytes ed25519 send_ed))
            (ok (pem.public_bytes x25519 (c.x25519_public recv_x)))
            (ok (pem.private_bytes x25519 recv_x)) (read name d) other,
  )
