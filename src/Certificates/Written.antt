-- ===== src/Certificates/Written.antt =====
-- The files that gen_certs.py leaves, and the contexts that are built from them.
use cmpe272_finaltest_assesm.Prelude.{
  ℕ, ◌=ₜ◌, if◌then◌else◌, ◌≡◌, refl, arith, true, false, some, [], ◌∷◌, text_eq_refl,
}
use cmpe272_finaltest_assesm.Result.{ok}
use cmpe272_finaltest_assesm.Bytes.{Bytes, Text}
use cmpe272_finaltest_assesm.Text.{codes}
use cmpe272_finaltest_assesm.Directory.{
  Directory, owner_only, world_readable, overwrite, read, read-overwrite,
}
use cmpe272_finaltest_assesm.Certificates.{
  Certificate, Body, X509, Draws, ca_cert, issue_leaf, recv_cert, send_cert, write, gen_certs,
}
use cmpe272_finaltest_assesm.Certificates.Context.{
  Context, tls_v1_3, cert_required, protocol_tls_server, protocol_tls_client, load_cert_chain,
  load_verify_locations, build_server_context, build_client_context,
}

-- What this run prints is loaded as the same, and signatures verify.
pub record IsX509 (x : X509) (r : Draws) : Type 0 where
  pub private_read : (key : Bytes) → x.load_private (x.private_bytes key) ≡ ok key
  pub ca_read : x.load_certificate (x.public_bytes (ca_cert x r)) ≡ ok (ca_cert x r)
  pub recv_read : x.load_certificate (x.public_bytes (recv_cert x r)) ≡ ok (recv_cert x r)
  pub send_read : x.load_certificate (x.public_bytes (send_cert x r)) ≡ ok (send_cert x r)
  pub signs : (key : Bytes) (body : Body) → x.verify (x.public_of key) body (x.sign key body) ≡ true

module _ (x : X509) (r : Draws) where
  abbrev pub server_context : Context
  server_context = record {
    minimum_version = tls_v1_3;
    chain = some (recv_cert x r, r.recv_key);
    roots = ca_cert x r ∷ [];
    verify_mode = cert_required;
    check_hostname = false;
  }

  abbrev pub client_context : Context
  client_context = record {
    minimum_version = tls_v1_3;
    chain = some (send_cert x r, r.send_key);
    roots = ca_cert x r ∷ [];
    verify_mode = cert_required;
    check_hostname = true;
  }

  module _ (umask : ℕ → ℕ) (d : Directory) where
    -- The directory once the first pair, the first two pairs, and all of them are written.
    abbrev pair : Text → Bytes → Text → Bytes → Directory → Directory
    pair key_name key cert_name cert d =
        overwrite umask cert_name world_readable cert (overwrite umask key_name owner_only key d)

    abbrev first : Directory
    first =
        pair (codes "ca.key") (x.private_bytes r.ca_key) (codes "ca.crt")
          (x.public_bytes (ca_cert x r)) d

    abbrev second : Directory
    second =
        pair (codes "receiver.key") (x.private_bytes r.recv_key) (codes "receiver.crt")
          (x.public_bytes (recv_cert x r)) first

    abbrev pub issued : Directory
    issued =
        pair (codes "sender.key") (x.private_bytes r.send_key) (codes "sender.crt")
          (x.public_bytes (send_cert x r)) second

    pub gen_certs-ok : gen_certs x r umask d ≡ (ok 0, issued)
    unfolding gen_certs write
    gen_certs-ok = refl

    read-pair :
        (name key_name : Text) (key : Bytes) (cert_name : Text) (cert : Bytes) (dir : Directory)
        → read name (pair key_name key cert_name cert dir) ≡ (
            if cert_name =ₜ name
            then ok cert
            else if key_name =ₜ name
            then ok key
            else read name dir)
    read-pair name key_name key cert_name cert dir =
        rw
          (
            read-overwrite umask cert_name name world_readable cert
                (overwrite umask key_name owner_only key dir),
            read-overwrite umask key_name name owner_only key dir,
          )
          refl

    read-issued :
        (name : Text)
        → read name issued ≡ (
            if codes "sender.crt" =ₜ name
            then ok (x.public_bytes (send_cert x r))
            else if codes "sender.key" =ₜ name
            then ok (x.private_bytes r.send_key)
            else if codes "receiver.crt" =ₜ name
            then ok (x.public_bytes (recv_cert x r))
            else if codes "receiver.key" =ₜ name
            then ok (x.private_bytes r.recv_key)
            else if codes "ca.crt" =ₜ name
            then ok (x.public_bytes (ca_cert x r))
            else if codes "ca.key" =ₜ name
            then ok (x.private_bytes r.ca_key)
            else read name d)
    read-issued name =
        rw
          (
            read-pair name (codes "sender.key") (x.private_bytes r.send_key) (codes "sender.crt")
                (x.public_bytes (send_cert x r)) second,
            read-pair name (codes "receiver.key") (x.private_bytes r.recv_key)
                (codes "receiver.crt") (x.public_bytes (recv_cert x r)) first,
            read-pair name (codes "ca.key") (x.private_bytes r.ca_key) (codes "ca.crt")
                (x.public_bytes (ca_cert x r)) d,
          )
          refl

  module _ (laws : IsX509 x r) (dir : Directory) where
    load_cert_chain-ok :
        (cert_name key_name : Text) (cert : Certificate) (key : Bytes) (ctx : Context)
        → read cert_name dir ≡ ok (x.public_bytes cert)
        → read key_name dir ≡ ok (x.private_bytes key)
        → x.public_of key ≡ cert.body.public_key
        → x.load_certificate (x.public_bytes cert) ≡ ok cert
        → load_cert_chain x dir cert_name key_name ctx
          ≡ ok (record ctx { chain = some (cert, key) })
    unfolding load_cert_chain
    load_cert_chain-ok cert_name key_name cert key ctx e e' own cert_read =
        ground
          (arith, e, e', own, cert_read, laws.private_read key, text_eq_refl cert.body.public_key)

    load_verify_locations-ok :
        (name : Text) (root : Certificate) (ctx : Context)
        → read name dir ≡ ok (x.public_bytes root)
        → x.load_certificate (x.public_bytes root) ≡ ok root
        → load_verify_locations x dir name ctx ≡ ok (record ctx { roots = root ∷ ctx.roots })
    unfolding load_verify_locations
    load_verify_locations-ok name root ctx e root_read = ground (arith, e, root_read)

  module _ (umask : ℕ → ℕ) (d : Directory) (laws : IsX509 x r) where
    built_server : build_server_context x (issued umask d) ≡ ok server_context
    unfolding build_server_context recv_cert issue_leaf
    built_server =
        let dir = issued umask d in
        let chain =
          load_cert_chain-ok laws dir (codes "receiver.crt") (codes "receiver.key") (recv_cert x r)
            r.recv_key (record protocol_tls_server { minimum_version = tls_v1_3 })
            (rw (read-issued umask d (codes "receiver.crt")) refl)
            (rw (read-issued umask d (codes "receiver.key")) refl) refl laws.recv_read in
        let roots =
          load_verify_locations-ok laws dir (codes "ca.crt") (ca_cert x r)
            (record protocol_tls_server {
              minimum_version = tls_v1_3;
              chain = some (recv_cert x r, r.recv_key);
            })
            (rw (read-issued umask d (codes "ca.crt")) refl) laws.ca_read in
        ground (arith, chain, roots)

    built_client : build_client_context x (issued umask d) ≡ ok client_context
    unfolding build_client_context send_cert issue_leaf
    built_client =
        let dir = issued umask d in
        let chain =
          load_cert_chain-ok laws dir (codes "sender.crt") (codes "sender.key") (send_cert x r)
            r.send_key (record protocol_tls_client { minimum_version = tls_v1_3 })
            (rw (read-issued umask d (codes "sender.crt")) refl)
            (rw (read-issued umask d (codes "sender.key")) refl) refl laws.send_read in
        let roots =
          load_verify_locations-ok laws dir (codes "ca.crt") (ca_cert x r)
            (record protocol_tls_client {
              minimum_version = tls_v1_3;
              chain = some (send_cert x r, r.send_key);
            })
            (rw (read-issued umask d (codes "ca.crt")) refl) laws.ca_read in
        ground (arith, chain, roots)

  -- After a run in any directory, both contexts can be built, whatever was there before: each side
  -- presents its own certificate, with the key of that certificate, trusts the authority alone, takes
  -- nothing below TLS 1.3, and asks for a certificate of the other side; the sender checks the host.
  pub contexts-gen_certs :
      (umask : ℕ → ℕ) (d : Directory)
      → IsX509 x r
      → let dir = (gen_certs x r umask d).1 in
        ((gen_certs x r umask d).0 ≡ ok 0)
        × (build_server_context x dir ≡ ok server_context)
        × (build_client_context x dir ≡ ok client_context)
  contexts-gen_certs umask d laws =
      rw (gen_certs-ok umask d) (refl, built_server umask d laws, built_client umask d laws)
