-- ===== src/Certificates/Delivery.antt =====
-- From gen_certs.py to the file at the receiver of approach A.
use cmpe272_finaltest_assesm.Prelude.{
  ℕ, ◌≡◌, refl, ap, ◌∙◌, arith, true, Option, none, some, length,
}
use cmpe272_finaltest_assesm.Result.{Result, ok}
use cmpe272_finaltest_assesm.Bytes.{Bytes, Text}
use cmpe272_finaltest_assesm.Text.{codes}
use cmpe272_finaltest_assesm.Directory.{Directory, read}
use cmpe272_finaltest_assesm.Socket.{Socket}
use cmpe272_finaltest_assesm.Util.{sha256_len}
use cmpe272_finaltest_assesm.Tls.EndToEnd.{IsConnected, IsUsable}
use cmpe272_finaltest_assesm.Tls.Main.{Accepted, accepted, Disk, world, receiver_main, sender_main}
use cmpe272_finaltest_assesm.Tls.Main.Exits.{main_delivers}
use cmpe272_finaltest_assesm.Certificates.{
  Certificate, X509, Draws, server_auth, client_auth, dns_name, gen_certs,
}
use cmpe272_finaltest_assesm.Certificates.Context.{
  Context, load_cert_chain, load_verify_locations, build_server_context, build_client_context,
  receiver_with_certs, sender_with_certs,
}
use cmpe272_finaltest_assesm.Certificates.Written.{
  IsX509, server_context, client_context, contexts-gen_certs,
}
use cmpe272_finaltest_assesm.Certificates.Handshake.{accepts}
use cmpe272_finaltest_assesm.Certificates.Vouched.{in_time}
use cmpe272_finaltest_assesm.Certificates.Trust.{mutual_trust}

-- The three files that a side needs were copied from this directory.
abbrev pub IsCopy : Text → Text → Directory → Directory → Type 0
IsCopy cert_name key_name dir own =
    (read cert_name own ≡ read cert_name dir)
    × (read key_name own ≡ read key_name dir)
    × (read (codes "ca.crt") own ≡ read (codes "ca.crt") dir)

module _ (x : X509) (dir own : Directory) where
  build_server-copy :
      IsCopy (codes "receiver.crt") (codes "receiver.key") dir own
      → build_server_context x own ≡ build_server_context x dir
  unfolding build_server_context load_cert_chain load_verify_locations
  build_server-copy (a, b, c) = rw (a, b, c) refl

  build_client-copy :
      IsCopy (codes "sender.crt") (codes "sender.key") dir own
      → build_client_context x own ≡ build_client_context x dir
  unfolding build_client_context load_cert_chain load_verify_locations
  build_client-copy (a, b, c) = rw (a, b, c) refl

-- The certificate that a side shows.
abbrev pub shown : Context → Option Certificate
shown ctx = certificate_of ctx.chain
  where
    certificate_of : Option (Certificate × Bytes) → Option Certificate
    certificate_of none = none
    certificate_of (some (cert, key)) = some cert

-- What the operating system and the ssl module are relied on for: if each side goes on with the
-- certificate that the other one shows, there is a connection, with these two ends.
abbrev pub IsHandshake :
    X509
    → Text
    → ℕ
    → (Context → Accepted)
    → (Context → Result (Result Socket))
    → Socket
    → Socket
    → Type 0
IsHandshake x host t accept connect server client =
    (s c : Context)
    → accepts x c server_auth host t (shown s) ≡ true
    → accepts x s client_auth host t (shown c) ≡ true
    → (accept s ≡ accepted (ok server)) × (connect c ≡ ok (ok client))

module _ (x : X509) (r : Draws) (umask : ℕ → ℕ) (old ours theirs : Directory)
    (sha256 : Bytes → Bytes) (digest_size : (bs : Bytes) → length (sha256 bs) ≡ sha256_len)
    (file : Bytes) (accept : Context → Accepted) (connect : Context → Result (Result Socket)) where
  sends-with_certs :
      (c : Context) (client : Socket)
      → build_client_context x ours ≡ ok c
      → connect c ≡ ok (ok client)
      → sender_with_certs x ours sha256 connect (some file)
        ≡ sender_main sha256 (some file) (ok (ok client))
  unfolding sender_with_certs
  sends-with_certs c client built up = ground (arith, built, up)

  receives-with_certs :
      (c : Context) (server : Socket) (d : Disk)
      → build_server_context x theirs ≡ ok c
      → accept c ≡ accepted (ok server)
      → receiver_with_certs x theirs sha256 accept d ≡ receiver_main sha256 (accepted (ok server)) d
  unfolding receiver_with_certs
  receives-with_certs c server d built up = ground (arith, built, up)

  -- `gen_certs.py` makes the certificates in any directory, and each side has a directory with a copy of
  -- the three files that it needs. If the programs run within 365 days, for the host `localhost`, the
  -- new connection holds, each side reads what the other one sends, and the partial file, if any, is the beginning of the file or longer than it, then both exit with 0,
  -- the final name holds exactly the file, and the partial file is gone.
  pub delivers_from_gen_certs :
      (t : ℕ) (client server : Socket) (d : Disk)
      → IsX509 x r
      → x.goes_by (codes "localhost") (dns_name (codes "localhost")) ≡ true
      → in_time x r t ≡ true
      → IsHandshake x (codes "localhost") t accept connect server client
      → let dir = (gen_certs x r umask old).1 in
        IsCopy (codes "sender.crt") (codes "sender.key") dir ours
        → IsCopy (codes "receiver.crt") (codes "receiver.key") dir theirs
        → IsConnected sha256 file (world server d) client
        → IsUsable sha256 file d.part
        → server.pending ≡ (sender_with_certs x ours sha256 connect (some file)).1
        → ((sender_with_certs x ours sha256 connect (some file)).0 ≡ ok 0)
          × (receiver_with_certs x theirs sha256 accept d
              ≡ (ok 0, record { part = none; out = some file }))
  delivers_from_gen_certs t client server d laws local timely shakes copied copied' conn usable
        arrived =
      let dir = (gen_certs x r umask old).1 in
      let (made, built_server, built_client) = contexts-gen_certs x r umask old laws in
      let trusted =
        mutual_trust x r umask old laws (server_context x r) (client_context x r)
          (codes "localhost") t built_server built_client in
      let up =
        shakes (server_context x r) (client_context x r) (trusted.1 ∙ ground (arith, timely, local))
          (trusted.0 ∙ timely) in
      let sends =
        sends-with_certs (client_context x r) client
          (build_client-copy x dir ours copied ∙ built_client) up.1 in
      let receives =
        receives-with_certs (server_context x r) server d
          (build_server-copy x dir theirs copied' ∙ built_server) up.0 in
      let (sent, received) =
        main_delivers sha256 digest_size file client server d conn usable
          (arrived ∙ ap (λ o. o.1) sends) in
      (ap (λ o. o.0) sends ∙ sent, receives ∙ received)
