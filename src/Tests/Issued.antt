-- ===== src/Tests/Issued.antt =====
-- The certificates of approach A, with keys that are their own public halves, a signature that is the key
-- and the serial number, and a PEM text that is the serial number.
use cmpe272_finaltest_assesm.Prelude.{
  ℕ, ◌≡◌, refl, sym, arith, Bool, true, none, some, [], ◌∷◌, ◌=ₜ◌, inl, text_eq_refl, if◌then◌else◌,
}
use cmpe272_finaltest_assesm.Result.{Result, ok, err, value_error}
use cmpe272_finaltest_assesm.Bytes.{Bytes, Text}
use cmpe272_finaltest_assesm.Text.{codes}
use cmpe272_finaltest_assesm.Directory.{Directory}
use cmpe272_finaltest_assesm.Socket.{Socket}
use cmpe272_finaltest_assesm.Tls.Main.{Accepted, accepted, world}
use cmpe272_finaltest_assesm.Tls.Claim.{receive-sent}
use cmpe272_finaltest_assesm.Tls.EndToEnd.{IsConnected}
use cmpe272_finaltest_assesm.Certificates.{
  Certificate, San, dns_name, ip_address, X509, Draws, server_auth, client_auth, ca_cert, recv_cert,
  send_cert, gen_certs, issue_leaf,
}
use cmpe272_finaltest_assesm.Certificates.Context.{
  Context, build_server_context, build_client_context, receiver_with_certs, sender_with_certs,
}
use cmpe272_finaltest_assesm.Certificates.Written.{
  IsX509, server_context, client_context, contexts-gen_certs,
}
use cmpe272_finaltest_assesm.Certificates.Handshake.{accepts}
use cmpe272_finaltest_assesm.Certificates.Vouched.{in_time}
use cmpe272_finaltest_assesm.Certificates.Trust.{mutual_trust}
use cmpe272_finaltest_assesm.Certificates.Delivery.{delivers_from_gen_certs}
use cmpe272_finaltest_assesm.Tests.Channel.{
  toy_hash, toy_size, file, sender, resuming, resuming-IsConnected,
}
use cmpe272_finaltest_assesm.Tests.Programs.{one_byte}

abbrev has_name : Text → San → Bool
has_name host (dns_name name) = host =ₜ name
has_name host (ip_address name) = host =ₜ name

abbrev unpacked : Bytes → Result Bytes
unpacked bs = ok bs

-- Everything but the loading of certificates.
abbrev unloaded : X509
unloaded = record {
  public_of = λ key. key;
  sign = λ key body. body.serial_number ∷ key;
  verify = λ key body signature. signature =ₜ (body.serial_number ∷ key);
  private_bytes = λ key. key;
  load_private = unpacked;
  public_bytes = λ cert. cert.body.serial_number ∷ [];
  load_certificate = λ pem. err value_error;
  goes_by = has_name;
}

abbrev draws : Draws
draws = record {
  ca_key = 21 ∷ [];
  recv_key = 22 ∷ [];
  send_key = 23 ∷ [];
  ca_serial = 1;
  recv_serial = 2;
  send_serial = 3;
  now = 1000;
}

abbrev loaded : Bytes → Result Certificate
loaded pem =
    if pem =ₜ (1 ∷ [])
    then ok (ca_cert unloaded draws)
    else if pem =ₜ (2 ∷ [])
    then ok (recv_cert unloaded draws)
    else if pem =ₜ (3 ∷ [])
    then ok (send_cert unloaded draws)
    else err value_error

abbrev toy_x509 : X509
toy_x509 = record unloaded { load_certificate = loaded }

toy_x509-IsX509 : IsX509 toy_x509 draws
unfolding ca_cert recv_cert send_cert issue_leaf
toy_x509-IsX509 = record {
  private_read = λ key. refl;
  ca_read = refl;
  recv_read = refl;
  send_read = refl;
  signs = λ key body. text_eq_refl (body.serial_number ∷ key);
}

abbrev keep : ℕ → ℕ
keep mode = mode

abbrev certs : Directory
certs = (gen_certs toy_x509 draws keep []).1

-- The two contexts, as they are built.
built_server : build_server_context toy_x509 certs ≡ ok (server_context toy_x509 draws)
built_server = (contexts-gen_certs toy_x509 draws keep [] toy_x509-IsX509).1

built_client : build_client_context toy_x509 certs ≡ ok (client_context toy_x509 draws)
built_client = (contexts-gen_certs toy_x509 draws keep [] toy_x509-IsX509).2

mutual_trust_example :
    (accepts toy_x509
        (server_context toy_x509 draws)
        client_auth
        (codes "localhost")
        2000
        (some (send_cert toy_x509 draws))
      ≡ in_time toy_x509 draws 2000)
    × (accepts toy_x509
          (client_context toy_x509 draws)
          server_auth
          (codes "localhost")
          2000
          (some (recv_cert toy_x509 draws))
        ≡ true)
mutual_trust_example =
    mutual_trust toy_x509 draws keep [] toy_x509-IsX509 (server_context toy_x509 draws)
      (client_context toy_x509 draws) (codes "localhost") 2000 built_server built_client

abbrev connect : Context → Result (Result Socket)
connect ctx = ok (ok sender)

-- The receiver's end, on which the sender's bytes arrive.
abbrev arriving : Socket
arriving = record resuming.tls {
  pending = (sender_with_certs toy_x509 certs toy_hash connect (some file)).1;
}

abbrev accept : Context → Accepted
accept ctx = accepted (ok arriving)

arriving-IsConnected : IsConnected toy_hash file (world arriving one_byte) sender
arriving-IsConnected = record {
  file_fits = resuming-IsConnected.file_fits;
  part_fits = resuming-IsConnected.part_fits;
  receiver_holds = refl;
  sender_holds = resuming-IsConnected.sender_holds;
  unclaimed = refl;
  claimed = sym (receive-sent toy_hash (world arriving one_byte) refl (omega arith));
  unsent = resuming-IsConnected.unsent;
}

delivers_from_gen_certs_example :
    ((sender_with_certs toy_x509 certs toy_hash connect (some file)).0 ≡ ok 0)
    × (receiver_with_certs toy_x509 certs toy_hash accept one_byte
        ≡ (ok 0, record { part = none; out = some file }))
delivers_from_gen_certs_example =
    delivers_from_gen_certs toy_x509 draws keep [] certs certs toy_hash toy_size file accept connect
      2000 sender arriving one_byte toy_x509-IsX509 refl refl (λ s c h h'. (refl, refl))
      (refl, refl, refl) (refl, refl, refl) arriving-IsConnected (inl (2 ∷ 3 ∷ [], refl)) refl
