-- ===== src/Certificates/Trust.antt =====
-- Whom the two sides of approach A take for the other one.
use cmpe272_finaltest_assesm.Prelude.{
  ℕ, ◌≡◌, sym, ◌∙◌, arith, true, false, ◌&&◌, ◌||◌, some, List, ◌∷◌, ◌++◌,
}
use cmpe272_finaltest_assesm.Result.{ok}
use cmpe272_finaltest_assesm.Bytes.{Text}
use cmpe272_finaltest_assesm.Directory.{Directory}
use cmpe272_finaltest_assesm.Text.{codes}
use cmpe272_finaltest_assesm.Certificates.{
  Purpose, server_auth, client_auth, dns_name, ip_address, Certificate, X509, Draws, ca_cert,
  issue_leaf, recv_cert, send_cert, gen_certs,
}
use cmpe272_finaltest_assesm.Certificates.Context.{
  Context, build_server_context, build_client_context,
}
use cmpe272_finaltest_assesm.Certificates.Handshake.{linked, leads, accepts_path, accepts}
use cmpe272_finaltest_assesm.Certificates.Vouched.{in_time, IsVouched, IsLeaf}
use cmpe272_finaltest_assesm.Certificates.Written.{
  IsX509, server_context, client_context, contexts-gen_certs,
}

module _ (x : X509) (r : Draws) where
  contexts_trust :
      IsX509 x r
      → (host : Text) (t : ℕ)
      → (accepts x (server_context x r) client_auth host t (some (send_cert x r)) ≡ in_time x r t)
        × (accepts x (client_context x r) server_auth host t (some (recv_cert x r)) ≡ (
            in_time x r t
            && (x.goes_by host (dns_name (codes "localhost"))
                || x.goes_by host (ip_address (codes "127.0.0.1")))))
  unfolding ca_cert send_cert recv_cert issue_leaf linked leads
  contexts_trust laws host t = (
    ground (arith, laws.signs r.ca_key (send_cert x r).body),
    ground (arith, laws.signs r.ca_key (recv_cert x r).body),
  )

  -- A context that refuses this other certificate with any path, that goes on only with what the
  -- authority vouches for, and with nothing that one of the two leaves would vouch for.
  abbrev pub IsGuarded : Context → Purpose → Certificate → Text → ℕ → Type 0
  IsGuarded ctx purpose other host t =
      ((path : List Certificate) → accepts_path x ctx purpose host t other path ≡ false)
      × ((cert : Certificate) (path : List Certificate)
          → accepts_path x ctx purpose host t cert path ≡ true
          → IsVouched x r t cert path)
      × ((cert : Certificate) (before : List Certificate) (leaf : Certificate)
            (after : List Certificate)
          → IsLeaf x r leaf
          → accepts_path x ctx purpose host t cert (before ++ (leaf ∷ after)) ≡ false)

  ok_injective : {A : Type 0} {a b : A} → ok a ≡ ok b → a ≡ b
  ok_injective e = ground (arith, e)

  module _ (umask : ℕ → ℕ) (d : Directory) (laws : IsX509 x r) where
    -- The contexts that are built from what gen_certs.py wrote are these.
    built :
        (s c : Context)
        → let dir = (gen_certs x r umask d).1 in
          build_server_context x dir ≡ ok s
          → build_client_context x dir ≡ ok c
          → (s ≡ server_context x r) × (c ≡ client_context x r)
    built s c e e' =
        let (made, server, client) = contexts-gen_certs x r umask d laws in
        (ok_injective (sym e ∙ server), ok_injective (sym e' ∙ client))

    -- After a run of gen_certs.py in any directory, the receiver takes the sender for a client, and the
    -- sender the receiver for the server, exactly from the time of the run until 365 days later; the
    -- sender only under the name `localhost` or the address 127.0.0.1.
    pub mutual_trust :
        (s c : Context) (host : Text) (t : ℕ)
        → let dir = (gen_certs x r umask d).1 in
          build_server_context x dir ≡ ok s
          → build_client_context x dir ≡ ok c
          → (accepts x s client_auth host t (some (send_cert x r)) ≡ in_time x r t)
            × (accepts x c server_auth host t (some (recv_cert x r)) ≡ (
                in_time x r t
                && (x.goes_by host (dns_name (codes "localhost"))
                    || x.goes_by host (ip_address (codes "127.0.0.1")))))
    mutual_trust s c host t e e' =
        let (server, client) = built s c e e' in rw (server, client) (contexts_trust laws host t)
