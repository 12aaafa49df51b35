-- ===== src/Tls/Main/Exits.antt =====
-- The exit codes of both programs of approach A, and what they mean.
use cmpe272_finaltest_assesm.Prelude.{
  ℕ, ◌≡◌, ◌≢◌, refl, ap, ◌∙◌, ◌⊎◌, inl, inr, none, some, arith, length,
}
use cmpe272_finaltest_assesm.Result.{Result, ok, err}
use cmpe272_finaltest_assesm.Bytes.{Bytes}
use cmpe272_finaltest_assesm.Socket.{Socket}
use cmpe272_finaltest_assesm.Util.{sha256_len}
use cmpe272_finaltest_assesm.Tls.Sender.{exit_code}
use cmpe272_finaltest_assesm.Tls.Receiver.{World, receive}
use cmpe272_finaltest_assesm.Tls.EndToEnd.{IsConnected, IsUsable, delivery}
use cmpe272_finaltest_assesm.Tls.Safety.{IsVerified, FailsClosed, fail_closed}
use cmpe272_finaltest_assesm.Tls.Main.{
  Accepted, timed_out, failed, accepted, Disk, world, disk, receiver_main, sender_main,
}

-- No exception becomes the exit code 0.
exit_code-ne : (r : Result ℕ) → r ≢ ok 0 → exit_code r ≢ ok 0
unfolding exit_code
exit_code-ne (ok n) h = h
exit_code-ne (err e) h = λ q. ground arith

module _ (sha256 : Bytes → Bytes) where
  -- Either the program exits with 0, after a handshake that succeeded and a transfer that was verified,
  -- or it does not exit with 0 and the final name is as it was.
  abbrev pub MainFailsClosed : Accepted → Disk → Result ℕ × Disk → Type 0
  MainFailsClosed a d (r, d') =
      ((tls : Socket) × (w' : World) × (c : Bytes) × (a ≡ accepted (ok tls))
        × (r ≡ ok 0)
        × IsVerified sha256 (world tls d) w' c
        × (d' ≡ disk w'))
      ⊎ ((r ≢ ok 0) × (d'.out ≡ d.out))

  received :
      (tls : Socket) (d : Disk) (o : Result ℕ × World)
      → FailsClosed sha256 (world tls d) o
      → MainFailsClosed (accepted (ok tls)) d (exit_code o.0, disk o.1)
  received tls d (r, w') (inl (c, code, verified), ends) =
      inl (tls, w', c, refl, ap exit_code code ∙ (unfold exit_code in refl), verified, refl)
  received tls d (r, w') (inr (no_success, same), ends) = inr (exit_code-ne r no_success, same)

  -- Whatever the connection, the handshake and the peer do, the receiver's program exits with 0 only
  -- after a handshake that succeeded, with a file under the final name whose size a header announced
  -- and whose digest was the last thing read; otherwise the final name is as it was.
  pub main_fail_closed : (a : Accepted) (d : Disk) → MainFailsClosed a d (receiver_main sha256 a d)
  unfolding receiver_main
  main_fail_closed timed_out d = inr (λ h. ground arith, refl)
  main_fail_closed (failed e) d = inr (λ h. ground arith, refl)
  main_fail_closed (accepted (err e)) d = inr (exit_code-ne (err e) (λ h. ground arith), refl)
  main_fail_closed (accepted (ok tls)) d =
      received tls d (receive sha256 (world tls d)) (fail_closed sha256 (world tls d))

  module _ (digest_size : (bs : Bytes) → length (sha256 bs) ≡ sha256_len) (file : Bytes) where
    -- If both handshakes succeed, the new connection holds, each side reads what the other one sends,
    -- and the partial file, if any, is the beginning of the file or
    -- longer than it, then both programs exit with 0, the final name holds exactly the file, and the
    -- partial file is gone.
    pub main_delivers :
        (client server : Socket) (d : Disk)
        → IsConnected sha256 file (world server d) client
        → IsUsable sha256 file d.part
        → server.pending ≡ (sender_main sha256 (some file) (ok (ok client))).1
        → ((sender_main sha256 (some file) (ok (ok client))).0 ≡ ok 0)
          × (receiver_main sha256 (accepted (ok server)) d
              ≡ (ok 0, record { part = none; out = some file }))
    unfolding sender_main receiver_main exit_code
    main_delivers client server d c u arrived =
        let (sent, received_all, out, part) =
          delivery sha256 file digest_size (world server d) client c u arrived in
        (ap exit_code sent, ground (arith, received_all, out, part))
