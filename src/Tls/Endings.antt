-- ===== src/Tls/Endings.antt =====
-- The ways in which `receive` ends before the transfer, and what it is after its header.
use cmpe272_finaltest_assesm.Prelude.{ℕ, ◌≡◌, refl, some, arith}
use cmpe272_finaltest_assesm.Result.{Error, ok, err}
use cmpe272_finaltest_assesm.Bytes.{Bytes, pack_q, unpack_qq}
use cmpe272_finaltest_assesm.Socket.{Socket, send_frame, recv_frame}
use cmpe272_finaltest_assesm.Tls.Receiver.{World, size_or_zero, try_transfer, receive}
use cmpe272_finaltest_assesm.Tls.Start.{kept, progress_at, negotiate-open}

module _ (sha256 : Bytes → Bytes) (w : World) (claim : Bytes) (s1 s2 : Socket) where
  pub receive-unclaimed :
      (e : Error) → pack_q (size_or_zero w.part) ≡ err e → receive sha256 w ≡ (err e, w)
  unfolding receive
  receive-unclaimed e p = ground (arith, p)

  pub receive-unsent :
      (e : Error)
      → pack_q (size_or_zero w.part) ≡ ok claim
      → send_frame claim w.tls ≡ (err e, s1)
      → receive sha256 w ≡ (err e, record w { tls = s1 })
  unfolding receive
  receive-unsent e p sent = ground (arith, p, sent)

  pub receive-unanswered :
      (e : Error)
      → pack_q (size_or_zero w.part) ≡ ok claim
      → send_frame claim w.tls ≡ (ok tt, s1)
      → recv_frame s1 ≡ (err e, s2)
      → receive sha256 w ≡ (err e, record w { tls = s2 })
  unfolding receive
  receive-unanswered e p sent got = ground (arith, p, sent, got)

  pub receive-misread :
      (e : Error) (header : Bytes)
      → pack_q (size_or_zero w.part) ≡ ok claim
      → send_frame claim w.tls ≡ (ok tt, s1)
      → recv_frame s1 ≡ (ok header, s2)
      → unpack_qq header ≡ err e
      → receive sha256 w ≡ (err e, record w { tls = s2 })
  unfolding receive
  receive-misread e header p sent got read = ground (arith, p, sent, got, read)

  pub receive-started :
      (header : Bytes) (total accepted : ℕ)
      → pack_q (size_or_zero w.part) ≡ ok claim
      → send_frame claim w.tls ≡ (ok tt, s1)
      → recv_frame s1 ≡ (ok header, s2)
      → unpack_qq header ≡ ok (total, accepted)
      → let held = kept accepted w.part in
        receive sha256 w
        ≡ try_transfer sha256 total (progress_at held) (record w { tls = s2; part = some held })
  unfolding receive
  receive-started header total accepted p sent got read = ground (
    arith,
    p,
    sent,
    got,
    read,
    negotiate-open (try_transfer sha256 total) w.part accepted (record w { tls = s2 }) refl,
  )
