-- ===== src/Proxy/Frames.antt =====
-- A frame of an unencrypted connection that the relay cuts off.
use cmpe272_finaltest_assesm.Prelude.{ℕ, ◌<◌, ◌≡◌, ap, ◌∙◌, true, none, [], ◌++◌, length, take}
use cmpe272_finaltest_assesm.Bytes.{Bytes, u64_mod}
use cmpe272_finaltest_assesm.Socket.{Socket, send_frame, recv_frame}
use cmpe272_finaltest_assesm.Socket.Exact.{cut}
use cmpe272_finaltest_assesm.Socket.Frame.{recv_frame_truncated}
use cmpe272_finaltest_assesm.Proxy.{truncate, Pair, relay}
use cmpe272_finaltest_assesm.Proxy.Stream.{relay_lem}

-- If a frame with a payload shorter than 2 ^ 64 is relayed, and the relay truncates the stream before
-- the end of the frame, then the other side reads no payload, but gets the error with which its stream
-- ends.
recv_frame-relay :
    (at : ℕ) (payload : Bytes) (a b : Socket) (p : Pair)
    → length payload < u64_mod
    → a.room ≡ none
    → a.sent ≡ []
    → at < length (send_frame payload a).1.sent
    → p.src.pending ≡ (send_frame payload a).1.sent
    → p.dst.room ≡ none
    → p.dst.sent ≡ []
    → b.pending ≡ (relay true truncate at p).1.dst.sent
    → recv_frame b ≡ (cut b.ending, record b { pending = [] })
recv_frame-relay at payload a b p fits room empty early from holds fresh arrived =
    let sent = (relay_lem true truncate at p holds).1 in
    recv_frame_truncated at payload a b fits room empty early
      (arrived ∙ sent ∙ ap (λ q. q ++ take at p.src.pending) fresh ∙ ap (take at) from)
