-- ===== src/Socket/Frame.antt =====
-- What `send_frame` writes, `recv_frame` reads; a frame that is cut off anywhere is refused.
use cmpe272_finaltest_assesm.Prelude.{
  ℕ, ◌+◌, ◌-◌, ◌≤◌, ◌<◌, ◌≡◌, refl, ap, sym, ◌∙◌, [], ◌++◌, append_assoc, append-nil, none, inl,
  inr, arith, ltb, ltb→lt, Bool-cases, length, length-append, length-take, take, take-append_self,
  drop-append_self, take-append_ge,
}
use cmpe272_finaltest_assesm.Result.{ok}
use cmpe272_finaltest_assesm.Bytes.{Bytes, be, u64_mod}
use cmpe272_finaltest_assesm.Bytes.BigEndian.{length-be, pack_q_lem, unpack_q-be}
use cmpe272_finaltest_assesm.Socket.{Socket, sendall, send_frame, recv_frame}
use cmpe272_finaltest_assesm.Socket.Exact.{cut, recv_exact-ok, recv_exact-short}

-- The bytes of one frame.
abbrev pub frame : Bytes → Bytes
frame payload = be 8 (length payload) ++ payload

pub length-frame : (c : Bytes) → length (frame c) ≡ 8 + length c
length-frame c = omega (arith, length-append {0} (be 8 (length c)) c, length-be 8 (length c))

pub sendall-ok :
    (bs : Bytes) (s : Socket)
    → s.room ≡ none
    → sendall bs s ≡ (ok tt, record s { sent = s.sent ++ bs })
unfolding sendall
sendall-ok bs s e = ground arith

-- On a connection that holds, exactly the frame is sent.
pub send_frame-ok :
    (payload : Bytes) (s : Socket)
    → length payload < u64_mod
    → s.room ≡ none
    → send_frame payload s ≡ (ok tt, record s { sent = s.sent ++ frame payload })
unfolding send_frame
send_frame-ok payload s h e =
    let prefix = be 8 (length payload) in
    ground (
      arith,
      pack_q_lem (length payload) h,
      sendall-ok prefix s e,
      sendall-ok payload (record s { sent = s.sent ++ prefix }) e,
      append_assoc s.sent prefix payload,
    )

module _ (c rest : Bytes) (s : Socket) (fits : length c < u64_mod) where
  pub recv_frame-ok :
      s.pending ≡ frame c ++ rest → recv_frame s ≡ (ok c, record s { pending = rest })
  unfolding recv_frame
  recv_frame-ok e =
      let prefix = be 8 (length c) in
      let len = length-be 8 (length c) in
      let all : s.pending ≡ prefix ++ (c ++ rest) = e ∙ append_assoc prefix c rest in
      let total = ap length all in
      let sizes = length-append prefix (c ++ rest) in
      let inner = length-append c rest in
      ground (
        arith,
        all,
        recv_exact-ok 8 s (omega arith),
        take-append_self prefix (c ++ rest) 8 (omega arith),
        drop-append_self prefix (c ++ rest) 8 (omega arith),
        unpack_q-be (length c) fits,
        recv_exact-ok (length c) (record s { pending = c ++ rest }) (omega arith),
        take-append_self c rest (length c) refl,
        drop-append_self c rest (length c) refl,
      )

  -- However many bytes of it come through, a frame that is not whole raises an error.
  pub recv_frame-cut :
      (k : ℕ)
      → k < 8 + length c
      → s.pending ≡ take k (frame c ++ rest)
      → recv_frame s ≡ (cut s.ending, record s { pending = [] })
  unfolding recv_frame
  recv_frame-cut k h e = elim (Bool-cases (ltb k 8)) [
    | inl early ↦
        let lt = ltb→lt k 8 early in
        let len = ap length e in
        ground (
          arith,
          length-take k (frame c ++ rest),
          recv_exact-short 8 s (omega (arith, length-take {0} k (frame c ++ rest))),
        )
    | inr later ↦
        let prefix = be 8 (length c) in
        let len = length-be 8 (length c) in
        let ge : length prefix ≤ k = ground arith in
        let tail = take (k - length prefix) (c ++ rest) in
        let all : s.pending ≡ prefix ++ tail =
          e ∙ ap (take k) (append_assoc prefix c rest) ∙ take-append_ge k prefix (c ++ rest) ge in
        let total = ap length all in
        let sizes = length-append prefix tail in
        let short = length-take (k - length prefix) (c ++ rest) in
        ground (
          arith,
          all,
          recv_exact-ok 8 s (omega arith),
          take-append_self prefix tail 8 (omega arith),
          drop-append_self prefix tail 8 (omega arith),
          unpack_q-be (length c) fits,
          recv_exact-short (length c) (record s { pending = tail }) (omega arith),
        )
  ]

-- A payload shorter than 2 ^ 64 that is sent on a connection that holds, the other side receives, and
-- it takes nothing else from the stream.
pub recv_frame-send_frame :
    (payload rest : Bytes) (a b : Socket)
    → length payload < u64_mod
    → a.room ≡ none
    → a.sent ≡ []
    → b.pending ≡ (send_frame payload a).1.sent ++ rest
    → ((send_frame payload a).0 ≡ ok tt)
      × (recv_frame b ≡ (ok payload, record b { pending = rest }))
recv_frame-send_frame payload rest a b fits room empty e =
    let ran = send_frame-ok payload a fits room in
    let sent : (send_frame payload a).1.sent ≡ frame payload =
      ap (λ r. r.1.sent) ran ∙ ap (λ q. q ++ frame payload) empty in
    (ap (λ r. r.0) ran, recv_frame-ok payload rest b fits (e ∙ ap (λ q. q ++ rest) sent))

-- If at least one of the last bytes of such a frame is lost, the other side gets the error with which
-- the stream ends and no payload.
pub recv_frame_truncated :
    (k : ℕ) (payload : Bytes) (a b : Socket)
    → length payload < u64_mod
    → a.room ≡ none
    → a.sent ≡ []
    → k < length (send_frame payload a).1.sent
    → b.pending ≡ take k (send_frame payload a).1.sent
    → recv_frame b ≡ (cut b.ending, record b { pending = [] })
recv_frame_truncated k payload a b fits room empty h e =
    let ran = send_frame-ok payload a fits room in
    let sent : (send_frame payload a).1.sent ≡ frame payload =
      ap (λ r. r.1.sent) ran ∙ ap (λ q. q ++ frame payload) empty in
    let size = length-frame payload in
    recv_frame-cut payload [] b fits k (omega (arith, ap length sent))
      (e ∙ ap (take k) (sent ∙ sym (append-nil (frame payload))))
