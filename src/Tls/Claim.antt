-- ===== src/Tls/Claim.antt =====
-- What the receiver puts on the wire: its claim, and nothing else, whatever comes.
use cmpe272_finaltest_assesm.Prelude.{
  ℕ, zero, suc, ◌<◌, ◌≡◌, refl, ◌∙◌, [], ◌∷◌, ◌++◌, none, some, ◌&&◌, arith, ◌==◌, ◌=ₜ◌, Bool-cases,
  inl, inr, length,
}
use cmpe272_finaltest_assesm.Result.{Result, Result-cases, ok, err}
use cmpe272_finaltest_assesm.Exec.{outcome-cases}
use cmpe272_finaltest_assesm.Bytes.{Bytes, u64_mod, be, unpack_qq}
use cmpe272_finaltest_assesm.Bytes.BigEndian.{length-be, pack_q_lem}
use cmpe272_finaltest_assesm.Socket.{Socket, recv_exact, recv_frame}
use cmpe272_finaltest_assesm.Socket.Frame.{frame, send_frame-ok}
use cmpe272_finaltest_assesm.Socket.Silent.{recv_exact-sent, recv_frame-sent}
use cmpe272_finaltest_assesm.Util.{sha256_len}
use cmpe272_finaltest_assesm.Tls.Receiver.{
  World, Progress, is_caught, settle, size_or_zero, advance, write_part, recv_chunks, transfer,
  finish, try_transfer, receive,
}
use cmpe272_finaltest_assesm.Tls.Start.{kept, progress_at}
use cmpe272_finaltest_assesm.Tls.Sync.{
  recv_chunks-last, recv_chunks-next, recv_chunks-raise, transfer-done, transfer-undigested,
  transfer-raise,
}
use cmpe272_finaltest_assesm.Tls.Endings.{receive-unanswered, receive-misread, receive-started}

recv_chunks-sent :
    (fuel : ℕ) (p : Progress) (w : World) → (recv_chunks fuel p w).1.tls.sent ≡ w.tls.sent
recv_chunks-sent zero p w = unfold recv_chunks in refl
recv_chunks-sent (suc fuel) p w = elim (outcome-cases (recv_frame w.tls)) [
  | inl ([], s1, q) ↦ rw (recv_chunks-last fuel p w s1 q) (rw q at (recv_frame-sent w.tls))
  | inl (b ∷ bs, s1, q) ↦
      let c : Bytes = b ∷ bs in
      let silent : s1.sent ≡ w.tls.sent = rw q at (recv_frame-sent w.tls) in
      rw (recv_chunks-next fuel p w s1 b bs q) (
        recv_chunks-sent fuel (advance c p) (write_part p.position c (record w { tls = s1 }))
        ∙ silent)
  | inr (e, s1, q) ↦ rw (recv_chunks-raise fuel p w s1 e q) (rw q at (recv_frame-sent w.tls))
]

transfer-sent : (p : Progress) (w : World) → (transfer p w).1.tls.sent ≡ w.tls.sent
transfer-sent p w =
    let silent = recv_chunks-sent (suc (length w.tls.pending)) p w in
    elim (outcome-cases (recv_chunks (suc (length w.tls.pending)) p w)) [
      | inr (e, w1, ran) ↦ rw (transfer-raise p w w1 e ran) (rw ran at silent)
      | inl (q, w1, ran) ↦
          let looped : w1.tls.sent ≡ w.tls.sent = rw ran at silent in
          let last = recv_exact-sent sha256_len w1.tls in
          elim (outcome-cases (recv_exact sha256_len w1.tls)) [
            | inl (bs, s2, x) ↦ rw (transfer-done p w w1 q bs s2 ran x) ((rw x at last) ∙ looped)
            | inr (e, s2, x) ↦
                rw (transfer-undigested p w w1 q e s2 ran x) ((rw x at last) ∙ looped)
          ]
    ]

module _ (sha256 : Bytes → Bytes) where
  settle-sent :
      (total : ℕ) (r : Result (Progress × Bytes)) (w : World)
      → (settle sha256 total r w).1.tls.sent ≡ w.tls.sent
  unfolding finish
  settle-sent total (ok (q, digest)) w =
      elim (Bool-cases (q.received == total && sha256 q.h =ₜ digest)) [
        | inl good ↦ rw good refl
        | inr bad ↦ rw bad refl
      ]
  settle-sent total (err e) w = elim (Bool-cases (is_caught e)) [
    | inl c ↦ rw c refl
    | inr c ↦ rw c refl
  ]

  try_transfer-sent :
      (total : ℕ) (p : Progress) (w : World)
      → (try_transfer sha256 total p w).1.tls.sent ≡ w.tls.sent
  unfolding try_transfer
  try_transfer-sent total p w =
      let o = transfer p w in settle-sent total o.0 o.1 ∙ transfer-sent p w

  -- Whatever comes, and however the stream ends.
  pub receive-sent :
      (w : World)
      → w.tls.room ≡ none
      → size_or_zero w.part < u64_mod
      → (receive sha256 w).1.tls.sent ≡ w.tls.sent ++ frame (be 8 (size_or_zero w.part))
  receive-sent w room fits =
      let claim = be 8 (size_or_zero w.part) in
      let size = length-be 8 (size_or_zero w.part) in
      let s1 : Socket = record w.tls { sent = w.tls.sent ++ frame claim } in
      let packed = pack_q_lem (size_or_zero w.part) fits in
      let sent = send_frame-ok claim w.tls (omega arith) room in
      let silent = recv_frame-sent s1 in
      elim (outcome-cases (recv_frame s1)) [
        | inr (e, s2, got) ↦
            rw (receive-unanswered sha256 w claim s1 s2 e packed sent got) (rw got at silent)
        | inl (header, s2, got) ↦
            let heard : s2.sent ≡ s1.sent = rw got at silent in
            elim (Result-cases (unpack_qq header)) [
              | inr (e, read) ↦
                  rw (receive-misread sha256 w claim s1 s2 e header packed sent got read) heard
              | inl ((total, accepted), read) ↦
                  let held = kept accepted w.part in
                  rw
                    (receive-started sha256 w claim s1 s2 header total accepted packed sent got
                      read)
                    (try_transfer-sent total (progress_at held)
                        (record w { tls = s2; part = some held })
                      ∙ heard)
            ]
      ]
