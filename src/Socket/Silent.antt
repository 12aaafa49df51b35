-- ===== src/Socket/Silent.antt =====
-- Reading from a socket sends nothing.
use cmpe272_finaltest_assesm.Prelude.{
  ℕ, ◌≡◌, refl, ◌∙◌, arith, leb, leb→le, Bool-cases, inl, inr, length,
}
use cmpe272_finaltest_assesm.Result.{Result-cases}
use cmpe272_finaltest_assesm.Exec.{bind-ok, bind-err, outcome-cases}
use cmpe272_finaltest_assesm.Bytes.{unpack_q}
use cmpe272_finaltest_assesm.Socket.{Socket, recv_exact, recv_frame}
use cmpe272_finaltest_assesm.Socket.Exact.{recv_exact-ok, recv_exact-short}

pub recv_exact-sent : (n : ℕ) (s : Socket) → (recv_exact n s).1.sent ≡ s.sent
recv_exact-sent n s = elim (Bool-cases (leb n (length s.pending))) [
  | inl enough ↦ rw (recv_exact-ok n s (leb→le n (length s.pending) enough)) refl
  | inr short ↦ rw (recv_exact-short n s (ground arith)) refl
]

pub recv_frame-sent : (s : Socket) → (recv_frame s).1.sent ≡ s.sent
unfolding recv_frame
recv_frame-sent s = elim (outcome-cases (recv_exact 8 s)) [
  | inl (prefix, s1, q) ↦
      let kept : s1.sent ≡ s.sent = rw q at (recv_exact-sent 8 s) in
      elim (Result-cases (unpack_q prefix)) [
        | inl (n, u) ↦ rw (bind-ok (recv_exact 8) _ q, u) (recv_exact-sent n s1 ∙ kept)
        | inr (e, u) ↦ rw (bind-ok (recv_exact 8) _ q, u) kept
      ]
  | inr (e, s1, q) ↦ rw (bind-err (recv_exact 8) _ q) (rw q at (recv_exact-sent 8 s))
]
