-- ===== src/Socket/Consume.antt =====
-- What the readers take from a stream of any bytes at all: rules, one for each way to build a read.
use cmpe272_finaltest_assesm.Prelude.{
  ℕ, ◌≡◌, ◌≢◌, ap, sym, ◌∙◌, ◌++◌, arith, leb, leb→le, Bool-cases, inl, inr, length, length-take,
  take-append-drop,
}
use cmpe272_finaltest_assesm.Result.{Error, Result, ok, err, diverged}
use cmpe272_finaltest_assesm.Exec.{bind-ok, bind-err, outcome-cases}
use cmpe272_finaltest_assesm.Bytes.{Bytes, pack_q, unpack_q, unpack_qq, from_be}
use cmpe272_finaltest_assesm.Socket.{
  Socket, End, closed, broken, sendall, recv_exact, send_frame, recv_frame,
}
use cmpe272_finaltest_assesm.Socket.Exact.{cut, recv_exact-ok, recv_exact-short}

-- A read of `n` bytes returns the next `n`, or raises.
abbrev pub Reads : ℕ → Socket → Result Bytes × Socket → Type 0
Reads n s (ok bs, s') = (s.pending ≡ bs ++ s'.pending) × (length bs ≡ n)
Reads n s (err e, s') = e ≢ diverged

-- A frame takes its prefix and its payload from the stream.
abbrev pub ReadsFrame : Socket → Result Bytes × Socket → Type 0
ReadsFrame s (ok bs, s') =
    (prefix : Bytes) × (s.pending ≡ prefix ++ (bs ++ s'.pending)) × (length prefix ≡ 8)
ReadsFrame s (err e, s') = e ≢ diverged

Reads-cut : (n : ℕ) (s s' : Socket) → Reads n s (cut s.ending, s')
Reads-cut n s s' = by_ending n s s' s.ending
  where
    by_ending : (n : ℕ) (s s' : Socket) (e : End) → Reads n s (cut e, s')
    by_ending n s s' closed = λ h. ground arith
    by_ending n s s' broken = λ h. ground arith

pub recv_exact-Reads : (n : ℕ) (s : Socket) → Reads n s (recv_exact n s)
recv_exact-Reads n s = elim (Bool-cases (leb n (length s.pending))) [
  | inl enough ↦
      let le = leb→le n (length s.pending) enough in
      rw (recv_exact-ok n s le)
        (sym (take-append-drop n s.pending), omega (arith, length-take {0} n s.pending))
  | inr short ↦ rw (recv_exact-short n s (ground arith)) (Reads-cut n s _)
]

-- The payload, behind a prefix that has been read.
payload-ReadsFrame :
    (n : ℕ) (prefix : Bytes) (s s1 : Socket) (o : Result Bytes × Socket)
    → s.pending ≡ prefix ++ s1.pending
    → length prefix ≡ 8
    → Reads n s1 o
    → ReadsFrame s o
payload-ReadsFrame n prefix s s1 (ok bs, s') e size r =
    (prefix, e ∙ ap (λ q. prefix ++ q) r.0, size)
payload-ReadsFrame n prefix s s1 (err e', s') e size r = r

unpack_q_total : (prefix : Bytes) → length prefix ≡ 8 → (n : ℕ) × (unpack_q prefix ≡ ok n)
unfolding unpack_q
unpack_q_total prefix size = (from_be 0 prefix, ground arith)

pub recv_frame-ReadsFrame : (s : Socket) → ReadsFrame s (recv_frame s)
unfolding recv_frame
recv_frame-ReadsFrame s = elim (outcome-cases (recv_exact 8 s)) [
  | inl (prefix, s1, q) ↦
      let (e, size) = rw q at (recv_exact-Reads 8 s) in
      let (n, unpacked) = unpack_q_total prefix size in
      rw (bind-ok (recv_exact 8) _ q, unpacked)
        (payload-ReadsFrame n prefix s s1 (recv_exact n s1) e size (recv_exact-Reads n s1))
  | inr (e, s1, q) ↦ rw (bind-err (recv_exact 8) _ q) (rw q at (recv_exact-Reads 8 s))
]

-- Sending takes nothing from the incoming stream.
abbrev pub Sends : Socket → Result (Unit {0}) × Socket → Type 0
Sends s (ok _, s') = s'.pending ≡ s.pending
Sends s (err e, s') = e ≢ diverged

pub send_frame-Sends : (bs : Bytes) (s : Socket) → Sends s (send_frame bs s)
unfolding send_frame sendall pack_q
send_frame-Sends bs s = ground arith

pub pack_q-ends : (n : ℕ) (e : Error) → pack_q n ≡ err e → e ≢ diverged
unfolding pack_q
pack_q-ends n e h = λ d. ground arith

pub unpack_qq-ends : (bs : Bytes) (e : Error) → unpack_qq bs ≡ err e → e ≢ diverged
unfolding unpack_qq
unpack_qq-ends bs e h = λ d. ground arith
