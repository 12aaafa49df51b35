-- ===== src/Tls/Sync.antt =====
-- The receive loop against a peer that sends anything: the file, the hash and the count agree,
-- the final name is left alone, and the loop ends.
use cmpe272_finaltest_assesm.Prelude.{
  ℕ, zero, suc, ◌<◌, ◌≡◌, ◌≢◌, refl, ap, sym, ◌∙◌, [], ◌∷◌, ◌++◌, append_assoc, some, arith, inl,
  inr, length, length-append,
}
use cmpe272_finaltest_assesm.Result.{Error, Result, ok, err, diverged}
use cmpe272_finaltest_assesm.Exec.{outcome-cases}
use cmpe272_finaltest_assesm.Bytes.{Bytes}
use cmpe272_finaltest_assesm.Socket.{Socket, recv_exact, recv_frame}
use cmpe272_finaltest_assesm.Socket.Consume.{recv_exact-Reads, recv_frame-ReadsFrame}
use cmpe272_finaltest_assesm.Util.{sha256_len}
use cmpe272_finaltest_assesm.Util.WriteAt.{write_at-end}
use cmpe272_finaltest_assesm.Tls.Receiver.{
  World, Progress, advance, write_part, recv_chunks, transfer,
}

-- The open file, its position, the hash and the count agree.
pub record InSync (p : Progress) (w : World) : Type 0 where
  pub written : w.part ≡ some p.h
  pub at_end : p.position ≡ length p.h
  pub counted : p.received ≡ length p.h

-- What the loop does, however it ends: the final name is left alone.
abbrev pub Loops : World → Result Progress × World → Type 0
Loops w (ok q, w') =
    InSync q w' × (w'.out ≡ w.out) × ((read : Bytes) × (w.tls.pending ≡ read ++ w'.tls.pending))
Loops w (err e, w') = (w'.out ≡ w.out) × (e ≢ diverged)

Loops-later :
    (w w1 : World) (o : Result Progress × World) (read : Bytes)
    → w1.out ≡ w.out
    → w.tls.pending ≡ read ++ w1.tls.pending
    → Loops w1 o
    → Loops w o
Loops-later w w1 (ok q, w') read same e (sync, same', (read', e')) = (
  sync,
  same' ∙ same,
  (read ++ read', e ∙ ap (λ r. read ++ r) e' ∙ sym (append_assoc read read' w'.tls.pending)),
)
Loops-later w w1 (err e', w') read same e (same', ends) = (same' ∙ same, ends)

-- A chunk that comes is appended and hashed.
advance-InSync :
    (b : ℕ) (bs : Bytes) (p : Progress) (w w1 : World)
    → InSync p w
    → w1.part ≡ w.part
    → InSync (advance (b ∷ bs) p) (write_part p.position (b ∷ bs) w1)
advance-InSync b bs p w w1 sync same =
    let sizes = length-append p.h (b ∷ bs) in
    record {
      written =
          ground (arith, sync.written, same, write_at-end p.position (b ∷ bs) p.h sync.at_end);
      at_end = omega (arith, sync.at_end);
      counted = omega (arith, sync.counted);
    }

-- One round of the loop, by what the next frame is.
module _ (fuel : ℕ) (p : Progress) (w : World) (s1 : Socket) where
  pub recv_chunks-last :
      recv_frame w.tls ≡ (ok [], s1) → recv_chunks (suc fuel) p w ≡ (ok p, record w { tls = s1 })
  unfolding recv_chunks
  recv_chunks-last q = ground (arith, q)

  pub recv_chunks-next :
      (b : ℕ) (bs : Bytes)
      → recv_frame w.tls ≡ (ok (b ∷ bs), s1)
      → recv_chunks (suc fuel) p w
        ≡ recv_chunks fuel
            (advance (b ∷ bs) p)
            (write_part p.position (b ∷ bs) (record w { tls = s1 }))
  unfolding recv_chunks
  recv_chunks-next b bs q = ground (arith, q)

  pub recv_chunks-raise :
      (e : Error)
      → recv_frame w.tls ≡ (err e, s1)
      → recv_chunks (suc fuel) p w ≡ (err e, record w { tls = s1 })
  unfolding recv_chunks
  recv_chunks-raise e q = ground (arith, q)

recv_chunks-Loops :
    (fuel : ℕ) (p : Progress) (w : World)
    → length w.tls.pending < fuel
    → InSync p w
    → Loops w (recv_chunks fuel p w)
recv_chunks-Loops zero p w lt sync = elim lt [ ]
recv_chunks-Loops (suc fuel) p w lt sync = elim (outcome-cases (recv_frame w.tls)) [
  | inl ([], s1, q) ↦
      let (prefix, e, size) = rw q at (recv_frame-ReadsFrame w.tls) in
      rw (recv_chunks-last fuel p w s1 q) (
        record { written = sync.written; at_end = sync.at_end; counted = sync.counted },
        refl,
        (prefix, e),
      )
  | inl (b ∷ bs, s1, q) ↦
      let (prefix, e, size) = rw q at (recv_frame-ReadsFrame w.tls) in
      let c : Bytes = b ∷ bs in
      let w1 : World = record w { tls = s1 } in
      let w2 = write_part p.position c w1 in
      let all = ap length e in
      let parts = length-append prefix (c ++ s1.pending) in
      let parts' = length-append c s1.pending in
      rw (recv_chunks-next fuel p w s1 b bs q) (
        Loops-later w w2 (recv_chunks fuel (advance c p) w2) (prefix ++ c) refl
          (e ∙ sym (append_assoc prefix c s1.pending))
          (recv_chunks-Loops fuel (advance c p) w2 (omega arith)
            (advance-InSync b bs p w w1 sync refl)))
  | inr (e, s1, q) ↦
      rw (recv_chunks-raise fuel p w s1 e q) (refl, rw q at (recv_frame-ReadsFrame w.tls))
]

-- The digest is the last thing that is read.
abbrev pub Transfers : World → Result (Progress × Bytes) × World → Type 0
Transfers w (ok (q, digest), w') =
    InSync q w'
    × (w'.out ≡ w.out)
    × ((read : Bytes) × (w.tls.pending ≡ read ++ (digest ++ w'.tls.pending)))
Transfers w (err e, w') = (w'.out ≡ w.out) × (e ≢ diverged)

-- The three ways in which the body of the `try` can end.
module _ (p : Progress) (w w1 : World) where
  abbrev pub looped : Result Progress × World
  looped = recv_chunks (suc (length w.tls.pending)) p w

  pub transfer-done :
      (q : Progress) (bs : Bytes) (s2 : Socket)
      → looped ≡ (ok q, w1)
      → recv_exact sha256_len w1.tls ≡ (ok bs, s2)
      → transfer p w ≡ (ok (q, bs), record w1 { tls = s2 })
  unfolding transfer
  transfer-done q bs s2 ran e = ground (arith, ran, e)

  pub transfer-undigested :
      (q : Progress) (e : Error) (s2 : Socket)
      → looped ≡ (ok q, w1)
      → recv_exact sha256_len w1.tls ≡ (err e, s2)
      → transfer p w ≡ (err e, record w1 { tls = s2 })
  unfolding transfer
  transfer-undigested q e s2 ran e' = ground (arith, ran, e')

  pub transfer-raise : (e : Error) → looped ≡ (err e, w1) → transfer p w ≡ (err e, w1)
  unfolding transfer
  transfer-raise e ran = ground (arith, ran)

pub transfer-Transfers : (p : Progress) (w : World) → InSync p w → Transfers w (transfer p w)
transfer-Transfers p w sync =
    let l = recv_chunks-Loops (suc (length w.tls.pending)) p w (omega arith) sync in
    elim (outcome-cases (recv_chunks (suc (length w.tls.pending)) p w)) [
      | inr (e, w1, ran) ↦ rw (transfer-raise p w w1 e ran) (rw ran at l)
      | inl (q, w1, ran) ↦
          let (sync', same, (read, e')) = rw ran at l in
          elim (outcome-cases (recv_exact sha256_len w1.tls)) [
            | inl (bs, s2, x) ↦
                let (next, size) = rw x at (recv_exact-Reads sha256_len w1.tls) in
                rw (transfer-done p w w1 q bs s2 ran x) (
                  record {
                    written = sync'.written;
                    at_end = sync'.at_end;
                    counted = sync'.counted;
                  },
                  same,
                  (read, e' ∙ ap (λ r. read ++ r) next),
                )
            | inr (e, s2, x) ↦
                rw (transfer-undigested p w w1 q e s2 ran x)
                  (same, rw x at (recv_exact-Reads sha256_len w1.tls))
          ]
    ]
