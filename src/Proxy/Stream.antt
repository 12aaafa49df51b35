-- ===== src/Proxy/Stream.antt =====
-- What the relay makes of a stream, however its bytes arrive.
use cmpe272_finaltest_assesm.Prelude.{
  ℕ, zero, suc, ◌+◌, ◌-◌, ◌<◌, ◌≡◌, refl, ap, sym, ◌∙◌, Bool, true, false, none, [], ◌∷◌, ◌++◌,
  append_assoc, append-nil, arith, ltb, ltb→lt, Bool-cases, inl, inr, length, length-take,
  length-drop, take, drop, min, if◌then◌else◌,
}
use cmpe272_finaltest_assesm.Result.{Result, ok}
use cmpe272_finaltest_assesm.Exec.{Exec, ◌>>◌, bind-ok}
use cmpe272_finaltest_assesm.Bytes.{Bytes}
use cmpe272_finaltest_assesm.Socket.{Socket, recv, sendall}
use cmpe272_finaltest_assesm.Socket.Exact.{skip, taken, recv_some}
use cmpe272_finaltest_assesm.Socket.Frame.{sendall-ok}
use cmpe272_finaltest_assesm.Proxy.{
  Mode, Pair, tampered, cuts, send_allowed, on_src, on_dst, on_data, passed_over, relay_loop, relay,
}
use cmpe272_finaltest_assesm.Proxy.Tampered.{
  delivered, rest, rest_step, rest_nil, rest_cut, rest_whole,
}

send_allowed_lem :
    (n : ℕ) (bs : Bytes) (p : Pair)
    → p.dst.room ≡ none
    → send_allowed n bs p
      ≡ (ok tt, record p { dst = record p.dst { sent = p.dst.sent ++ take n bs } })
send_allowed_lem zero bs p e =
    ap (λ q. (ok tt, record p { dst = record p.dst { sent = q } })) (sym (append-nil p.dst.sent))
send_allowed_lem (suc n) bs p e = ground (arith, sendall-ok (take (suc n) bs) p.dst e)

module _ (tamper : Bool) (mode : Mode) (at : ℕ) where
  on_data_some :
      (go : ℕ → Exec Pair Unit) (t : ℕ) (block : Bytes)
      → 0 < length block
      → on_data tamper mode at go t block ≡ (
          if cuts tamper mode at t block
          then send_allowed (at - t) block
          else (on_dst (sendall (tampered tamper mode at t block)) >> go (t + length block)))
  on_data_some go t [] h = elim h [ ]
  on_data_some go t (b ∷ bs) h = refl

  -- A round of the loop, by whether the cut falls into its block.
  relay_loop-round :
      (fuel t : ℕ) (p : Pair)
      → 0 < length p.src.pending
      → let k = taken 65536 p.src in
        let block = take k p.src.pending in
        relay_loop tamper mode at (suc fuel) t p
        ≡ (if cuts tamper mode at t block
              then send_allowed (at - t) block
              else (on_dst (sendall (tampered tamper mode at t block))
                  >> relay_loop tamper mode at fuel (t + length block)))
            (record p { src = skip k p.src })
  unfolding relay_loop
  relay_loop-round fuel t p more =
      let k = taken 65536 p.src in
      let block = take k p.src.pending in
      let p1 : Pair = record p { src = skip k p.src } in
      let size : length block ≡ min k (length p.src.pending) = length-take k p.src.pending in
      bind-ok (on_src (recv 65536)) (on_data tamper mode at (relay_loop tamper mode at fuel) t) (
        ap (λ (o : Result Bytes × Socket). (o.0, record p { src = o.1 }))
          (recv_some 65536 p.src more))
      ∙ ap (λ (m : Exec Pair Unit). m p1)
          (on_data_some (relay_loop tamper mode at fuel) t block (omega arith))

  abbrev block : Pair → Bytes
  block p = take (taken 65536 p.src) p.src.pending

  -- The pair once `block` is read and these bytes are sent on.
  abbrev relayed : Bytes → Pair → Pair
  relayed bs p = record p {
    src = skip (taken 65536 p.src) p.src;
    dst = record p.dst { sent = p.dst.sent ++ bs };
  }

  module _ (fuel t : ℕ) (p : Pair) (more : 0 < length p.src.pending) (e : p.dst.room ≡ none) where
    relay_loop-cut :
        cuts tamper mode at t (block p) ≡ true
        → relay_loop tamper mode at (suc fuel) t p ≡ (ok tt, relayed (take (at - t) (block p)) p)
    relay_loop-cut h =
        let p1 : Pair = record p { src = skip (taken 65536 p.src) p.src } in
        let on : Exec Pair Unit =
          on_dst (sendall (tampered tamper mode at t (block p)))
          >> relay_loop tamper mode at fuel (t + length (block p)) in
        relay_loop-round fuel t p more
        ∙ ap (λ c. (if c then send_allowed (at - t) (block p) else on) p1) h
        ∙ send_allowed_lem (at - t) (block p) p1 e

    relay_loop-on :
        cuts tamper mode at t (block p) ≡ false
        → relay_loop tamper mode at (suc fuel) t p
          ≡ relay_loop tamper mode at fuel
              (t + length (block p))
              (relayed (tampered tamper mode at t (block p)) p)
    relay_loop-on h =
        let p1 : Pair = record p { src = skip (taken 65536 p.src) p.src } in
        let bs = tampered tamper mode at t (block p) in
        let next : Exec Pair Unit = relay_loop tamper mode at fuel (t + length (block p)) in
        relay_loop-round fuel t p more
        ∙ ap
            (λ c. (if c then send_allowed (at - t) (block p) else (on_dst (sendall bs) >> next)) p1)
            h
        ∙ bind-ok (on_dst (sendall bs)) (λ u. next)
            (ap (λ (o : Result Unit × Socket). (o.0, record p1 { dst = o.1 }))
              (sendall-ok bs p.dst e))

  relay_loop-dry :
      (fuel t : ℕ) (p : Pair)
      → p.src.pending ≡ []
      → (passed_over tamper mode at (relay_loop tamper mode at (suc fuel) t p).0 ≡ ok tt)
        × ((relay_loop tamper mode at (suc fuel) t p).1.dst.sent ≡ p.dst.sent)
  unfolding relay_loop recv
  relay_loop-dry fuel t p e = ground (arith, e)

  -- The loop sends on what is left of the stream, tampered with.
  relay_loop_lem :
      (fuel t : ℕ) (p : Pair)
      → length p.src.pending < fuel
      → p.dst.room ≡ none
      → (passed_over tamper mode at (relay_loop tamper mode at fuel t p).0 ≡ ok tt)
        × ((relay_loop tamper mode at fuel t p).1.dst.sent
            ≡ p.dst.sent ++ rest tamper mode at t p.src.pending)
  relay_loop_lem zero t p h e = elim h [ ]
  relay_loop_lem (suc fuel) t p h e = elim (Bool-cases (ltb 0 (length p.src.pending))) [
    | inr dry ↦
        let none_left : p.src.pending ≡ [] = ground arith in
        let (quiet, same) = relay_loop-dry fuel t p none_left in
        (
          quiet,
          same
              ∙ sym (append-nil p.dst.sent)
              ∙ ap (λ q. p.dst.sent ++ q)
                  (sym (ap (rest tamper mode at t) none_left ∙ rest_nil tamper mode at t)),
        )
    | inl some_left ↦
        let more = ltb→lt 0 (length p.src.pending) some_left in
        let k = taken 65536 p.src in
        elim (Bool-cases (cuts tamper mode at t (block p))) [
          | inl cut ↦
              let ran = relay_loop-cut fuel t p more e cut in
              (
                ap (λ o. passed_over tamper mode at o.0) ran,
                ap (λ o. o.1.dst.sent) ran
                    ∙ ap (λ q. p.dst.sent ++ q) (rest_cut tamper mode at t k p.src.pending cut),
              )
          | inr whole ↦
              let bs = tampered tamper mode at t (block p) in
              let ran = relay_loop-on fuel t p more e whole in
              let size : length (block p) ≡ k = omega (arith, length-take {0} k p.src.pending) in
              let (quiet, sent) =
                relay_loop_lem fuel (t + length (block p)) (relayed bs p)
                  (omega (arith, length-drop {0} k p.src.pending)) e in
              (
                ap (λ o. passed_over tamper mode at o.0) ran ∙ quiet,
                ap (λ o. o.1.dst.sent) ran
                    ∙ sent
                    ∙ append_assoc p.dst.sent bs
                        (rest tamper mode at (t + length (block p)) (drop k p.src.pending))
                    ∙ ap
                        (λ m.
                          p.dst.sent ++ (bs ++ rest tamper mode at (t + m) (drop k p.src.pending)))
                        size
                    ∙ ap (λ q. p.dst.sent ++ q)
                        (rest_step tamper mode at t k p.src.pending (omega arith) whole),
              )
        ]
  ]

-- If the connection to the other end holds, then it gets the stream with the byte at the offset
-- flipped, or the stream up to the offset, or all of the stream, by the mode, and all of it in the
-- direction that is not tampered with; however the stream arrives and ends, no error comes out and both
-- ends are closed.
pub relay_lem :
    (tamper : Bool) (mode : Mode) (at : ℕ) (p : Pair)
    → p.dst.room ≡ none
    → ((relay tamper mode at p).0 ≡ ok tt)
      × ((relay tamper mode at p).1.dst.sent ≡ p.dst.sent ++ delivered tamper mode at p.src.pending)
      × ((relay tamper mode at p).1.is_open ≡ false)
unfolding relay
relay_lem tamper mode at p e =
    let (quiet, sent) =
      relay_loop_lem tamper mode at (suc (length p.src.pending)) 0 p (omega arith) e in
    (quiet, sent ∙ ap (λ q. p.dst.sent ++ q) (rest_whole tamper mode at p.src.pending), refl)
