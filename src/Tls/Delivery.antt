-- ===== src/Tls/Delivery.antt =====
-- What the receive loop does with the chunks of a sender, whole or cut off anywhere.
use cmpe272_finaltest_assesm.Prelude.{
  ℕ, zero, suc, ◌+◌, ◌-◌, ◌≤◌, ◌<◌, ◌≡◌, refl, ap, sym, ◌∙◌, List, [], ◌∷◌, ◌++◌, append_assoc,
  append-nil, some, arith, ltb, ltb→lt, Bool-cases, inl, inr, length, length-append, length-take,
  take, take-append_ge, take_all, drop_all,
}
use cmpe272_finaltest_assesm.Result.{Result, ok}
use cmpe272_finaltest_assesm.Bytes.{Bytes, u64_mod}
use cmpe272_finaltest_assesm.Socket.Exact.{cut, recv_exact-ok, recv_exact-short}
use cmpe272_finaltest_assesm.Socket.Frame.{frame, recv_frame-cut, length-frame}
use cmpe272_finaltest_assesm.Util.{sha256_len}
use cmpe272_finaltest_assesm.Tls.Receiver.{World, Progress, advance, recv_chunks, transfer}
use cmpe272_finaltest_assesm.Tls.Wire.{concat, wire, IsFrames}
use cmpe272_finaltest_assesm.Tls.Appended.{after, further, recv_chunks-step, recv_chunks-ok}

-- Of `k` bytes, the frame of the first of these chunks did not come whole behind `m` other bytes.
abbrev pub IsMissing : ℕ → ℕ → List Bytes → Type 0
IsMissing k m [] = Unit
IsMissing k m (e ∷ es) = k < m + length (frame e)

-- Exactly the frames of `ds` came whole in `k` bytes.
abbrev pub Arrived : ℕ → List Bytes → List Bytes → Type 0
Arrived k ds es = (length (wire ds) ≤ k) × IsMissing k (length (wire ds)) es

Arrived-step :
    (k k' : ℕ) (c : Bytes) (ds es : List Bytes)
    → k ≡ length (frame c) + k'
    → Arrived k' ds es
    → Arrived k (c ∷ ds) es
Arrived-step k k' c ds [] e (came, missing) =
    (omega (arith, length-append {0} (frame c) (wire ds)), tt)
Arrived-step k k' c ds (d ∷ es) e (came, missing) =
    let parts = length-append (frame c) (wire ds) in (omega arith, omega arith)

-- What is left behind when the stream breaks off after `k` bytes: the chunks `ds` that came whole, in
-- order.
abbrev pub Leaves : {A : Type 0} → ℕ → List Bytes → World → Bytes → Result A × World → Type 0
Leaves k cs w held o =
    (ds : List Bytes) × (es : List Bytes) × (cs ≡ ds ++ es)
    × Arrived k ds es
    × (o ≡ (cut w.tls.ending, after w [] (held ++ concat ds)))

Leaves-step :
    {A : Type 0} (k k' : ℕ) (c : Bytes) (cs : List Bytes) (w : World) (rest held : Bytes)
    (o o' : Result A × World)
    → k ≡ length (frame c) + k'
    → o ≡ o'
    → Leaves k' cs (after w rest (held ++ c)) (held ++ c) o'
    → Leaves k (c ∷ cs) w held o
Leaves-step k k' c cs w rest held o o' e same (ds, es, split, came, left) = (
  c ∷ ds,
  es,
  ap (λ l. c ∷ l) split,
  Arrived-step k k' c ds es e came,
  same ∙ left ∙ ap (λ q. (cut w.tls.ending, after w [] q)) (append_assoc held c (concat ds)),
)

recv_chunks-break :
    (fuel k : ℕ) (c rest held : Bytes) (p : Progress) (w : World)
    → length c < u64_mod
    → k < 8 + length c
    → w.part ≡ some held
    → w.tls.pending ≡ take k (frame c ++ rest)
    → recv_chunks (suc fuel) p w ≡ (cut w.tls.ending, after w [] held)
unfolding recv_chunks
recv_chunks-break fuel k c rest held p w fits h eh e =
    ground (arith, recv_frame-cut c rest w.tls fits k h e)

pub recv_chunks-cut :
    (fuel k : ℕ) (cs : List Bytes) (rest held : Bytes) (p : Progress) (w : World)
    → k < fuel
    → IsFrames cs
    → w.part ≡ some held
    → p.position ≡ length held
    → w.tls.pending ≡ take k (wire cs ++ (frame [] ++ rest))
    → k < length (wire cs) + 8
    → Leaves k cs w held (recv_chunks fuel p w)
recv_chunks-cut zero k cs rest held p w lt fr eh ep e h = elim lt [ ]
recv_chunks-cut (suc fuel) k [] rest held p w lt fr eh ep e h = (
  [],
  [],
  refl,
  (omega arith, tt),
  recv_chunks-break fuel k [] rest held p w (omega arith) (omega arith) eh e
      ∙ ap (λ q. (cut w.tls.ending, after w [] q)) (sym (append-nil held)),
)
recv_chunks-cut (suc fuel) k (c ∷ cs) rest held p w lt fr eh ep e h =
    elim (Bool-cases (ltb k (8 + length c))) [
      | inl early ↦ (
        [],
        c ∷ cs,
        refl,
        (omega arith, omega (arith, ltb→lt k _ early, length-frame c)),
        recv_chunks-break fuel k c tail held p w fr.1 (ltb→lt k _ early) eh start
            ∙ ap (λ q. (cut w.tls.ending, after w [] q)) (sym (append-nil held)),
      )
      | inr later ↦
          let size = length-frame c in
          let ge : length (frame c) ≤ k = ground arith in
          let k' = k - length (frame c) in
          let all = length-append (frame c) (wire cs) in
          let joined = length-append held c in
          let w' = after w (take k' tail) (held ++ c) in
          Leaves-step k k' c cs w (take k' tail) held _ _ (omega arith)
            (recv_chunks-step fuel c (take k' tail) held p w fr.0 fr.1 eh ep
              (start ∙ take-append_ge k (frame c) tail ge))
            (recv_chunks-cut fuel k' cs rest (held ++ c) (advance c p) w' (omega arith) fr.2 refl
              (omega arith) refl (omega arith))
    ]
  where
    tail : Bytes
    tail = wire cs ++ (frame [] ++ rest)

    start : w.tls.pending ≡ take k (frame c ++ tail)
    start = e ∙ ap (take k) (append_assoc (frame c) (wire cs) (frame [] ++ rest))

length-le-wire : (cs : List Bytes) → length cs ≤ length (wire cs)
length-le-wire [] = omega arith
length-le-wire (c ∷ cs) =
    omega (arith, length-append {0} (frame c) (wire cs), length-frame c, length-le-wire cs)

-- The whole stream: every chunk is appended, and the digest behind the marker is returned.
pub transfer-ok :
    (cs : List Bytes) (digest held : Bytes) (p : Progress) (w : World)
    → IsFrames cs
    → length digest ≡ sha256_len
    → w.part ≡ some held
    → p.position ≡ length held
    → w.tls.pending ≡ wire cs ++ (frame [] ++ digest)
    → transfer p w ≡ (ok (further (concat cs) p, digest), after w [] (held ++ concat cs))
unfolding transfer
transfer-ok cs digest held p w fr size eh ep e =
    let all = ap length e in
    let parts = length-append (wire cs) (frame [] ++ digest) in
    let enough = length-le-wire cs in
    let w' = after w digest (held ++ concat cs) in
    ground (
      arith,
      recv_chunks-ok (suc (length w.tls.pending)) cs digest held p w (omega arith) fr eh ep e,
      recv_exact-ok sha256_len w'.tls (omega arith),
      take_all sha256_len digest (omega arith),
      drop_all sha256_len digest (omega arith),
    )

-- Cut off after `k` bytes, short of its end: an error, and the chunks that were whole are kept.
pub transfer-cut :
    (k : ℕ) (cs : List Bytes) (digest held : Bytes) (p : Progress) (w : World)
    → IsFrames cs
    → length digest ≡ sha256_len
    → w.part ≡ some held
    → p.position ≡ length held
    → w.tls.pending ≡ take k (wire cs ++ (frame [] ++ digest))
    → k < length (wire cs ++ (frame [] ++ digest))
    → Leaves k cs w held (transfer p w)
unfolding transfer
transfer-cut k cs digest held p w fr size eh ep e h =
    elim (Bool-cases (ltb k (length (wire cs) + 8))) [
      | inl early ↦
          let got = ap length e in
          let (ds, es, split, came, left) =
            recv_chunks-cut (suc (length w.tls.pending)) k cs digest held p w
              (omega (arith, length-take {0} k (wire cs ++ (frame [] ++ digest)))) fr eh ep e
              (ltb→lt k _ early) in
          (ds, es, split, came, ground (arith, left))
      | inr later ↦
          let ge : length (wire cs) + 8 ≤ k = ground arith in
          let some_digest = take (k - length (wire cs) - length (frame [])) digest in
          let whole : w.tls.pending ≡ wire cs ++ (frame [] ++ some_digest) =
            e
            ∙ take-append_ge k (wire cs) (frame [] ++ digest) (omega arith)
            ∙ ap (λ q. wire cs ++ q)
                (take-append_ge (k - length (wire cs)) (frame []) digest
                  (omega (arith, length-frame []))) in
          let w' = after w some_digest (held ++ concat cs) in
          let all = ap length whole in
          let parts = length-append (wire cs) (frame [] ++ some_digest) in
          let enough = length-le-wire cs in
          let short = length-take (k - length (wire cs) - length (frame [])) digest in
          let total = length-append (wire cs) (frame [] ++ digest) in
          let total' = length-append (frame []) digest in
          let marker = length-frame [] in
          (
            cs,
            [],
            sym (append-nil cs),
            (omega arith, tt),
            ground (
              arith,
              recv_chunks-ok (suc (length w.tls.pending)) cs some_digest held p w (omega arith) fr
                  eh ep whole,
              recv_exact-short sha256_len w'.tls (omega arith),
            ),
          )
    ]
