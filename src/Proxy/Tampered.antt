-- ===== src/Proxy/Tampered.antt =====
-- Streams with one byte flipped, or cut off, and how they are put together from blocks.
use cmpe272_finaltest_assesm.Prelude.{
  ℕ, zero, suc, ◌+◌, ◌-◌, ◌≤◌, ◌<◌, ◌≡◌, refl, ap, ◌∙◌, Bool, true, false, [], ◌∷◌, ◌++◌, arith,
  leb, ltb, Bool-cases, inl, inr, length, length-take, take, drop, take_nil, take-append-take,
  take-append-drop, if◌then◌else◌,
}
use cmpe272_finaltest_assesm.Bytes.{Bytes}
use cmpe272_finaltest_assesm.Proxy.{Mode, flip, truncate, pass, flip_at, tampered, cuts}

-- The whole stream, tampered with from its byte `t` on.
abbrev behind : Mode → ℕ → ℕ → Bytes → Bytes
behind flip at t bs = if leb t at then flip_at (at - t) bs else bs
behind truncate at t bs = take (at - t) bs
behind pass at t bs = bs

-- The bytes that go on: the stream with one byte flipped, or cut off, or as it is.
abbrev pub delivered : Bool → Mode → ℕ → Bytes → Bytes
delivered false mode at bs = bs
delivered true flip at bs = flip_at at bs
delivered true truncate at bs = take at bs
delivered true pass at bs = bs

-- The byte to flip, in the first `k` bytes or behind them.
flip_at-take : (n k : ℕ) (bs : Bytes) → n < k → flip_at n (take k bs) ++ drop k bs ≡ flip_at n bs
unfolding flip_at
flip_at-take n zero bs h = elim h [ ]
flip_at-take n (suc k) [] h = refl
flip_at-take zero (suc k) (b ∷ bs) h = ap (λ s. (255 - b) ∷ s) (take-append-drop k bs)
flip_at-take (suc n) (suc k) (b ∷ bs) h = ap (λ s. b ∷ s) (flip_at-take n k bs (omega arith))

flip_at-drop :
    (n k : ℕ) (bs : Bytes) → k ≤ n → take k bs ++ flip_at (n - k) (drop k bs) ≡ flip_at n bs
unfolding flip_at
flip_at-drop n zero bs h = ap (λ m. flip_at m bs) (omega arith)
flip_at-drop n (suc k) [] h = refl
flip_at-drop zero (suc k) (b ∷ bs) h = elim h [ ]
flip_at-drop (suc n) (suc k) (b ∷ bs) h =
    ap (λ s. b ∷ s)
      (ap (λ m. take k bs ++ flip_at m (drop k bs)) (omega arith)
        ∙ flip_at-drop n k bs (omega arith))

take-take : (n k : ℕ) (bs : Bytes) → n ≤ k → take n (take k bs) ≡ take n bs
take-take zero k bs h = refl
take-take (suc n) zero bs h = elim h [ ]
take-take (suc n) (suc k) [] h = refl
take-take (suc n) (suc k) (b ∷ bs) h = ap (λ s. b ∷ s) (take-take n k bs (omega arith))

module _ (tamper : Bool) (mode : Mode) (at : ℕ) where
  -- What the rest of the stream becomes, with `t` bytes of it behind.
  abbrev pub rest : ℕ → Bytes → Bytes
  rest t bs = if tamper then behind mode at t bs else bs

-- A block that is sent on, and the rest behind it.
pub rest_step :
    (tamper : Bool) (mode : Mode) (at t k : ℕ) (bs : Bytes)
    → k ≤ length bs
    → cuts tamper mode at t (take k bs) ≡ false
    → tampered tamper mode at t (take k bs) ++ rest tamper mode at (t + k) (drop k bs)
      ≡ rest tamper mode at t bs
rest_step false mode at t k bs h whole = take-append-drop k bs
rest_step true pass at t k bs h whole = take-append-drop k bs
rest_step true truncate at t k bs h whole =
    let size = length-take k bs in
    let fits : t + k ≤ at = ground (arith, size) in
    take-append-take k (at - (t + k)) (at - t) bs (omega arith)
rest_step true flip at t k bs h whole =
    let size : length (take k bs) ≡ k = omega (arith, length-take {0} k bs) in
    elim (Bool-cases (leb t at)) [
      | inr past ↦
          let later : leb (t + k) at ≡ false = ground arith in
          rw (past, later) (take-append-drop k bs)
      | inl before ↦ elim (Bool-cases (ltb at (t + k))) [
        | inl here ↦
            let later : leb (t + k) at ≡ false = ground arith in
            rw (before, size, here, later) (flip_at-take (at - t) k bs (ground arith))
        | inr there ↦
            let later : leb (t + k) at ≡ true = ground arith in
            rw (before, size, there, later)
              (ap (λ m. take k bs ++ flip_at m (drop k bs)) (omega arith)
                ∙ flip_at-drop (at - t) k bs (ground arith))
      ]
    ]

pub rest_nil : (tamper : Bool) (mode : Mode) (at t : ℕ) → rest tamper mode at t [] ≡ []
unfolding flip_at
rest_nil false mode at t = refl
rest_nil true pass at t = refl
rest_nil true truncate at t = take_nil (at - t)
rest_nil true flip at t = ground arith

-- The block with the cut.
pub rest_cut :
    (tamper : Bool) (mode : Mode) (at t k : ℕ) (bs : Bytes)
    → cuts tamper mode at t (take k bs) ≡ true
    → take (at - t) (take k bs) ≡ rest tamper mode at t bs
rest_cut false mode at t k bs h = cc
rest_cut true pass at t k bs h = cc
rest_cut true flip at t k bs h = cc
rest_cut true truncate at t k bs h = take-take (at - t) k bs (ground (arith, length-take {0} k bs))

-- From its beginning on.
pub rest_whole :
    (tamper : Bool) (mode : Mode) (at : ℕ) (bs : Bytes)
    → rest tamper mode at 0 bs ≡ delivered tamper mode at bs
rest_whole false mode at bs = refl
rest_whole true pass at bs = refl
rest_whole true truncate at bs = ap (λ n. take n bs) (omega arith)
rest_whole true flip at bs = ground arith
