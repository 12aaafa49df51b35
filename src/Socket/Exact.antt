-- ===== src/Socket/Exact.antt =====
-- `recv_exact` against the byte stream: the sizes of the blocks that `recv` returns do not matter.
use cmpe272_finaltest_assesm.Prelude.{
  ℕ, zero, suc, ◌+◌, ◌-◌, ◌≤◌, ◌<◌, ◌≡◌, refl, ap, ◌∙◌, [], ◌∷◌, ◌++◌, append_assoc, append-nil,
  inl, inr, arith, leb, leb→le, ltb, ltb→lt, lt→ltb, Bool-cases, length, length-append, length-take,
  length-drop, take, drop, take-append-take, drop-drop, min, max, if◌then◌else◌,
}
use cmpe272_finaltest_assesm.Result.{Result, ok, err, connection_error, os_error}
use cmpe272_finaltest_assesm.Exec.{Exec, ◌>>=◌, bind-ok}
use cmpe272_finaltest_assesm.Bytes.{Bytes}
use cmpe272_finaltest_assesm.Socket.{
  Socket, End, closed, broken, recv, recv_loop, on_block, recv_exact,
}

abbrev pub skip : ℕ → Socket → Socket
skip n s = record s { pending = drop n s.pending }

-- What a read past the end of the stream raises.
abbrev pub cut : {A : Type 0} → End → Result A
cut closed = err connection_error
cut broken = err os_error

-- how much a `recv` takes
abbrev pub taken : ℕ → Socket → ℕ
taken n s = min (min n (max 1 (s.grant n s.pending))) (length s.pending)

pub recv_some :
    (n : ℕ) (s : Socket)
    → 0 < length s.pending
    → recv n s ≡ (ok (take (taken n s) s.pending), skip (taken n s) s)
unfolding recv
recv_some n s h = ground arith

on_block-take :
    (go : Bytes → Exec Socket Bytes) (k : ℕ) (xs : Bytes)
    → 0 < k
    → 0 < length xs
    → on_block go (take k xs) ≡ go (take k xs)
on_block-take go zero xs hk h = elim hk [ ]
on_block-take go (suc k) [] hk h = elim h [ ]
on_block-take go (suc k) (x ∷ xs) hk h = refl

-- One block more in the buffer is one less to read.
block_step :
    (k n : ℕ) (buf p : Bytes)
    → k ≤ n - length buf
    → k ≤ length p
    → ((buf ++ take k p) ++ take (n - length (buf ++ take k p)) (drop k p)
        ≡ buf ++ take (n - length buf) p)
      × (drop (n - length (buf ++ take k p)) (drop k p) ≡ drop (n - length buf) p)
block_step k n buf p hk hp = (
  rw append_assoc (ap (λ q. buf ++ q) (take-append-take k _ (n - length buf) p split)),
  drop-drop k _ (n - length buf) p split,
)
  where
    split : k + (n - length (buf ++ take k p)) ≡ n - length buf
    split = omega (arith, length-append {0} buf (take k p), length-take {0} k p)

recv_then :
    (go : Bytes → Exec Socket Bytes) (q : ℕ) (s : Socket)
    → 0 < q
    → 0 < length s.pending
    → (recv q >>= on_block go) s ≡ go (take (taken q s) s.pending) (skip (taken q s) s)
recv_then go q s hq h =
    bind-ok (recv q) (on_block go) (recv_some q s h)
    ∙ ap (λ (m : Exec Socket Bytes). m (skip (taken q s) s))
        (on_block-take go (taken q s) s.pending (omega arith) h)

recv_loop-ok :
    (fuel n : ℕ) (buf : Bytes) (s : Socket)
    → n ≤ length buf + length s.pending
    → n - length buf < fuel
    → recv_loop fuel n buf s
      ≡ (ok (buf ++ take (n - length buf) s.pending), skip (n - length buf) s)
unfolding recv_loop
recv_loop-ok zero n buf s h hf = elim hf [ ]
recv_loop-ok (suc fuel) n buf s h hf = elim (Bool-cases (ltb (length buf) n)) [
  | inl more ↦
      let lt = ltb→lt (length buf) n more in
      let q = min 65536 (n - length buf) in
      let k = taken q s in
      let fits : k ≤ n - length buf = omega arith in
      let there : k ≤ length s.pending = omega arith in
      let whole = length-append buf (take k s.pending) in
      let cut_len = length-take k s.pending in
      let step = block_step k n buf s.pending fits there in
      rw (
        more,
        recv_then (λ block. recv_loop fuel n (buf ++ block)) q s (omega arith) (omega arith),
        recv_loop-ok fuel n (buf ++ take k s.pending) (skip k s)
            (omega (arith, length-drop {0} k s.pending)) (omega arith),
        step.0,
        step.1,
      )
  | inr done ↦ let none_left : n - length buf ≡ 0 = ground arith in rw (done, none_left, append-nil)
]

recv_loop-dry :
    (fuel n : ℕ) (buf : Bytes) (s : Socket)
    → s.pending ≡ []
    → length buf < n
    → recv_loop (suc fuel) n buf s ≡ (cut s.ending, s)
unfolding recv_loop recv
recv_loop-dry fuel n buf s e h = rw (lt→ltb _ _ h) (ground arith)

recv_loop-short :
    (fuel n : ℕ) (buf : Bytes) (s : Socket)
    → length buf + length s.pending < n
    → n - length buf < fuel
    → recv_loop fuel n buf s ≡ (cut s.ending, record s { pending = [] })
unfolding recv_loop
recv_loop-short zero n buf s h hf = elim hf [ ]
recv_loop-short (suc fuel) n buf s h hf = elim (Bool-cases (ltb 0 (length s.pending))) [
  | inl more ↦
      let lt = ltb→lt 0 (length s.pending) more in
      let q = min 65536 (n - length buf) in
      let k = taken q s in
      let cut_len = length-take k s.pending in
      let whole = length-append buf (take k s.pending) in
      let left = length-drop k s.pending in
      rw (
        lt→ltb (length buf) n (omega arith),
        recv_then (λ block. recv_loop fuel n (buf ++ block)) q s (omega arith) (omega arith),
        recv_loop-short fuel n (buf ++ take k s.pending) (skip k s) (omega arith) (omega arith),
      )
  | inr dry ↦
      let e : s.pending ≡ [] = ground arith in
      recv_loop-dry fuel n buf s e (omega arith)
      ∙ ap (λ p. (cut s.ending, record s { pending = p })) e
]

-- With enough bytes to come, `recv_exact n` returns the next `n` of them.
pub recv_exact-ok :
    (n : ℕ) (s : Socket) → n ≤ length s.pending → recv_exact n s ≡ (ok (take n s.pending), skip n s)
unfolding recv_exact
recv_exact-ok n s h =
    recv_loop-ok (suc n) n [] s (omega arith) (omega arith)
    ∙ ap (λ k. (ok (take k s.pending), skip k s)) (omega arith)

-- With too few, it raises what the end of the stream raises, and never returns a short message.
pub recv_exact-short :
    (n : ℕ) (s : Socket)
    → length s.pending < n
    → recv_exact n s ≡ (cut s.ending, record s { pending = [] })
unfolding recv_exact
recv_exact-short n s h = recv_loop-short (suc n) n [] s (omega arith) (omega arith)

-- `recv_exact n` returns the next `n` bytes and leaves the rest if there are so many. Otherwise it
-- reads everything and raises, a `ConnectionError` if the peer has closed. In what blocks the bytes
-- arrive does not matter.
pub recv_exact_lem :
    (n : ℕ) (s : Socket)
    → recv_exact n s ≡ (
        if leb n (length s.pending)
        then (ok (take n s.pending), skip n s)
        else (cut s.ending, record s { pending = [] }))
recv_exact_lem n s = elim (Bool-cases (leb n (length s.pending))) [
  | inl enough ↦ rw enough (recv_exact-ok n s (leb→le n _ enough))
  | inr short ↦ rw short (recv_exact-short n s (ground arith))
]
