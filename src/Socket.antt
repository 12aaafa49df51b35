-- ===== src/Socket.antt =====
-- Sockets and the length-prefixed frames of common/util.py.
pub mod Exact
pub mod Frame
pub mod Consume
pub mod Silent
use cmpe272_finaltest_assesm.Prelude.{
  ℕ, zero, suc, ◌+◌, ◌-◌, List, [], ◌∷◌, ◌++◌, Option, none, some, true, false, ltb, leb, length,
  take, drop, min, max, if◌then◌else◌,
}
use cmpe272_finaltest_assesm.Result.{Error, Result, ok, err, connection_error, os_error, diverged}
use cmpe272_finaltest_assesm.Exec.{Exec, pure, raise, lift, ◌>>=◌, ◌>>◌}
use cmpe272_finaltest_assesm.Bytes.{Bytes, pack_q, unpack_q}

-- How the incoming stream ends: the peer closes it, or an error (a reset, a time-out, a TLS
-- failure) is raised.
pub data End : Type 0 where
  closed broken : End

-- A connected socket.
pub record Socket : Type 0 where
  -- what the peer has sent, and this side has not yet read
  pub pending : Bytes
  -- how many bytes the next `recv` returns, from the number asked for and what is pending;
  -- the loops may not rely on it
  pub grant : ℕ → Bytes → ℕ
  pub ending : End
  -- what this side has sent
  pub sent : Bytes
  -- the connection breaks after this many more bytes are sent, if ever
  pub room : Option ℕ

abbrev pub at_end : End → Result Bytes
at_end closed = ok []
at_end broken = err os_error

-- `sock.recv(n)`: between one byte and `n`, if any are left.
unfoldable pub recv : ℕ → Exec Socket Bytes
recv n s = elim s.pending [
  | [] ↦ (at_end s.ending, s)
  | b ∷ bs ↦
      let k = min (min n (max 1 (s.grant n s.pending))) (length s.pending) in
      (ok (take k s.pending), record s { pending = drop k s.pending })
]

-- `sock.sendall(data)`
unfoldable pub sendall : Bytes → Exec Socket Unit
sendall bs s = elim s.room [
  | none ↦ (ok tt, record s { sent = s.sent ++ bs })
  | some k ↦
      if leb (length bs) k
      then (ok tt, record s { sent = s.sent ++ bs; room = some (k - length bs) })
      else (err os_error, record s { sent = s.sent ++ take k bs; room = some 0 })
]

-- An empty block means that the peer closed before the message was whole.
abbrev on_block : (Bytes → Exec Socket Bytes) → Bytes → Exec Socket Bytes
on_block go [] = raise connection_error
on_block go (b ∷ bs) = go (b ∷ bs)

-- The loop of `recv_exact`, with `buf` read so far.
recv_loop : ℕ → ℕ → Bytes → Exec Socket Bytes
recv_loop zero n buf = raise diverged
recv_loop (suc fuel) n buf =
    let more =
      recv (min 65536 (n - length buf)) >>= on_block (λ block. recv_loop fuel n (buf ++ block)) in
    if ltb (length buf) n then more else pure buf

unfoldable pub recv_exact : ℕ → Exec Socket Bytes
unfolding recv_loop
recv_exact n = recv_loop (suc n) n []

unfoldable pub send_frame : Bytes → Exec Socket Unit
send_frame payload = do prefix ← lift (pack_q (length payload)); sendall prefix; sendall payload

unfoldable pub recv_frame : Exec Socket Bytes
recv_frame = do prefix ← recv_exact 8; n ← lift (unpack_q prefix); recv_exact n
