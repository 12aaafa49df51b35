-- ===== src/Proxy.antt =====
-- scripts/tamper_proxy.py: one direction of the relay between the two ends of a connection.
pub mod Tampered
pub mod Stream
pub mod Frames
pub mod Link
pub mod Main
use cmpe272_finaltest_assesm.Prelude.{
  ℕ, zero, suc, ◌+◌, ◌-◌, Bool, true, false, ◌&&◌, [], ◌∷◌, leb, ltb, length, take, if◌then◌else◌,
}
use cmpe272_finaltest_assesm.Result.{
  Error, Result, ok, err, connection_error, os_error, io_error, diverged,
}
use cmpe272_finaltest_assesm.Exec.{Exec, pure, raise, ◌>>=◌, ◌>>◌}
use cmpe272_finaltest_assesm.Bytes.{Bytes}
use cmpe272_finaltest_assesm.Socket.{Socket, recv, sendall}

-- `--mode`
pub data Mode : Type 0 where
  flip truncate pass : Mode

-- The two ends, and whether they are still open.
pub record Pair : Type 0 where
  pub src : Socket
  pub dst : Socket
  pub is_open : Bool

abbrev pub on_src : {A : Type 0} → Exec Socket A → Exec Pair A
on_src m p = let (r, s) = m p.src in (r, record p { src = s })

abbrev pub on_dst : {A : Type 0} → Exec Socket A → Exec Pair A
on_dst m p = let (r, s) = m p.dst in (r, record p { dst = s })

-- `buf[idx] ^= 0xFF`, of bytes below 256
unfoldable pub flip_at : ℕ → Bytes → Bytes
flip_at idx [] = []
flip_at zero (b ∷ bs) = (255 - b) ∷ bs
flip_at (suc idx) (b ∷ bs) = b ∷ flip_at idx bs

abbrev pub is_flip : Mode → Bool
is_flip flip = true
is_flip _ = false

abbrev pub is_truncate : Mode → Bool
is_truncate truncate = true
is_truncate _ = false

-- `if allow: dst.sendall(data[:allow])`
abbrev pub send_allowed : ℕ → Bytes → Exec Pair Unit
send_allowed zero block = pure tt
send_allowed (suc n) block = on_dst (sendall (take (suc n) block))

module _ (tamper : Bool) (mode : Mode) (at : ℕ) where
  -- Whether the cut falls into this block, and whether the byte to flip does.
  abbrev pub cuts : ℕ → Bytes → Bool
  cuts transferred block = tamper && is_truncate mode && ltb at (transferred + length block)

  abbrev pub flips : ℕ → Bytes → Bool
  flips transferred block =
      tamper && is_flip mode && leb transferred at && ltb at (transferred + length block)

  abbrev pub tampered : ℕ → Bytes → Bytes
  tampered transferred block =
      if flips transferred block then flip_at (at - transferred) block else block

  -- A block that `recv` returned; an empty one ends the loop.
  abbrev pub on_data : (ℕ → Exec Pair Unit) → ℕ → Bytes → Exec Pair Unit
  on_data go transferred [] = pure tt
  on_data go transferred (b ∷ bs) =
      let block = b ∷ bs in
      if cuts transferred block
      then send_allowed (at - transferred) block
      else (on_dst (sendall (tampered transferred block)) >> go (transferred + length block))

  -- The `while True` loop, with `transferred` bytes behind it.
  unfoldable pub relay_loop : ℕ → ℕ → Exec Pair Unit
  relay_loop zero transferred = raise diverged
  relay_loop (suc fuel) transferred = on_src (recv 65536) >>= on_data (relay_loop fuel) transferred

  abbrev pub is_os_error : Error → Bool
  is_os_error connection_error = true
  is_os_error os_error = true
  is_os_error io_error = true
  is_os_error _ = false

  -- `except OSError: pass`
  abbrev pub passed_over : Result (Unit {0}) → Result (Unit {0})
  passed_over (ok u) = ok u
  passed_over (err e) = if is_os_error e then ok tt else err e

  -- The loop, and then both ends are closed.
  unfoldable pub relay : Exec Pair Unit
  relay p =
      let (r, p') = relay_loop (suc (length p.src.pending)) 0 p in
      (passed_over r, record p' { is_open = false })
