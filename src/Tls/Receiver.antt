-- ===== src/Tls/Receiver.antt =====
-- `receive` of approach-a-tls-mtls/receiver.py. The files that it names are the fields `part`
-- (`<out>.part`) and `out`; a file that is not there is `none`.
use cmpe272_finaltest_assesm.Prelude.{
  ℕ, zero, suc, ◌+◌, [], ◌++◌, Bool, true, false, ◌&&◌, Option, none, some, ltb, ◌==◌, ◌=ₜ◌, length,
  if◌then◌else◌,
}
use cmpe272_finaltest_assesm.Result.{
  Error, Result, ok, err, connection_error, os_error, io_error, diverged,
}
use cmpe272_finaltest_assesm.Exec.{Exec, pure, raise, lift, gets, modify, ◌>>=◌, ◌>>◌}
use cmpe272_finaltest_assesm.Bytes.{Bytes, pack_q, unpack_qq}
use cmpe272_finaltest_assesm.Socket.{Socket, send_frame, recv_exact, recv_frame}
use cmpe272_finaltest_assesm.Util.{hash_read_size, sha256_len, if_empty, write_at}
use cmpe272_finaltest_assesm.Tls.Blocks.{hash_blocks}

pub record World : Type 0 where
  pub tls : Socket
  pub part : Option Bytes
  pub out : Option Bytes

-- What the loop has done: the position in the open file, the bytes that the hash was fed, and the
-- count of bytes received.
pub record Progress : Type 0 where
  pub position : ℕ
  pub h : Bytes
  pub received : ℕ

abbrev pub on_tls : {A : Type 0} → Exec Socket A → Exec World A
on_tls m w = let (r, tls') = m w.tls in (r, record w { tls = tls' })

abbrev pub content : Option Bytes → Bytes
content none = []
content (some c) = c

-- `os.path.getsize(path) if os.path.exists(path) else 0`
abbrev pub size_or_zero : Option Bytes → ℕ
size_or_zero f = length (content f)

abbrev pub remove_part : World → World
remove_part w = record w { part = none }

-- `os.replace(part_path, out_path)`, which `atomic_promote` calls after the fsync
abbrev pub promote : World → World
promote w = record w { part = none; out = w.part }

-- The part of the function that chooses where to start, after the header has come.
unfoldable pub negotiate : ℕ → ℕ → Exec World Progress
negotiate claimed accepted =
    if accepted == claimed
    then if ltb 0 accepted
      then (do
        part ← gets (λ w. content w.part)
        prefix ← lift (hash_blocks hash_read_size (suc accepted) accepted part [])
        pure (record { position = accepted; h = prefix.0; received = accepted }))
      else pure (record { position = 0; h = []; received = 0 })
    else (do modify remove_part; pure (record { position = 0; h = []; received = 0 }))

-- `open(part_path, "r+b" if accepted_offset else "wb")`
abbrev pub opened : ℕ → Option Bytes → Result (Option Bytes)
opened zero f = ok (some [])
opened (suc n) none = err os_error
opened (suc n) (some c) = ok (some c)

unfoldable pub open_part : ℕ → Exec World Unit
open_part position w = elim (opened position w.part) [
  | ok f ↦ (ok tt, record w { part = f })
  | err e ↦ (err e, w)
]

abbrev pub write_part : ℕ → Bytes → World → World
write_part position chunk w = record w { part = some (write_at position chunk (content w.part)) }

abbrev pub advance : Bytes → Progress → Progress
advance chunk p = record {
  position = p.position + length chunk;
  h = p.h ++ chunk;
  received = p.received + length chunk;
}

-- The `while True` loop, up to the end-of-stream marker.
unfoldable pub recv_chunks : ℕ → Progress → Exec World Progress
recv_chunks zero p = raise diverged
recv_chunks (suc fuel) p = on_tls recv_frame >>= λ chunk.
    let next = modify (write_part p.position chunk) >> recv_chunks fuel (advance chunk p) in
    if_empty chunk (pure p) next

-- The body of the `try`: the chunks, and the digest behind them.
unfoldable pub transfer : Progress → Exec World (Progress × Bytes)
transfer p = do
  fuel ← gets (λ w. suc (length w.tls.pending))
  done ← recv_chunks fuel p
  expected ← on_tls (recv_exact sha256_len)
  pure (done, expected)

-- The exceptions that are caught, by `receive` in mid-transfer and by `main` around it.
abbrev pub is_caught : Error → Bool
is_caught connection_error = true
is_caught os_error = true
is_caught io_error = true
is_caught _ = false

module _ (sha256 : Bytes → Bytes) where
  -- Verify, then reject or promote.
  unfoldable pub finish : ℕ → Progress × Bytes → Exec World ℕ
  finish total (done, expected) =
      if done.received == total && sha256 done.h =ₜ expected
      then (do modify promote; pure 0)
      else (do modify remove_part; pure 1)

  abbrev pub settle : ℕ → Result (Progress × Bytes) → Exec World ℕ
  settle total (ok r) = finish total r
  settle total (err e) = if is_caught e then pure 1 else raise e

  -- `try: … except …: return 1`, then the verification
  unfoldable pub try_transfer : ℕ → Progress → Exec World ℕ
  try_transfer total p w = let (r, w') = transfer p w in settle total r w'

  unfoldable pub receive : Exec World ℕ
  receive = do
    claimed ← gets (λ w. size_or_zero w.part)
    claim ← lift (pack_q claimed)
    on_tls (send_frame claim)
    header ← on_tls recv_frame
    sizes ← lift (unpack_qq header)
    start ← negotiate claimed sizes.1
    open_part start.position
    try_transfer sizes.0 start
