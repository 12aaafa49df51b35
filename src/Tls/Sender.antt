-- ===== src/Tls/Sender.antt =====
-- `stream` of approach-a-tls-mtls/sender.py, and the exceptions that its `main` turns into exit
-- code 1.
use cmpe272_finaltest_assesm.Prelude.{
  ℕ, zero, suc, [], ◌++◌, leb, length, take, drop, if◌then◌else◌,
}
use cmpe272_finaltest_assesm.Result.{
  Result, ok, err, connection_error, os_error, io_error, diverged,
}
use cmpe272_finaltest_assesm.Exec.{Exec, pure, raise, lift, ◌>>=◌, ◌>>◌}
use cmpe272_finaltest_assesm.Bytes.{Bytes, unpack_q, pack_qq}
use cmpe272_finaltest_assesm.Socket.{Socket, sendall, send_frame, recv_frame}
use cmpe272_finaltest_assesm.Util.{chunk_size, if_empty}
use cmpe272_finaltest_assesm.Tls.Blocks.{hash_blocks}

-- The offset that the sender agrees to resume from.
unfoldable pub accept_offset : ℕ → ℕ → ℕ
accept_offset claimed file_size = if leb claimed file_size then claimed else 0

-- Hash and send the remainder, a chunk at a time; returns what the hash was fed.
unfoldable pub send_chunks : ℕ → ℕ → Bytes → Bytes → Exec Socket Bytes
send_chunks size zero rest h = raise diverged
send_chunks size (suc fuel) rest h =
    let chunk = take size rest in
    let next = send_frame chunk >> send_chunks size fuel (drop size rest) (h ++ chunk) in
    if_empty chunk (pure h) next

module _ (sha256 : Bytes → Bytes) where
  unfoldable pub stream : Bytes → Exec Socket ℕ
  stream file = do
    claim ← recv_frame
    claimed ← lift (unpack_q claim)
    let accepted = accept_offset claimed (length file)
    header ← lift (pack_qq (length file) accepted)
    send_frame header
    prefix ← lift (hash_blocks chunk_size (suc accepted) accepted file [])
    h ← send_chunks chunk_size (suc (length file)) prefix.1 prefix.0
    send_frame []
    sendall (sha256 h)
    pure 0

-- The `except` clause of `main`: an `IOError` is an `OSError`.
unfoldable pub exit_code : Result ℕ → Result ℕ
exit_code (ok code) = ok code
exit_code (err connection_error) = ok 1
exit_code (err os_error) = ok 1
exit_code (err io_error) = ok 1
exit_code (err e) = err e
