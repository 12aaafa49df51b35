-- ===== src/Tls/Verdict.antt =====
-- The decision of the receiver about a stream that comes through whole.
use cmpe272_finaltest_assesm.Prelude.{
  ℕ, ◌<◌, ◌≡◌, refl, ◌∙◌, List, [], ◌++◌, none, ◌&&◌, arith, ◌==◌, ◌=ₜ◌, length, length-append,
  if◌then◌else◌,
}
use cmpe272_finaltest_assesm.Result.{ok}
use cmpe272_finaltest_assesm.Bytes.{Bytes, u64_mod, be}
use cmpe272_finaltest_assesm.Socket.Frame.{frame}
use cmpe272_finaltest_assesm.Util.{sha256_len}
use cmpe272_finaltest_assesm.Tls.Receiver.{
  World, Progress, promote, remove_part, size_or_zero, transfer, finish, try_transfer, receive,
}
use cmpe272_finaltest_assesm.Tls.Wire.{concat, wire, IsFrames}
use cmpe272_finaltest_assesm.Tls.Delivery.{transfer-ok}
use cmpe272_finaltest_assesm.Tls.Appended.{after, further}
use cmpe272_finaltest_assesm.Tls.Start.{kept, progress_at, begun, receive-begun}

module _ (sha256 : Bytes → Bytes) where
  try_transfer-verdict :
      (total : ℕ) (p q : Progress) (digest : Bytes) (w w' : World)
      → transfer p w ≡ (ok (q, digest), w')
      → try_transfer sha256 total p w ≡ (
          if q.received == total && sha256 q.h =ₜ digest
          then (ok 0, promote w')
          else (ok 1, remove_part w'))
  unfolding try_transfer finish
  try_transfer-verdict total p q digest w w' ran = ground (arith, ran)

  -- A header, non-empty chunks, the marker and 32 bytes of digest come through, from any peer, with all
  -- sizes below 2 ^ 64 and on a connection that takes the claim. The kept bytes
  -- with the chunks behind them are promoted if they are as long as announced and have the digest
  -- that was sent. Otherwise the exit code is 1, the partial file is deleted, and the final name is
  -- left alone.
  pub verdict :
      (total accepted : ℕ) (cs : List Bytes) (digest : Bytes) (w : World)
      → total < u64_mod
      → accepted < u64_mod
      → size_or_zero w.part < u64_mod
      → w.tls.room ≡ none
      → IsFrames cs
      → length digest ≡ sha256_len
      → w.tls.pending ≡ frame (be 8 total ++ be 8 accepted) ++ (wire cs ++ (frame [] ++ digest))
      → let c = kept accepted w.part ++ concat cs in
        let w' = after (begun w [] c) [] c in
        receive sha256 w ≡ (
          if length c == total && sha256 c =ₜ digest
          then (ok 0, promote w')
          else (ok 1, remove_part w'))
  verdict total accepted cs digest w ht ha hp room fr size e =
      let held = kept accepted w.part in
      let rest = wire cs ++ (frame [] ++ digest) in
      let q = further (concat cs) (progress_at held) in
      let w1 = begun w rest held in
      receive-begun sha256 total accepted rest w ht ha hp room e
      ∙ try_transfer-verdict total (progress_at held) q digest w1 (after w1 [] (held ++ concat cs))
          (transfer-ok cs digest held (progress_at held) w1 fr size refl refl refl)
      ∙ rw (length-append held (concat cs))
