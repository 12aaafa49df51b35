-- ===== src/Tls/Start.antt =====
-- `receive` up to the transfer: the claim is sent, the header is read, and the partial file is
-- kept or dropped.
use cmpe272_finaltest_assesm.Prelude.{
  ℕ, zero, suc, ◌+◌, ◌<◌, ◌≡◌, refl, [], ◌∷◌, ◌++◌, Option, none, some, arith, ◌==◌, length,
  length-append, take, take_all, if◌then◌else◌,
}
use cmpe272_finaltest_assesm.Exec.{Exec, ◌>>=◌, ◌>>◌}
use cmpe272_finaltest_assesm.Bytes.{Bytes, u64_mod, be}
use cmpe272_finaltest_assesm.Bytes.BigEndian.{length-be, pack_q_lem, unpack_qq-be}
use cmpe272_finaltest_assesm.Socket.{Socket}
use cmpe272_finaltest_assesm.Socket.Frame.{frame, send_frame-ok, recv_frame-ok, recv_frame-cut}
use cmpe272_finaltest_assesm.Socket.Exact.{cut}
use cmpe272_finaltest_assesm.Util.{hash_read_size}
use cmpe272_finaltest_assesm.Tls.Blocks.{hash_blocks-ok}
use cmpe272_finaltest_assesm.Tls.Receiver.{
  World, Progress, content, size_or_zero, negotiate, open_part, try_transfer, receive,
}

-- What is kept of the partial file when the sender accepts to resume from `accepted`.
abbrev pub kept : ℕ → Option Bytes → Bytes
kept accepted f = if accepted == size_or_zero f then content f else []

abbrev pub progress_at : Bytes → Progress
progress_at held = record { position = length held; h = held; received = length held }

-- The world when the first chunk is read.
abbrev pub begun : World → Bytes → Bytes → World
begun w rest held = record w {
  tls = record w.tls { pending = rest; sent = w.tls.sent ++ frame (be 8 (size_or_zero w.part)) };
  part = some held;
}

-- After the negotiation the file is opened with the kept bytes in it, and all of them are hashed.
module _ {A : Type 0} (go : Progress → Exec World A) where
  abbrev pub setup : ℕ → ℕ → Exec World A
  setup claimed accepted = do start ← negotiate claimed accepted; open_part start.position; go start

  pub negotiate-open :
      (f : Option Bytes) (accepted : ℕ) (w : World)
      → w.part ≡ f
      → setup (size_or_zero f) accepted w
        ≡ go (progress_at (kept accepted f)) (record w { part = some (kept accepted f) })
  unfolding negotiate open_part
  negotiate-open none zero w e = ground arith
  negotiate-open none (suc n) w e = ground arith
  negotiate-open (some []) zero w e = ground arith
  negotiate-open (some []) (suc n) w e = ground arith
  negotiate-open (some (b ∷ bs)) accepted w e =
      let n = length (b ∷ bs) in
      let c : Bytes = b ∷ bs in
      ground (
        arith,
        hash_blocks-ok hash_read_size (omega arith) (suc n) n c [] (omega arith) (omega arith),
        take_all n c (omega arith),
      )

-- The whole of the negotiation, on a connection that holds and from an honest header.
module _ (sha256 : Bytes → Bytes) where
  pub receive-begun :
      (total accepted : ℕ) (rest : Bytes) (w : World)
      → total < u64_mod
      → accepted < u64_mod
      → size_or_zero w.part < u64_mod
      → w.tls.room ≡ none
      → w.tls.pending ≡ frame (be 8 total ++ be 8 accepted) ++ rest
      → receive sha256 w
        ≡ try_transfer sha256 total
            (progress_at (kept accepted w.part))
            (begun w rest (kept accepted w.part))
  unfolding receive
  receive-begun total accepted rest w ht ha hc e p =
      let claimed = size_or_zero w.part in
      let header = be 8 total ++ be 8 accepted in
      let claim_len = length-be 8 claimed in
      let total_len = length-be 8 total in
      let accepted_len = length-be 8 accepted in
      let sizes = length-append (be 8 total) (be 8 accepted) in
      let s1 : Socket = record w.tls { sent = w.tls.sent ++ frame (be 8 claimed) } in
      let s2 : Socket = record s1 { pending = rest } in
      ground (
        arith,
        pack_q_lem claimed hc,
        send_frame-ok (be 8 claimed) w.tls (omega arith) e,
        recv_frame-ok header rest s1 (omega arith) p,
        unpack_qq-be total accepted ht ha,
        negotiate-open (try_transfer sha256 total) w.part accepted (record w { tls = s2 }) refl,
      )

  -- The stream breaks off inside the header: nothing is written.
  pub receive-unbegun :
      (k : ℕ) (header rest : Bytes) (w : World)
      → size_or_zero w.part < u64_mod
      → w.tls.room ≡ none
      → length header < u64_mod
      → k < 8 + length header
      → w.tls.pending ≡ take k (frame header ++ rest)
      → receive sha256 w ≡ (
        cut w.tls.ending,
        record w {
          tls = record w.tls {
            pending = [];
            sent = w.tls.sent ++ frame (be 8 (size_or_zero w.part));
          };
        },
      )
  unfolding receive
  receive-unbegun k header rest w hc e hh h p =
      let claimed = size_or_zero w.part in
      let claim_len = length-be 8 claimed in
      let s1 : Socket = record w.tls { sent = w.tls.sent ++ frame (be 8 claimed) } in
      ground (
        arith,
        pack_q_lem claimed hc,
        send_frame-ok (be 8 claimed) w.tls (omega arith) e,
        recv_frame-cut header rest s1 hh k h p,
      )
