-- ===== src/Tls/EndToEnd.antt =====
-- Sender and receiver together: delivery, what an interruption leaves, and resumption.
use cmpe272_finaltest_assesm.Prelude.{
  ℕ, suc, ◌<◌, ◌≡◌, refl, ap, sym, ◌∙◌, [], ◌++◌, ◌⊎◌, append-nil, Option, none, some, arith,
  le→leb, ==_refl, inl, inr, length, length-append, length-drop, drop, drop-append_self,
  text_eq_iff,
}
use cmpe272_finaltest_assesm.Result.{ok}
use cmpe272_finaltest_assesm.Bytes.{Bytes, u64_mod, be}
use cmpe272_finaltest_assesm.Socket.{Socket}
use cmpe272_finaltest_assesm.Socket.Frame.{frame}
use cmpe272_finaltest_assesm.Util.{chunk_size, sha256_len}
use cmpe272_finaltest_assesm.Tls.Sender.{accept_offset, stream}
use cmpe272_finaltest_assesm.Tls.Receiver.{
  World, Progress, content, promote, size_or_zero, transfer, finish, try_transfer, receive,
}
use cmpe272_finaltest_assesm.Tls.Wire.{
  concat, wire, chunks-IsFrames, concat-chunks, remainder, trailer, output, accept_offset-le,
  stream-ok,
}
use cmpe272_finaltest_assesm.Tls.Delivery.{transfer-ok}
use cmpe272_finaltest_assesm.Tls.Appended.{after, further}
use cmpe272_finaltest_assesm.Tls.Claim.{receive-sent}
use cmpe272_finaltest_assesm.Tls.Start.{kept, progress_at, begun, receive-begun}

-- The partial file is the beginning of the file that is sent.
abbrev pub IsPartOf : Bytes → Bytes → Type 0
IsPartOf part file = (rest : Bytes) × (file ≡ part ++ rest)

-- Two ends of a connection: the receiver's world, the sender's socket, and the file to be sent.
-- The sender reads what this run of the receiver sends, on a connection that is new and holds.
module _ (sha256 : Bytes → Bytes) (file : Bytes) where
  pub record IsConnected (w : World) (s : Socket) : Type 0 where
    pub file_fits : length file < u64_mod
    pub part_fits : size_or_zero w.part < u64_mod
    pub receiver_holds : w.tls.room ≡ none
    pub sender_holds : s.room ≡ none
    pub unclaimed : w.tls.sent ≡ []
    pub claimed : s.pending ≡ (receive sha256 w).1.tls.sent
    pub unsent : s.sent ≡ []

  -- What it sends is its claim.
  claim_read :
      (w : World) (s : Socket) → IsConnected w s → s.pending ≡ frame (be 8 (size_or_zero w.part))
  claim_read w s c =
      c.claimed
      ∙ receive-sent sha256 w c.receiver_holds c.part_fits
      ∙ ap (λ q. q ++ frame (be 8 (size_or_zero w.part))) c.unclaimed

  abbrev pub accepted_of : World → ℕ
  accepted_of w = accept_offset (size_or_zero w.part) (length file)

  -- What is kept of a partial file is the part of the file before the accepted offset, if it was a
  -- part of the file or is longer than it.
  abbrev pub IsUsable : Option Bytes → Type 0
  IsUsable f = IsPartOf (content f) file ⊎ (length file < size_or_zero f)

  pub kept-drop :
      (w : World)
      → IsUsable w.part
      → kept (accepted_of w) w.part ++ drop (accepted_of w) file ≡ file
  unfolding accept_offset
  kept-drop w (inl (rest, e)) =
      let sizes = length-append (content w.part) rest in
      let le = le→leb (size_or_zero w.part) (length file) (omega (arith, ap length e)) in
      rw (le, ==_refl (size_or_zero w.part))
        (ap (λ q. content w.part ++ drop (size_or_zero w.part) q) e
          ∙ ap (λ q. content w.part ++ q)
              (drop-append_self (content w.part) rest (size_or_zero w.part) refl)
          ∙ sym e)
  kept-drop w (inr longer) = ground arith

  -- All chunks of the remainder, in order, are the file behind the accepted offset.
  pub remainder_lem : (accepted : ℕ) → concat (remainder sha256 accepted file) ≡ drop accepted file
  remainder_lem accepted =
      concat-chunks chunk_size (omega arith) (omega arith) (suc (length file)) (drop accepted file)
        (omega (arith, length-drop {0} accepted file))

  -- What the sender has put on the wire.
  pub sender_output :
      (w : World) (s : Socket)
      → IsConnected w s
      → ((stream sha256 file s).0 ≡ ok 0)
        × ((stream sha256 file s).1.sent ≡ output sha256 (size_or_zero w.part) file)
  sender_output w s c =
      let claimed = size_or_zero w.part in
      let ran =
        stream-ok sha256 file claimed [] s c.file_fits c.part_fits c.sender_holds
          (claim_read w s c ∙ sym (append-nil (frame (be 8 claimed)))) in
      let sent = c.unsent in
      (ap (λ r. r.0) ran, ap (λ r. r.1.sent) ran ∙ ap (λ q. q ++ output sha256 claimed file) sent)

  try_transfer-ok :
      (total : ℕ) (p q : Progress) (digest : Bytes) (w w' : World)
      → transfer p w ≡ (ok (q, digest), w')
      → q.received ≡ total
      → sha256 q.h ≡ digest
      → try_transfer sha256 total p w ≡ (ok 0, promote w')
  unfolding try_transfer finish
  try_transfer-ok total p q digest w w' ran size same =
      ground (arith, ran, text_eq_iff (sha256 q.h) digest)

  module _ (digest_size : (bs : Bytes) → length (sha256 bs) ≡ sha256_len) where
    receive-promoted :
        (w : World)
        → length file < u64_mod
        → size_or_zero w.part < u64_mod
        → w.tls.room ≡ none
        → IsUsable w.part
        → w.tls.pending ≡ output sha256 (size_or_zero w.part) file
        → receive sha256 w ≡ (ok 0, promote (after (begun w [] file) [] file))
    receive-promoted w hf hp room u e =
        let accepted = accepted_of w in
        let le = accept_offset-le (size_or_zero w.part) (length file) in
        let held = kept accepted w.part in
        let cs = remainder sha256 accepted file in
        let rest = wire cs ++ trailer sha256 file in
        let q = further (concat cs) (progress_at held) in
        let whole : held ++ concat cs ≡ file =
          ap (λ r. held ++ r) (remainder_lem accepted) ∙ kept-drop w u in
        let size = length-append held (concat cs) in
        let sizes = ap length whole in
        receive-begun sha256 (length file) accepted rest w hf (omega arith) hp room e
        ∙ try_transfer-ok (length file) (progress_at held) q (sha256 file) (begun w rest held)
            (after (begun w rest held) [] (held ++ concat cs))
            (transfer-ok cs (sha256 file) held (progress_at held) (begun w rest held)
              (chunks-IsFrames chunk_size (omega arith) (omega arith) _ _) (digest_size file) refl
              refl refl)
            (omega arith) (ap sha256 whole)
        ∙ ap (λ c. (ok 0, promote (after (begun w rest held) [] c))) whole

    -- On a new connection that holds, where the sender reads what `receive` sends and the receiver what
    -- `stream` sends, with sizes below 2 ^ 64, and the partial file, if any, the beginning of the file
    -- or longer than it: both sides exit with 0, the final name holds exactly the file, and the
    -- partial file is gone.
    pub delivery :
        (w : World) (s : Socket)
        → IsConnected w s
        → IsUsable w.part
        → w.tls.pending ≡ (stream sha256 file s).1.sent
        → ((stream sha256 file s).0 ≡ ok 0)
          × ((receive sha256 w).0 ≡ ok 0)
          × ((receive sha256 w).1.out ≡ some file)
          × ((receive sha256 w).1.part ≡ none)
    delivery w s c u p =
        let (done, sent) = sender_output w s c in
        let ran = receive-promoted w c.file_fits c.part_fits c.receiver_holds u (p ∙ sent) in
        (done, ap (λ r. r.0) ran, ap (λ r. r.1.out) ran, ap (λ r. r.1.part) ran)
