-- ===== src/Tls/Interrupt.antt =====
-- A connection that breaks off after any number of bytes, and the transfer that resumes it.
use cmpe272_finaltest_assesm.Prelude.{
  ℕ, ◌+◌, ◌-◌, ◌≤◌, ◌<◌, ◌≡◌, refl, ap, sym, ◌∙◌, List, [], ◌∷◌, ◌++◌, append_assoc, some, none,
  ◌⊎◌, Option, subst, arith, leb, leb→le, ltb, ltb→lt, Bool-cases, inl, inr, length, length-append,
  take, take-append_ge,
}
use cmpe272_finaltest_assesm.Result.{Result, ok}
use cmpe272_finaltest_assesm.Bytes.{Bytes, u64_mod, be}
use cmpe272_finaltest_assesm.Bytes.BigEndian.{length-be}
use cmpe272_finaltest_assesm.Socket.{Socket}
use cmpe272_finaltest_assesm.Socket.Exact.{cut}
use cmpe272_finaltest_assesm.Socket.Frame.{frame, length-frame}
use cmpe272_finaltest_assesm.Util.{chunk_size, sha256_len}
use cmpe272_finaltest_assesm.Tls.Sender.{accept_offset, stream, exit_code}
use cmpe272_finaltest_assesm.Tls.Receiver.{
  World, Progress, size_or_zero, transfer, try_transfer, receive,
}
use cmpe272_finaltest_assesm.Tls.Wire.{
  concat, wire, chunks-IsFrames, remainder, trailer, output, accept_offset-le,
}
use cmpe272_finaltest_assesm.Tls.Delivery.{Arrived, transfer-cut}
use cmpe272_finaltest_assesm.Tls.Start.{kept, progress_at, begun, receive-begun, receive-unbegun}
use cmpe272_finaltest_assesm.Tls.EndToEnd.{
  IsConnected, IsUsable, accepted_of, kept-drop, remainder_lem, sender_output, delivery,
}

concat-append : (ds es : List Bytes) → concat (ds ++ es) ≡ concat ds ++ concat es
concat-append [] es = refl
concat-append (d ∷ ds) es =
    ap (λ q. d ++ q) (concat-append ds es) ∙ sym (append_assoc d (concat ds) (concat es))

-- The frame of the header: a length and two integers.
abbrev pub header_len : ℕ
header_len = 24

module _ (sha256 : Bytes → Bytes) (file : Bytes) where
  -- What is kept when `k` bytes of the stream came: without the whole header, the partial file as it
  -- was; behind it, what the sender accepted of the partial file, and each chunk whose frame came whole.
  abbrev pub Keeps : ℕ → World → Option Bytes → Type 0
  Keeps k w part =
      ((k < header_len) × (part ≡ w.part))
      ⊎ ((ds : List Bytes) × (es : List Bytes) × (header_len ≤ k)
          × (remainder sha256 (accepted_of sha256 file w) file ≡ ds ++ es)
          × Arrived (k - header_len) ds es
          × (part ≡ some (kept (accepted_of sha256 file w) w.part ++ concat ds)))

  -- What an interrupted run leaves: exit code 1, the final name untouched, and in the partial file all
  -- that came whole, from which the transfer can be resumed.
  abbrev pub Interrupted : ℕ → World → Result ℕ × World → Type 0
  Interrupted k w o =
      (exit_code o.0 ≡ ok 1)
      × (o.1.out ≡ w.out)
      × IsUsable sha256 file o.1.part
      × Keeps k w o.1.part

  -- The sender sends the file from the end of this partial file on; all of it if that is longer.
  abbrev pub SendsRest : Option Bytes → Bytes → Type 0
  SendsRest part sent =
      (start : ℕ) × (((start ≡ size_or_zero part) × (start ≤ length file))
        ⊎ ((start ≡ 0) × (length file < size_or_zero part)))
      × (sent
          ≡ frame (be 8 (length file) ++ be 8 start)
            ++ (wire (remainder sha256 start file) ++ trailer sha256 file))

  output-SendsRest : (part : Option Bytes) → SendsRest part (output sha256 (size_or_zero part) file)
  unfolding accept_offset
  output-SendsRest part = elim (Bool-cases (leb (size_or_zero part) (length file))) [
    | inl fits ↦ rw fits (size_or_zero part, inl (refl, leb→le _ _ fits), refl)
    | inr longer ↦ rw longer (0, inr (refl, ground arith), refl)
  ]

  try_transfer-cut :
      (total : ℕ) (p : Progress) (w w' : World)
      → transfer p w ≡ (cut w.tls.ending, w')
      → try_transfer sha256 total p w ≡ (ok 1, w')
  unfolding try_transfer
  try_transfer-cut total p w w' e = ground (arith, e)

  cut_exit : (w : World) → exit_code (cut w.tls.ending) ≡ ok 1
  unfolding exit_code
  cut_exit w = ground arith

  ok_exit : exit_code (ok 1) ≡ ok 1
  unfolding exit_code
  ok_exit = refl

  module _ (digest_size : (bs : Bytes) → length (sha256 bs) ≡ sha256_len) where
    receive-cut :
        (k : ℕ) (w : World)
        → length file < u64_mod
        → size_or_zero w.part < u64_mod
        → w.tls.room ≡ none
        → IsUsable sha256 file w.part
        → k < length (output sha256 (size_or_zero w.part) file)
        → w.tls.pending ≡ take k (output sha256 (size_or_zero w.part) file)
        → Interrupted k w (receive sha256 w)
    receive-cut k w hf hp room u h e = elim (Bool-cases (ltb k (8 + length header))) [
      | inl early ↦
          rw (receive-unbegun sha256 k header rest w hp room header_fits (ltb→lt k _ early) e)
            (cut_exit w, refl, u, inl (omega (arith, ltb→lt k _ early, header_size), refl))
      | inr later ↦
          let size = length-frame header in
          let ge : length (frame header) ≤ k = ground arith in
          let k' = k - length (frame header) in
          let all = length-append (frame header) rest in
          let w1 = begun w (take k' rest) held in
          let (ds, es, split, came, left) =
            transfer-cut k' cs (sha256 file) held (progress_at held) w1
              (chunks-IsFrames chunk_size (omega arith) (omega arith) _ _) (digest_size file) refl
              refl refl (omega arith) in
          let came' : Arrived (k - header_len) ds es =
            subst (λ (n : ℕ). Arrived (k - n) ds es) (omega (arith, header_size)) came in
          let part_of : file ≡ (held ++ concat ds) ++ concat es =
            sym (kept-drop sha256 file w u)
            ∙ ap (λ q. held ++ q)
                (sym (remainder_lem sha256 file accepted) ∙ ap concat split ∙ concat-append ds es)
            ∙ sym (append_assoc held (concat ds) (concat es)) in
          rw
            (
              receive-begun sha256 (length file) accepted (take k' rest) w hf (omega (arith, le)) hp
                  room (e ∙ take-append_ge k (frame header) rest ge),
              try_transfer-cut (length file) (progress_at held) w1 _ left,
            )
            (
              ok_exit,
              refl,
              inl (concat es, part_of),
              inr (ds, es, omega (arith, header_size), split, came', refl),
            )
    ]
      where
        accepted : ℕ
        accepted = accepted_of sha256 file w

        header : Bytes
        header = be 8 (length file) ++ be 8 accepted

        header_size : length header ≡ 16
        header_size = omega (
          arith,
          length-append {0} (be 8 (length file)) (be 8 accepted),
          length-be 8 (length file),
          length-be 8 accepted,
        )

        header_fits : length header < u64_mod
        header_fits = omega (arith, header_size)

        rest : Bytes
        rest = wire (remainder sha256 accepted file) ++ trailer sha256 file

        held : Bytes
        held = kept accepted w.part

        cs : List Bytes
        cs = remainder sha256 accepted file

        le : accepted ≤ length file
        le = accept_offset-le (size_or_zero w.part) (length file)

    -- Wherever the stream of the sender breaks off, after `k` bytes, from such a start as `delivery` has,
    -- the receiver exits with 1 and does not touch the final name. The partial file is as it was if the
    -- header did not come whole; otherwise it holds what the sender accepted of it and then exactly the
    -- chunks whose frames came whole, in order. It is the beginning of the file, or longer than it.
    pub interrupted :
        (k : ℕ) (w : World) (s : Socket)
        → IsConnected sha256 file w s
        → IsUsable sha256 file w.part
        → k < length (stream sha256 file s).1.sent
        → w.tls.pending ≡ take k (stream sha256 file s).1.sent
        → Interrupted k w (receive sha256 w)
    interrupted k w s c u h e =
        let (done, sent) = sender_output sha256 file w s c in
        receive-cut k w c.file_fits c.part_fits c.receiver_holds u (omega (arith, ap length sent))
          (e ∙ ap (take k) sent)

    -- Interrupted after any `k` bytes, from such a start, and run again on a new connection that holds:
    -- the first run has kept the partial file as in `interrupted`; the second sender sends the file only
    -- from the end of that partial file on, or whole if that is longer than the file; and the receiver
    -- exits with 0, the final name holds exactly the file, and the partial file is gone.
    pub resumed :
        (k : ℕ) (w : World) (s : Socket) (tls' : Socket) (s' : Socket)
        → IsConnected sha256 file w s
        → IsUsable sha256 file w.part
        → k < length (stream sha256 file s).1.sent
        → w.tls.pending ≡ take k (stream sha256 file s).1.sent
        → IsConnected sha256 file (record (receive sha256 w).1 { tls = tls' }) s'
        → tls'.pending ≡ (stream sha256 file s').1.sent
        → let again = record (receive sha256 w).1 { tls = tls' } in
          Keeps k w again.part
          × SendsRest again.part (stream sha256 file s').1.sent
          × ((receive sha256 again).0 ≡ ok 0)
          × ((receive sha256 again).1.out ≡ some file)
          × ((receive sha256 again).1.part ≡ none)
    resumed k w s tls' s' c u h e c' e' =
        let (exit, same, usable, keeps) = interrupted k w s c u h e in
        let again = record (receive sha256 w).1 { tls = tls' } in
        let (sent, done, out, part) = delivery sha256 file digest_size again s' c' usable e' in
        let rest : SendsRest again.part (stream sha256 file s').1.sent =
          rw (sender_output sha256 file again s' c').1 (output-SendsRest again.part) in
        (keeps, rest, done, out, part)
