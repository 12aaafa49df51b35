-- ===== src/Tls/Wire.antt =====
-- The byte stream of a transfer as a list of chunks, and what `stream` puts on the wire.
use cmpe272_finaltest_assesm.Prelude.{
  ℕ, zero, suc, ◌≤◌, ◌<◌, ◌≡◌, List, [], ◌∷◌, ◌++◌, append_assoc, append-nil, none, arith, ltb,
  ltb→lt, Bool-cases, inl, inr, length, length-append, length-take, length-drop, take, drop,
  take-append-drop,
}
use cmpe272_finaltest_assesm.Result.{ok}
use cmpe272_finaltest_assesm.Exec.{Exec}
use cmpe272_finaltest_assesm.Bytes.{Bytes, u64_mod, be}
use cmpe272_finaltest_assesm.Bytes.BigEndian.{length-be, unpack_q-be, pack_qq_lem}
use cmpe272_finaltest_assesm.Socket.{Socket}
use cmpe272_finaltest_assesm.Socket.Frame.{frame, send_frame-ok, sendall-ok, recv_frame-ok}
use cmpe272_finaltest_assesm.Util.{chunk_size, if_empty, if_empty_some, if_empty_none}
use cmpe272_finaltest_assesm.Tls.Blocks.{hash_blocks-ok}
use cmpe272_finaltest_assesm.Tls.Sender.{accept_offset, send_chunks, stream}

abbrev pub concat : List Bytes → Bytes
concat [] = []
concat (c ∷ cs) = c ++ concat cs

-- One frame for each chunk.
abbrev pub wire : List Bytes → Bytes
wire [] = []
wire (c ∷ cs) = frame c ++ wire cs

-- An empty frame would end the stream.
abbrev pub IsFrames : List Bytes → Type 0
IsFrames [] = Unit
IsFrames (c ∷ cs) = (0 < length c) × (length c < u64_mod) × IsFrames cs

-- A file in chunks of `size`.
unfoldable pub chunks : ℕ → ℕ → Bytes → List Bytes
chunks size zero rest = []
chunks size (suc fuel) rest =
    let c = take size rest in let next = c ∷ chunks size fuel (drop size rest) in if_empty c [] next

module _ (size : ℕ) (pos : 0 < size) (fits : size < u64_mod) where
  empty_block : length (take {A = ℕ} size []) ≡ 0
  empty_block = omega (arith, length-take {0} {A = ℕ} size [])

  pub chunks-IsFrames : (fuel : ℕ) (rest : Bytes) → IsFrames (chunks size fuel rest)
  unfolding chunks
  chunks-IsFrames zero rest = tt
  chunks-IsFrames (suc fuel) rest = elim (Bool-cases (ltb 0 (length rest))) [
    | inl more ↦
        let left = ltb→lt 0 (length rest) more in
        let got = length-take size rest in
        rw (if_empty_some (take size rest) _ _ (omega arith))
          (omega arith, omega arith, chunks-IsFrames fuel (drop size rest))
    | inr dry ↦
        let e : rest ≡ [] = ground arith in rw (e, if_empty_none (take size []) _ _ empty_block) tt
  ]

  pub concat-chunks :
      (fuel : ℕ) (rest : Bytes) → length rest < fuel → concat (chunks size fuel rest) ≡ rest
  unfolding chunks
  concat-chunks zero rest h = elim h [ ]
  concat-chunks (suc fuel) rest h = elim (Bool-cases (ltb 0 (length rest))) [
    | inl more ↦
        let left = ltb→lt 0 (length rest) more in
        let got = length-take size rest in
        let gone = length-drop size rest in
        rw (
          if_empty_some (take size rest) _ _ (omega arith),
          concat-chunks fuel (drop size rest) (omega arith),
          take-append-drop size rest,
        )
    | inr dry ↦
        let e : rest ≡ [] = ground arith in rw (e, if_empty_none (take size []) _ _ empty_block)
  ]

  pub send_chunks-ok :
      (fuel : ℕ) (rest h : Bytes) (s : Socket)
      → length rest < fuel
      → s.room ≡ none
      → send_chunks size fuel rest h s
        ≡ (ok (h ++ rest), record s { sent = s.sent ++ wire (chunks size fuel rest) })
  unfolding send_chunks chunks
  send_chunks-ok zero rest h s lt e = elim lt [ ]
  send_chunks-ok (suc fuel) rest h s lt e = elim (Bool-cases (ltb 0 (length rest))) [
    | inl more ↦
        let left = ltb→lt 0 (length rest) more in
        let c = take size rest in
        let got = length-take size rest in
        let gone = length-drop size rest in
        let s' : Socket = record s { sent = s.sent ++ frame c } in
        let all = take-append-drop size rest in
        ground (
          arith,
          send_frame-ok c s (omega arith) e,
          send_chunks-ok fuel (drop size rest) (h ++ c) s' (omega arith) e,
          append_assoc h c (drop size rest),
          append_assoc s.sent (frame c) (wire (chunks size fuel (drop size rest))),
          if_empty_some {A = List Bytes} c [] (c ∷ chunks size fuel (drop size rest)) (omega arith),
        )
    | inr dry ↦
        let e' : rest ≡ [] = ground arith in
        let z = empty_block in
        rw (
          e',
          if_empty_none {A = Exec Socket Bytes} (take size []) _ _ z,
          if_empty_none {A = List Bytes} (take size []) _ _ z,
          append-nil h,
          append-nil s.sent,
        )
  ]

pub accept_offset-le : (claimed size : ℕ) → accept_offset claimed size ≤ size
unfolding accept_offset
accept_offset-le claimed size = ground arith

-- All that the sender puts on the wire when the receiver claims `claimed` bytes.
module _ (sha256 : Bytes → Bytes) where
  abbrev pub remainder : ℕ → Bytes → List Bytes
  remainder accepted file = chunks chunk_size (suc (length file)) (drop accepted file)

  abbrev pub trailer : Bytes → Bytes
  trailer file = frame [] ++ sha256 file

  abbrev pub output : ℕ → Bytes → Bytes
  output claimed file =
      let accepted = accept_offset claimed (length file) in
      frame (be 8 (length file) ++ be 8 accepted)
      ++ (wire (remainder accepted file) ++ trailer file)

  -- The sender hashes the whole file and sends what lies behind the accepted offset.
  pub stream-ok :
      (file : Bytes) (claimed : ℕ) (rest : Bytes) (s : Socket)
      → length file < u64_mod
      → claimed < u64_mod
      → s.room ≡ none
      → s.pending ≡ frame (be 8 claimed) ++ rest
      → stream sha256 file s
        ≡ (ok 0, record s { pending = rest; sent = s.sent ++ output claimed file })
  unfolding stream
  stream-ok file claimed rest s hf hc e p =
      let accepted = accept_offset claimed (length file) in
      let le = accept_offset-le claimed (length file) in
      let header = be 8 (length file) ++ be 8 accepted in
      let behind = drop accepted file in
      let cs = remainder accepted file in
      let claim_len = length-be 8 claimed in
      let gone = length-drop accepted file in
      let sizes = length-append (be 8 (length file)) (be 8 accepted) in
      let size_len = length-be 8 (length file) in
      let offset_len = length-be 8 accepted in
      let s1 : Socket = record s { pending = rest } in
      let s2 : Socket = record s1 { sent = s.sent ++ frame header } in
      let s3 : Socket = record s1 { sent = s2.sent ++ wire cs } in
      let s4 : Socket = record s1 { sent = s3.sent ++ frame [] } in
      let sent_all : s4.sent ++ sha256 file ≡ s.sent ++ output claimed file = simp append_assoc in
      ground (
        arith,
        recv_frame-ok (be 8 claimed) rest s (omega arith) p,
        unpack_q-be claimed hc,
        pack_qq_lem (length file) accepted hf (omega arith),
        send_frame-ok header s1 (omega arith) e,
        hash_blocks-ok chunk_size (omega arith) (suc accepted) accepted file [] (omega arith) le,
        send_chunks-ok chunk_size (omega arith) (omega arith) (suc (length file)) behind
            (take accepted file) s2 (omega arith) e,
        take-append-drop accepted file,
        send_frame-ok [] s3 (omega arith) e,
        sendall-ok (sha256 file) s4 e,
        sent_all,
      )
