-- ===== src/Tls/Appended.antt =====
-- The chunks that come through are appended, one after the other.
use cmpe272_finaltest_assesm.Prelude.{
  ℕ, zero, suc, ◌+◌, ◌<◌, ◌≡◌, refl, ◌∙◌, List, [], ◌∷◌, ◌++◌, append_assoc, append-nil, some,
  arith, length, length-append,
}
use cmpe272_finaltest_assesm.Result.{ok}
use cmpe272_finaltest_assesm.Bytes.{Bytes, u64_mod}
use cmpe272_finaltest_assesm.Socket.Frame.{frame, recv_frame-ok}
use cmpe272_finaltest_assesm.Util.WriteAt.{write_at-end}
use cmpe272_finaltest_assesm.Tls.Receiver.{World, Progress, advance, recv_chunks}
use cmpe272_finaltest_assesm.Tls.Wire.{concat, wire, IsFrames}

-- The world after `c` has come: `rest` is still to be read, and the open file holds `held`.
abbrev pub after : World → Bytes → Bytes → World
after w rest held = record w { tls = record w.tls { pending = rest }; part = some held }

-- The progress after the chunks `bs`.
abbrev pub further : Bytes → Progress → Progress
further bs p = record {
  position = p.position + length bs;
  h = p.h ++ bs;
  received = p.received + length bs;
}

-- One chunk comes through: it is appended, and the loop goes on.
pub recv_chunks-step :
    (fuel : ℕ) (c rest held : Bytes) (p : Progress) (w : World)
    → 0 < length c
    → length c < u64_mod
    → w.part ≡ some held
    → p.position ≡ length held
    → w.tls.pending ≡ frame c ++ rest
    → recv_chunks (suc fuel) p w ≡ recv_chunks fuel (advance c p) (after w rest (held ++ c))
unfolding recv_chunks
recv_chunks-step fuel [] rest held p w hc fits eh ep e = elim hc [ ]
recv_chunks-step fuel (b ∷ bs) rest held p w hc fits eh ep e =
    ground
      (arith, recv_frame-ok (b ∷ bs) rest w.tls fits e, write_at-end p.position (b ∷ bs) held ep)

recv_chunks-done :
    (fuel : ℕ) (rest : Bytes) (p : Progress) (w : World)
    → w.tls.pending ≡ frame [] ++ rest
    → recv_chunks (suc fuel) p w ≡ (ok p, record w { tls = record w.tls { pending = rest } })
unfolding recv_chunks
recv_chunks-done fuel rest p w e = ground (arith, recv_frame-ok [] rest w.tls (omega arith) e)

further-advance : (c bs : Bytes) (p : Progress) → further bs (advance c p) ≡ further (c ++ bs) p
further-advance c bs p = ground (arith, append_assoc p.h c bs, length-append c bs)

further_none : (p : Progress) → further [] p ≡ p
further_none p = ground (arith, append-nil p.h)

-- All the chunks and the marker come through.
pub recv_chunks-ok :
    (fuel : ℕ) (cs : List Bytes) (rest held : Bytes) (p : Progress) (w : World)
    → length cs < fuel
    → IsFrames cs
    → w.part ≡ some held
    → p.position ≡ length held
    → w.tls.pending ≡ wire cs ++ (frame [] ++ rest)
    → recv_chunks fuel p w ≡ (ok (further (concat cs) p), after w rest (held ++ concat cs))
recv_chunks-ok zero cs rest held p w lt fr eh ep e = elim lt [ ]
recv_chunks-ok (suc fuel) [] rest held p w lt fr eh ep e =
    recv_chunks-done fuel rest p w e ∙ ground (arith, further_none p, append-nil held)
recv_chunks-ok (suc fuel) (c ∷ cs) rest held p w lt fr eh ep e =
    let tail = wire cs ++ (frame [] ++ rest) in
    let w' = after w tail (held ++ c) in
    let sizes = length-append held c in
    let more = length-append c (concat cs) in
    recv_chunks-step fuel c tail held p w fr.0 fr.1 eh ep (e ∙ append_assoc (frame c) (wire cs) _)
    ∙ recv_chunks-ok fuel cs rest (held ++ c) (advance c p) w' (omega arith) fr.2 refl (omega arith)
        refl
    ∙ ground (arith, further-advance c (concat cs) p, append_assoc held c (concat cs))
