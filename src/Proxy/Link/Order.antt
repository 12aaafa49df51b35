-- ===== src/Proxy/Link/Order.antt =====
-- What each peer has got from the other one, in every order of the steps of the two threads.
use cmpe272_finaltest_assesm.Prelude.{
  ℕ, ◌+◌, ◌-◌, ◌≤◌, ◌≡◌, refl, ap, sym, ◌∙◌, Bool, false, not, [], ◌++◌, append_assoc, append-nil,
  arith, length, length-take, take, drop, take-append-drop, Bool-cases, inl, inr,
}
use cmpe272_finaltest_assesm.Bytes.{Bytes}
use cmpe272_finaltest_assesm.Proxy.{Mode, cuts}
use cmpe272_finaltest_assesm.Proxy.Tampered.{delivered, rest, rest_step, rest_cut, rest_whole}
use cmpe272_finaltest_assesm.Proxy.Link.{
  Peer, Stage, reading, holding, closing, half_closed, finished, Link, outgoing, Move, receive,
  hang_up, pass_on, cut_off, breaks, refused, Closes, shut_client, shut_upstream, Step,
  client_moves, upstream_moves, client_closes, upstream_closes, Reach, start, later,
}

-- These bytes, and something behind them, are the whole.
abbrev pub Begins : Bytes → Bytes → Type 0
Begins whole bs = (more : Bytes) × (bs ++ more ≡ whole)

Begins-append :
    (whole got sent more : Bytes) (k : ℕ)
    → got ++ (sent ++ more) ≡ whole
    → Begins whole (got ++ take k sent)
Begins-append whole got sent more k e = (
  drop k sent ++ more,
  append_assoc got (take k sent) (drop k sent ++ more)
      ∙ ap (λ bs. got ++ bs)
          (sym (append_assoc (take k sent) (drop k sent) more)
            ∙ ap (λ bs. bs ++ more) (take-append-drop k sent))
      ∙ e,
)

module _ (tamper : Bool) (mode : Mode) (at : ℕ) where
  -- A block, what was pending when it was read, and what is to become of that.
  pub record Held (whole pending : Bytes) (t : ℕ) (block got : Bytes) : Type 0 where
    pub size : ℕ
    pub from : Bytes
    pub read : block ≡ take size from
    pub left : pending ≡ drop size from
    pub fits : size ≤ length from
    pub so_far : got ++ rest tamper mode at t from ≡ whole

  -- Of a direction: what is pending, where its thread stands, and what the other end has got.
  abbrev pub IsOn : Bytes → Bytes → Stage → Bytes → Type 0
  IsOn whole pending (reading t) got = got ++ rest tamper mode at t pending ≡ whole
  IsOn whole pending (holding t block) got = Held whole pending t block got
  IsOn whole pending _ got = Begins whole got

  -- What becomes of a block and of what is behind it.
  sent_of :
      (t k : ℕ) (bs : Bytes)
      → k ≤ length bs
      → (more : Bytes) × (outgoing tamper mode at t (take k bs) ++ more ≡ rest tamper mode at t bs)
  sent_of t k bs fits = elim (Bool-cases (cuts tamper mode at t (take k bs))) [
    | inl cut ↦
        ([], rw cut (append-nil (take (at - t) (take k bs)) ∙ rest_cut tamper mode at t k bs cut))
    | inr whole ↦ (
      rest tamper mode at (t + k) (drop k bs),
      rw whole (rest_step tamper mode at t k bs fits whole),
    )
  ]

  -- A block that is sent on whole, with what is pending behind it.
  passed :
      (t k : ℕ) (bs block pending : Bytes)
      → block ≡ take k bs
      → pending ≡ drop k bs
      → k ≤ length bs
      → cuts tamper mode at t block ≡ false
      → outgoing tamper mode at t block ++ rest tamper mode at (t + length block) pending
        ≡ rest tamper mode at t bs
  passed t k bs block pending e e' fits no_cut =
      let size : length (take k bs) ≡ k = omega (arith, length-take {0} k bs) in
      let still : cuts tamper mode at t (take k bs) ≡ false =
        ap (cuts tamper mode at t) (sym e) ∙ no_cut in
      rw (e, e')
        (ap (λ m. outgoing tamper mode at t (take k bs) ++ rest tamper mode at (t + m) (drop k bs))
            size
          ∙ rw still (rest_step tamper mode at t k bs fits still))

  module _ (whole : Bytes) where
    Held-outgoing :
        (pending got block : Bytes) (t : ℕ)
        → Held whole pending t block got
        → (more : Bytes) × (got ++ (outgoing tamper mode at t block ++ more) ≡ whole)
    Held-outgoing pending got block t h =
        let (more, e) = sent_of t h.size h.from h.fits in
        (
          more,
          ap (λ bs. got ++ (outgoing tamper mode at t bs ++ more)) h.read
              ∙ ap (λ bs. got ++ bs) e
              ∙ h.so_far,
        )

    Held-Begins :
        (pending got block : Bytes) (t k : ℕ)
        → Held whole pending t block got
        → Begins whole (got ++ take k (outgoing tamper mode at t block))
    Held-Begins pending got block t k h =
        let (more, e) = Held-outgoing pending got block t h in
        Begins-append whole got (outgoing tamper mode at t block) more k e

    pub IsOn-Begins :
        (pending got : Bytes) (s : Stage) → IsOn whole pending s got → Begins whole got
    IsOn-Begins pending got (reading t) e = (rest tamper mode at t pending, e)
    IsOn-Begins pending got (holding t block) h = (rest tamper mode at t h.from, h.so_far)
    IsOn-Begins pending got closing h = h
    IsOn-Begins pending got half_closed h = h
    IsOn-Begins pending got finished h = h

    Move-IsOn :
        {src dst src' dst' : Peer} {s s' : Stage}
        → Move tamper mode at src dst s src' dst' s'
        → IsOn whole src.pending s dst.got
        → IsOn whole src'.pending s' dst'.got
    Move-IsOn {src} {dst} (receive k o pos le fits) h = record {
      size = k;
      from = src.pending;
      read = refl;
      left = refl;
      fits = fits;
      so_far = h;
    }
    Move-IsOn {src} {dst} hang_up h = (_, h)
    Move-IsOn {src} {dst} (pass_on {t} {block} o no_cut) h =
        append_assoc dst.got (outgoing tamper mode at t block)
          (rest tamper mode at (t + length block) src.pending)
        ∙ ap (λ bs. dst.got ++ bs)
            (passed t h.size h.from block src.pending h.read h.left h.fits no_cut)
        ∙ h.so_far
    Move-IsOn {src} {dst} (cut_off {t} {block} o cut) h =
        let (more, e) = Held-outgoing src.pending dst.got block t h in
        (more, append_assoc dst.got (outgoing tamper mode at t block) more ∙ e)
    Move-IsOn {src} {dst} (breaks {t} {block} k o) h = Held-Begins src.pending dst.got block t k h
    Move-IsOn {src} {dst} (refused o) h = (_, h.so_far)

    IsOn-at :
        {p p' g g' : Bytes} (s : Stage) → p' ≡ p → g' ≡ g → IsOn whole p s g → IsOn whole p' s g'
    IsOn-at s e e' h = rw (e, e') h

    Closes-IsOn :
        {c u c' u' : Peer} {s s' : Stage} (pending got : Bytes)
        → Closes c u s c' u' s'
        → IsOn whole pending s got
        → IsOn whole pending s' got
    Closes-IsOn pending got shut_client h = h
    Closes-IsOn pending got shut_upstream h = h

-- A step of one direction leaves alone what the other one has read and sent.
Move-other :
    {tamper : Bool} {mode : Mode} {at : ℕ} {src dst src' dst' : Peer} {s s' : Stage}
    → Move tamper mode at src dst s src' dst' s'
    → (src'.got ≡ src.got) × (dst'.pending ≡ dst.pending)
Move-other (receive k o pos le fits) = (refl, refl)
Move-other hang_up = (refl, refl)
Move-other (pass_on o no_cut) = (refl, refl)
Move-other (cut_off o cut) = (refl, refl)
Move-other (breaks k o) = (refl, refl)
Move-other (refused o) = (refl, refl)

Closes-other :
    {c u c' u' : Peer} {s s' : Stage}
    → Closes c u s c' u' s'
    → (c'.got ≡ c.got) × (c'.pending ≡ c.pending) × (u'.got ≡ u.got) × (u'.pending ≡ u.pending)
Closes-other shut_client = (refl, refl, refl, refl)
Closes-other shut_upstream = (refl, refl, refl, refl)

module _ (from_client : Bool) (mode : Mode) (at : ℕ) (sent answered : Bytes) where
  -- What each side is to get in the end.
  abbrev there : Bytes
  there = delivered from_client mode at sent

  abbrev back : Bytes
  back = delivered (not from_client) mode at answered

  -- Both directions.
  abbrev AreOn : Link → Type 0
  AreOn l =
      IsOn from_client mode at there l.client.pending l.client_thread l.upstream.got
      × IsOn (not from_client) mode at back l.upstream.pending l.upstream_thread l.client.got

  Step-AreOn : {l l' : Link} → AreOn l → Step from_client mode at l l' → AreOn l'
  Step-AreOn {l} h (client_moves m) =
      let (got, pending) = Move-other m in
      (
        Move-IsOn from_client mode at there m h.0,
        IsOn-at (not from_client) mode at back l.upstream_thread pending got h.1,
      )
  Step-AreOn {l} h (upstream_moves m) =
      let (got, pending) = Move-other m in
      (
        IsOn-at from_client mode at there l.client_thread pending got h.0,
        Move-IsOn (not from_client) mode at back m h.1,
      )
  Step-AreOn {l} h (client_closes {s = s} m) =
      let (got, pending, got', pending') = Closes-other m in
      (
        IsOn-at from_client mode at there s pending got'
            (Closes-IsOn from_client mode at there l.client.pending l.upstream.got m h.0),
        IsOn-at (not from_client) mode at back l.upstream_thread pending' got h.1,
      )
  Step-AreOn {l} h (upstream_closes {s = s} m) =
      let (got, pending, got', pending') = Closes-other m in
      (
        IsOn-at from_client mode at there l.client_thread pending got' h.0,
        IsOn-at (not from_client) mode at back s pending' got
            (Closes-IsOn (not from_client) mode at back l.upstream.pending l.client.got m h.1),
      )

  Reach-AreOn : {n : ℕ} {l : Link} → Reach from_client mode at sent answered n l → AreOn l
  Reach-AreOn start =
      (rest_whole from_client mode at sent, rest_whole (not from_client) mode at answered)
  Reach-AreOn (later r step) = Step-AreOn (Reach-AreOn r) step

  -- In every state that the two threads reach, in any order of their steps, with blocks of any sizes,
  -- wherever streams end and calls fail: upstream has got a beginning of what the relay is to make of the
  -- client's stream, and the client one of what it is to make of the upstream's; only the direction of
  -- `--direction` is tampered with.
  pub relayed_in_order :
      {n : ℕ} {l : Link}
      → Reach from_client mode at sent answered n l
      → Begins (delivered from_client mode at sent) l.upstream.got
        × Begins (delivered (not from_client) mode at answered) l.client.got
  relayed_in_order {l = l} r =
      let h = Reach-AreOn r in
      (
        IsOn-Begins from_client mode at there l.client.pending l.upstream.got l.client_thread h.0,
        IsOn-Begins (not from_client) mode at back l.upstream.pending l.client.got l.upstream_thread
            h.1,
      )
