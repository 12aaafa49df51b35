-- ===== src/Proxy/Link/Bounded.antt =====
-- The two threads end, and close both connections.
use cmpe272_finaltest_assesm.Prelude.{
  ℕ, ◌+◌, ◌*◌, ◌≤◌, ◌<◌, ◌≡◌, ◌⊎◌, inl, inr, refl, ap, Bool, false, arith, length, length-drop,
}
use cmpe272_finaltest_assesm.Bytes.{Bytes}
use cmpe272_finaltest_assesm.Proxy.{Mode}
use cmpe272_finaltest_assesm.Proxy.Link.{
  Peer, Stage, reading, holding, closing, half_closed, finished, Link, Move, receive, hang_up,
  pass_on, cut_off, breaks, refused, Closes, shut_client, shut_upstream, Step, client_moves,
  upstream_moves, client_closes, upstream_closes, Reach, start, later,
}

-- A bound on the steps that a thread still has.
abbrev left : Bytes → Stage → ℕ
left pending (reading t) = 2 * length pending + 4
left pending (holding t block) = 2 * length pending + 5
left pending closing = 2
left pending half_closed = 1
left pending finished = 0

abbrev both_left : Link → ℕ
both_left l = left l.client.pending l.client_thread + left l.upstream.pending l.upstream_thread

Move-left :
    {tamper : Bool} {mode : Mode} {at : ℕ} {src dst src' dst' : Peer} {s s' : Stage}
    → Move tamper mode at src dst s src' dst' s'
    → (left src'.pending s' < left src.pending s) × (dst'.pending ≡ dst.pending)
Move-left {src = src} (receive k o pos le fits) =
    (omega (arith, length-drop {0} k src.pending), refl)
Move-left hang_up = (omega arith, refl)
Move-left (pass_on o no_cut) = (omega arith, refl)
Move-left (cut_off o cut) = (omega arith, refl)
Move-left (breaks k o) = (omega arith, refl)
Move-left (refused o) = (omega arith, refl)

Closes-left :
    {c u c' u' : Peer} {s s' : Stage} (pending : Bytes)
    → Closes c u s c' u' s'
    → (left pending s' < left pending s) × (c'.pending ≡ c.pending) × (u'.pending ≡ u.pending)
Closes-left pending shut_client = (omega arith, refl, refl)
Closes-left pending shut_upstream = (omega arith, refl, refl)

Step-left :
    {from_client : Bool} {mode : Mode} {at : ℕ} {l l' : Link}
    → Step from_client mode at l l'
    → both_left l' < both_left l
Step-left {l = l} (client_moves m) =
    let (less, same) = Move-left m in omega (arith, less, ap (λ p. left p l.upstream_thread) same)
Step-left {l = l} (upstream_moves m) =
    let (less, same) = Move-left m in omega (arith, less, ap (λ p. left p l.client_thread) same)
Step-left {l = l} (client_closes {s = s} m) =
    let (less, same, same') = Closes-left l.client.pending m in
    omega (arith, less, ap (λ p. left p s) same, ap (λ p. left p l.upstream_thread) same')
Step-left {l = l} (upstream_closes {s = s} m) =
    let (less, same, same') = Closes-left l.upstream.pending m in
    omega (arith, less, ap (λ p. left p l.client_thread) same, ap (λ p. left p s) same')

-- What a thread in its `finally` has closed.
abbrev IsShut : Stage → Peer → Peer → Type 0
IsShut half_closed c u = c.is_open ≡ false
IsShut finished c u = (c.is_open ≡ false) × (u.is_open ≡ false)
IsShut _ c u = Unit

abbrev AreShut : Link → Type 0
AreShut l =
    IsShut l.client_thread l.client l.upstream × IsShut l.upstream_thread l.client l.upstream

-- What is closed stays closed.
abbrev StaysShut : Peer → Peer → Type 0
StaysShut p p' = p.is_open ≡ false → p'.is_open ≡ false

IsShut-stays :
    (c u c' u' : Peer) (s : Stage) → StaysShut c c' → StaysShut u u' → IsShut s c u → IsShut s c' u'
IsShut-stays c u c' u' (reading t) stay stay' h = tt
IsShut-stays c u c' u' (holding t block) stay stay' h = tt
IsShut-stays c u c' u' closing stay stay' h = tt
IsShut-stays c u c' u' half_closed stay stay' h = stay h
IsShut-stays c u c' u' finished stay stay' (h, h') = (stay h, stay' h')

Move-IsShut :
    {tamper : Bool} {mode : Mode} {at : ℕ} {src dst src' dst' : Peer} {s s' : Stage} (c u : Peer)
    → Move tamper mode at src dst s src' dst' s'
    → StaysShut src src' × StaysShut dst dst' × IsShut s' c u
Move-IsShut c u (receive k o pos le fits) = (λ h. h, λ h. h, tt)
Move-IsShut c u hang_up = (λ h. h, λ h. h, tt)
Move-IsShut c u (pass_on o no_cut) = (λ h. h, λ h. h, tt)
Move-IsShut c u (cut_off o cut) = (λ h. h, λ h. h, tt)
Move-IsShut c u (breaks k o) = (λ h. h, λ h. h, tt)
Move-IsShut c u (refused o) = (λ h. h, λ h. h, tt)

Closes-IsShut :
    {c u c' u' : Peer} {s s' : Stage}
    → Closes c u s c' u' s'
    → IsShut s c u
    → StaysShut c c' × StaysShut u u' × IsShut s' c' u'
Closes-IsShut shut_client h = (λ e. refl, λ e. e, refl)
Closes-IsShut shut_upstream h = (λ e. e, λ e. refl, (h, refl))

Step-AreShut :
    {from_client : Bool} {mode : Mode} {at : ℕ} {l l' : Link}
    → AreShut l
    → Step from_client mode at l l'
    → AreShut l'
Step-AreShut {l = l} h (client_moves {c} {u} m) =
    let (stay, stay', new) = Move-IsShut c u m in
    (new, IsShut-stays l.client l.upstream c u l.upstream_thread stay stay' h.1)
Step-AreShut {l = l} h (upstream_moves {c} {u} m) =
    let (stay, stay', new) = Move-IsShut c u m in
    (IsShut-stays l.client l.upstream c u l.client_thread stay' stay h.0, new)
Step-AreShut {l = l} h (client_closes {c} {u} m) =
    let (stay, stay', new) = Closes-IsShut m h.0 in
    (new, IsShut-stays l.client l.upstream c u l.upstream_thread stay stay' h.1)
Step-AreShut {l = l} h (upstream_closes {c} {u} m) =
    let (stay, stay', new) = Closes-IsShut m h.1 in
    (IsShut-stays l.client l.upstream c u l.client_thread stay stay' h.0, new)

-- Nothing is sent to a peer that is closed.
Move-silent :
    {tamper : Bool} {mode : Mode} {at : ℕ} {src dst src' dst' : Peer} {s s' : Stage}
    → dst.is_open ≡ false
    → Move tamper mode at src dst s src' dst' s'
    → (src'.got ≡ src.got) × (dst'.got ≡ dst.got)
Move-silent e (receive k o pos le fits) = (refl, refl)
Move-silent e hang_up = (refl, refl)
Move-silent e (pass_on o no_cut) = cc
Move-silent e (cut_off o cut) = cc
Move-silent e (breaks k o) = cc
Move-silent e (refused o) = (refl, refl)

Closes-silent :
    {c u c' u' : Peer} {s s' : Stage} → Closes c u s c' u' s' → (c'.got ≡ c.got) × (u'.got ≡ u.got)
Closes-silent shut_client = (refl, refl)
Closes-silent shut_upstream = (refl, refl)

-- Nothing more is relayed.
abbrev pub IsSilent : Bool → Mode → ℕ → Link → Type 0
IsSilent from_client mode at l =
    (l.client.is_open ≡ false)
    × (l.upstream.is_open ≡ false)
    × ((l' : Link)
        → Step from_client mode at l l'
        → (l'.client.got ≡ l.client.got) × (l'.upstream.got ≡ l.upstream.got))

Step-silent :
    {from_client : Bool} {mode : Mode} {at : ℕ} {l l' : Link}
    → IsShut finished l.client l.upstream
    → Step from_client mode at l l'
    → (l'.client.got ≡ l.client.got) × (l'.upstream.got ≡ l.upstream.got)
Step-silent (e, e') (client_moves m) = Move-silent e' m
Step-silent (e, e') (upstream_moves m) = let (a, b) = Move-silent e m in (b, a)
Step-silent (e, e') (client_closes m) = Closes-silent m
Step-silent (e, e') (upstream_closes m) = Closes-silent m

module _ (from_client : Bool) (mode : Mode) (at : ℕ) (sent answered : Bytes) where
  both_left-Reach :
      {n : ℕ} {l : Link}
      → Reach from_client mode at sent answered n l
      → n + both_left l ≤ 2 * (length sent + length answered) + 8
  both_left-Reach start = omega arith
  both_left-Reach (later r step) = omega (arith, both_left-Reach r, Step-left step)

  Reach-AreShut : {n : ℕ} {l : Link} → Reach from_client mode at sent answered n l → AreShut l
  Reach-AreShut start = (tt, tt)
  Reach-AreShut (later r step) = Step-AreShut (Reach-AreShut r) step

  -- In every order of their steps the two threads take at most two steps for each byte of the two
  -- streams, and eight; as soon as one of them has ended, both connections are closed, and no further step
  -- relays anything.
  pub link_ends :
      {n : ℕ} {l : Link}
      → Reach from_client mode at sent answered n l
      → (n ≤ 2 * (length sent + length answered) + 8)
        × ((l.client_thread ≡ finished) ⊎ (l.upstream_thread ≡ finished)
            → IsSilent from_client mode at l)
  link_ends {n} {l} r = (
    omega (arith, both_left-Reach r),
    λ ended. elim ended [
      | inl e ↦ silent (rw e at (Reach-AreShut r).0)
      | inr e ↦ silent (rw e at (Reach-AreShut r).1)
    ],
  )
    where
      silent : IsShut finished l.client l.upstream → IsSilent from_client mode at l
      silent (e, e') = (e, e', λ l' step. Step-silent (e, e') step)
