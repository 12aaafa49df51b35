-- ===== src/Proxy/Link.antt =====
-- The two threads of scripts/tamper_proxy.py, `_relay` in each direction, interleaved in any order.
pub mod Order
pub mod Bounded
use cmpe272_finaltest_assesm.Prelude.{
  ℕ, ◌+◌, ◌-◌, ◌≤◌, ◌<◌, ◌≡◌, Bool, true, false, not, [], ◌++◌, length, take, drop, if◌then◌else◌,
}
use cmpe272_finaltest_assesm.Bytes.{Bytes}
use cmpe272_finaltest_assesm.Proxy.{Mode, cuts, tampered}

-- One of the two connections: what its peer has sent and is not read yet, what the peer was sent, and
-- whether it is open.
pub record Peer : Type 0 where
  pub pending : Bytes
  pub got : Bytes
  pub is_open : Bool

-- Where a thread stands: before `recv`, with a block that is not sent on yet, and in the `finally`, where
-- the two peers are closed one after the other.
pub data Stage : Type 0 where
  reading : (transferred : ℕ) → Stage
  holding : (transferred : ℕ) → (block : Bytes) → Stage
  closing half_closed finished : Stage

-- `client_thread` reads from the client, `upstream_thread` from upstream.
pub record Link : Type 0 where
  pub client : Peer
  pub upstream : Peer
  pub client_thread : Stage
  pub upstream_thread : Stage

abbrev pub gets : Bytes → Peer → Peer
gets bs p = record p { got = p.got ++ bs }

abbrev pub shut : Peer → Peer
shut p = record p { is_open = false }

module _ (tamper : Bool) (mode : Mode) (at : ℕ) where
  -- What a thread sends of a block: up to the cut, or all of it, tampered with.
  abbrev pub outgoing : ℕ → Bytes → Bytes
  outgoing t block =
      if cuts tamper mode at t block then take (at - t) block else tampered tamper mode at t block

  -- A step of the loop, from `src` to `dst`.
  pub data Move (src dst : Peer) : Stage → Peer → Peer → Stage → Type 0 where
    receive :
        {t : ℕ} (k : ℕ)
        → src.is_open ≡ true
        → 0 < k
        → k ≤ 65536
        → k ≤ length src.pending
        → Move src dst
            (reading t)
            (record src { pending = drop k src.pending })
            dst
            (holding t (take k src.pending))
    -- The stream has ended, or `recv` raises.
    hang_up : {t : ℕ} → Move src dst (reading t) src dst closing
    pass_on :
        {t : ℕ} {block : Bytes}
        → dst.is_open ≡ true
        → cuts tamper mode at t block ≡ false
        → Move src dst
            (holding t block)
            src
            (gets (outgoing t block) dst)
            (reading (t + length block))
    cut_off :
        {t : ℕ} {block : Bytes}
        → dst.is_open ≡ true
        → cuts tamper mode at t block ≡ true
        → Move src dst (holding t block) src (gets (outgoing t block) dst) closing
    -- `sendall` raises after some bytes, or at once if the other thread has closed the connection.
    breaks :
        {t : ℕ} {block : Bytes} (k : ℕ)
        → dst.is_open ≡ true
        → Move src dst (holding t block) src (gets (take k (outgoing t block)) dst) closing
    refused :
        {t : ℕ} {block : Bytes}
        → dst.is_open ≡ false
        → Move src dst (holding t block) src dst closing

-- A step of the `finally`.
pub data Closes (client upstream : Peer) : Stage → Peer → Peer → Stage → Type 0 where
  shut_client : Closes client upstream closing (shut client) upstream half_closed
  shut_upstream : Closes client upstream half_closed client (shut upstream) finished

-- The direction that is tampered with: `from_client` is `--direction c2s`.
pub data Step (from_client : Bool) (mode : Mode) (at : ℕ) (l : Link) : Link → Type 0 where
  client_moves :
      {c u : Peer} {s : Stage}
      → Move from_client mode at l.client l.upstream l.client_thread c u s
      → Step from_client mode at l (record l { client = c; upstream = u; client_thread = s })
  upstream_moves :
      {c u : Peer} {s : Stage}
      → Move (not from_client) mode at l.upstream l.client l.upstream_thread u c s
      → Step from_client mode at l (record l { client = c; upstream = u; upstream_thread = s })
  client_closes :
      {c u : Peer} {s : Stage}
      → Closes l.client l.upstream l.client_thread c u s
      → Step from_client mode at l (record l { client = c; upstream = u; client_thread = s })
  upstream_closes :
      {c u : Peer} {s : Stage}
      → Closes l.client l.upstream l.upstream_thread c u s
      → Step from_client mode at l (record l { client = c; upstream = u; upstream_thread = s })

-- When the two threads start: all that the peers will ever send, and nothing relayed.
abbrev pub linked : Bytes → Bytes → Link
linked from_client from_upstream = record {
  client = record { pending = from_client; got = []; is_open = true };
  upstream = record { pending = from_upstream; got = []; is_open = true };
  client_thread = reading 0;
  upstream_thread = reading 0;
}

-- After some number of steps.
pub data Reach (from_client : Bool) (mode : Mode) (at : ℕ) (sent answered : Bytes)
    : ℕ → Link → Type 0 where
  start : Reach from_client mode at sent answered 0 (linked sent answered)
  later :
      {n : ℕ} {l l' : Link}
      → Reach from_client mode at sent answered n l
      → Step from_client mode at l l'
      → Reach from_client mode at sent answered (n + 1) l'
