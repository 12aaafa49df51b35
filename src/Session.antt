-- ===== src/Session.antt =====
-- One command of broker_client.py against broker.py: the request, the session of the broker over it,
-- and the reply. The network carries the bytes of each side to the other, in blocks of any sizes.
pub mod Served
pub mod Commands
pub mod Stat
pub mod Lines
pub mod Requests
pub mod Sequence
pub mod Tidy
pub mod Honest
pub mod EndToEnd
use cmpe272_finaltest_assesm.Prelude.{ℕ, suc, none, [], length}
use cmpe272_finaltest_assesm.Result.{ok}
use cmpe272_finaltest_assesm.Exec.{Exec, ◌>>◌}
use cmpe272_finaltest_assesm.Bytes.{Bytes, Text}
use cmpe272_finaltest_assesm.Socket.{Socket, closed}
use cmpe272_finaltest_assesm.Broker.Storage.{Storage}
use cmpe272_finaltest_assesm.Broker.Command.{Codec, Broker, serve_client}
use cmpe272_finaltest_assesm.Client.{Link, run}

-- A socket whose other side has sent these bytes and then closes.
abbrev pub peer : (ℕ → Bytes → ℕ) → Bytes → Socket
peer grant bs = record { pending = bs; grant = grant; ending = closed; sent = []; room = none }

-- A broker that accepts a connection over which these requests come.
abbrev pub broker_at : (ℕ → Bytes → ℕ) → Storage → Bytes → Broker
broker_at grant fs requests = record {
  storage = fs;
  put_count = 0;
  fail_after_puts = 0;
  conn = peer grant requests;
}

-- A client that is not connected, and will be to a peer that replies so.
abbrev pub unconnected : (ℕ → Bytes → ℕ) → Bytes → Link
unconnected grant replies = record {
  sock = none;
  dial = λ n. ok (peer grant replies);
  dialled = 0;
  slept = 0;
}

-- What the client gets, and the storage that the broker is left with.
module _ (c : Codec) (grant grant' : ℕ → Bytes → ℕ) {A : Type 0} where
  unfoldable pub call : Exec Socket Unit → Exec Socket A → Exec Storage A
  call request parse fs =
      let requests = (request (peer grant [])).1.sent in
      let b = (serve_client c (suc (length requests)) (broker_at grant' fs requests)).1 in
      ((run (request >> parse) (unconnected grant b.conn.sent)).0, b.storage)
