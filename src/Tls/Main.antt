-- ===== src/Tls/Main.antt =====
-- `main` of receiver.py and sender.py of approach-a-tls-mtls, behind the command line: the connection,
-- the handshake, the transfer, and the exceptions that become an exit code. What the operating system
-- and the ssl module make of the connection is a parameter.
pub mod Exits
use cmpe272_finaltest_assesm.Prelude.{ℕ, Option, none, some, []}
use cmpe272_finaltest_assesm.Result.{Error, Result, ok, err}
use cmpe272_finaltest_assesm.Bytes.{Bytes}
use cmpe272_finaltest_assesm.Socket.{Socket}
use cmpe272_finaltest_assesm.Tls.Sender.{stream, exit_code}
use cmpe272_finaltest_assesm.Tls.Receiver.{World, receive}

-- What `srv.accept()` gives: it may time out or fail; on a connection there is the handshake.
pub data Accepted : Type 0 where
  timed_out : Accepted
  failed : Error → Accepted
  accepted : Result Socket → Accepted

-- The files that the receiver works on.
pub record Disk : Type 0 where
  pub part : Option Bytes
  pub out : Option Bytes

abbrev pub world : Socket → Disk → World
world tls d = record { tls = tls; part = d.part; out = d.out }

abbrev pub disk : World → Disk
disk w = record { part = w.part; out = w.out }

module _ (sha256 : Bytes → Bytes) where
  -- `main` of the receiver; the exceptions that it turns into 1 are those of the sender's.
  unfoldable pub receiver_main : Accepted → Disk → Result ℕ × Disk
  receiver_main timed_out d = (ok 1, d)
  receiver_main (failed e) d = (err e, d)
  receiver_main (accepted (err e)) d = (exit_code (err e), d)
  receiver_main (accepted (ok tls)) d =
      let (r, w) = receive sha256 (world tls d) in (exit_code r, disk w)

  -- `main` of the sender, with the file, the connection and the handshake on it; returns what was sent.
  unfoldable pub sender_main : Option Bytes → Result (Result Socket) → Result ℕ × Bytes
  sender_main none conn = (ok 1, [])
  sender_main (some file) (err e) = (exit_code (err e), [])
  sender_main (some file) (ok (err e)) = (exit_code (err e), [])
  sender_main (some file) (ok (ok tls)) =
      let (r, s) = stream sha256 file tls in (exit_code r, s.sent)
