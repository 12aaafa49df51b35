-- ===== src/Session/Stat.antt =====
-- STAT over the wire: the client gets the size of the blob.
use cmpe272_finaltest_assesm.Prelude.{
  ℕ, ◌<◌, ◌≡◌, refl, ap, sym, ◌∙◌, Option, none, some, [], ◌++◌, append-nil, arith, length,
}
use cmpe272_finaltest_assesm.Result.{Result, ok}
use cmpe272_finaltest_assesm.Bytes.{Bytes, Text, u64_mod}
use cmpe272_finaltest_assesm.Text.{codes, str, split1, starts_with}
use cmpe272_finaltest_assesm.Socket.{Socket}
use cmpe272_finaltest_assesm.Socket.Frame.{frame, send_frame-ok, recv_frame-ok}
use cmpe272_finaltest_assesm.Broker.Storage.{Storage}
use cmpe272_finaltest_assesm.Broker.Command.{
  Codec, Broker, dispatch, stat_reply, handle_stat, handle_command,
}
use cmpe272_finaltest_assesm.Broker.Blobs.{blob}
use cmpe272_finaltest_assesm.Client.{command, stat_request, parse_stat}
use cmpe272_finaltest_assesm.Session.{peer, broker_at, call}
use cmpe272_finaltest_assesm.Session.Served.{call-steps}

abbrev pub size_of : Option Bytes → Option ℕ
size_of none = none
size_of (some bs) = some (length bs)

-- The line that answers a STAT.
abbrev pub stat_line : Codec → Option Bytes → Bytes
stat_line c none = codes "MISSING"
stat_line c (some bs) = c.encode (codes "OK " ++ str (length bs))

-- The client decodes that line as it was, and reads its number.
abbrev pub Readable : Codec → (Text → Result ℕ) → Option Bytes → Type 0
Readable c to_int none = c.decode (codes "MISSING") ≡ codes "MISSING"
Readable c to_int (some bs) =
    (c.decode (stat_line c (some bs)) ≡ codes "OK " ++ str (length bs))
    × (to_int (str (length bs)) ≡ ok (length bs))

module _ (c : Codec) (key : Text) where
  pub handle_command-stat :
      (b : Broker)
      → c.decode (command c (codes "STAT ") key) ≡ codes "STAT " ++ key
      → handle_command c (command c (codes "STAT ") key) b ≡ handle_stat c key b
  unfolding handle_command dispatch split1
  handle_command-stat b e = rw e refl

  stat_request-Sends :
      (s : Socket)
      → length (command c (codes "STAT ") key) < u64_mod
      → s.room ≡ none
      → s.sent ≡ []
      → stat_request c key s
        ≡ (ok tt, record s { sent = frame (command c (codes "STAT ") key) ++ [] })
  unfolding stat_request
  stat_request-Sends s small room empty =
      let line = command c (codes "STAT ") key in
      send_frame-ok line s small room
      ∙ ap (λ q. (ok tt, record s { sent = q })) (rw (empty, append-nil (frame line)) refl)

  pub stat_reply_lem :
      (o : Option Bytes) (b : Broker)
      → length (stat_line c o) < u64_mod
      → b.conn.room ≡ none
      → stat_reply c o b
        ≡ (ok tt, record b { conn = record b.conn { sent = b.conn.sent ++ frame (stat_line c o) } })
  unfolding stat_reply
  stat_reply_lem none b h e = ground (arith, send_frame-ok (codes "MISSING") b.conn (omega arith) e)
  stat_reply_lem (some bs) b h e = ground (arith, send_frame-ok (stat_line c (some bs)) b.conn h e)

  parse_stat-line :
      (to_int : Text → Result ℕ) (o : Option Bytes) (s : Socket)
      → length (stat_line c o) < u64_mod
      → Readable c to_int o
      → s.pending ≡ frame (stat_line c o)
      → parse_stat c to_int s ≡ (ok (size_of o), record s { pending = [] })
  unfolding parse_stat starts_with
  parse_stat-line to_int none s h r e = ground (
    arith,
    r,
    recv_frame-ok (codes "MISSING") [] s (omega arith)
        (e ∙ sym (append-nil (frame (codes "MISSING")))),
  )
  parse_stat-line to_int (some bs) s h r e =
      let line = stat_line c (some bs) in
      ground (arith, r.0, r.1, recv_frame-ok line [] s h (e ∙ sym (append-nil (frame line))))

-- A STAT of a key over the wire changes nothing and gives the size of the blob, or that it is missing,
-- if both sides read the command and the reply as they were written.
stat_over_wire :
    (c : Codec) (grant grant' : ℕ → Bytes → ℕ) (to_int : Text → Result ℕ) (key : Text)
    (fs : Storage)
    → c.decode (command c (codes "STAT ") key) ≡ codes "STAT " ++ key
    → length (command c (codes "STAT ") key) < u64_mod
    → length (stat_line c (blob key fs)) < u64_mod
    → Readable c to_int (blob key fs)
    → call c grant grant' (stat_request c key) (parse_stat c to_int) fs
      ≡ (ok (size_of (blob key fs)), fs)
unfolding handle_stat
stat_over_wire c grant grant' to_int key fs text small size readable =
    let line = command c (codes "STAT ") key in
    let replies = frame (stat_line c (blob key fs)) in
    let b = record (broker_at grant' fs (frame line ++ [])) { conn = peer grant' [] } in
    let client : Socket = record (peer grant replies) { sent = frame line ++ [] } in
    call-steps c grant grant' (stat_request c key) (parse_stat c to_int) line [] replies fs fs _ _
      (size_of (blob key fs)) small (λ s. stat_request-Sends c key s small)
      (handle_command-stat c key b text ∙ stat_reply_lem c key (blob key fs) b size refl) refl refl
      refl refl (parse_stat-line c key to_int (blob key fs) client size readable refl)
