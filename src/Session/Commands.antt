-- ===== src/Session/Commands.antt =====
-- PUT, GET and LIST over the wire: what the client gets is what the storage says.
use cmpe272_finaltest_assesm.Prelude.{
  ℕ, ◌<◌, ◌≡◌, refl, ap, sym, ◌∙◌, false, [], ◌++◌, append-nil, append_assoc, arith, length, none,
  some, ◌=ₜ◌, Option,
}
use cmpe272_finaltest_assesm.Result.{ok}
use cmpe272_finaltest_assesm.Bytes.{Bytes, Text, u64_mod}
use cmpe272_finaltest_assesm.Text.{codes}
use cmpe272_finaltest_assesm.Socket.{Socket}
use cmpe272_finaltest_assesm.Socket.Frame.{frame, send_frame-ok, recv_frame-ok}
use cmpe272_finaltest_assesm.Broker.Key.{safe_path}
use cmpe272_finaltest_assesm.Broker.Storage.{Storage, store_blob, list_keys}
use cmpe272_finaltest_assesm.Broker.Command.{Codec, Broker, join_lines, handle_list}
use cmpe272_finaltest_assesm.Broker.Blobs.{blob}
use cmpe272_finaltest_assesm.Broker.Replies.{Fits, get_frames, handle_get_lem, handle_put_lem}
use cmpe272_finaltest_assesm.Client.{
  command, put_request, parse_put, get_request, parse_get, list_request, parse_list, lines,
}
use cmpe272_finaltest_assesm.Session.{peer, broker_at, call}
use cmpe272_finaltest_assesm.Session.Served.{
  handle_command-put, handle_command-get, handle_command-list, call-steps,
}

module _ (c : Codec) (key : Text) where
  put_request-Sends :
      (bs : Bytes) (s : Socket)
      → length (command c (codes "PUT ") key) < u64_mod
      → length bs < u64_mod
      → s.room ≡ none
      → s.sent ≡ []
      → put_request c key bs s
        ≡ (ok tt, record s { sent = frame (command c (codes "PUT ") key) ++ frame bs })
  unfolding put_request
  put_request-Sends bs s small size room empty =
      let line = command c (codes "PUT ") key in
      ground (
        arith,
        send_frame-ok line s small room,
        send_frame-ok bs (record s { sent = s.sent ++ frame line }) size room,
        empty,
      )

  get_request-Sends :
      (s : Socket)
      → length (command c (codes "GET ") key) < u64_mod
      → s.room ≡ none
      → s.sent ≡ []
      → get_request c key s
        ≡ (ok tt, record s { sent = frame (command c (codes "GET ") key) ++ [] })
  unfolding get_request
  get_request-Sends s small room empty =
      let line = command c (codes "GET ") key in
      send_frame-ok line s small room
      ∙ ap (λ q. (ok tt, record s { sent = q })) (rw (empty, append-nil (frame line)) refl)

  list_request-Sends :
      (s : Socket)
      → length (command c (codes "LIST ") key) < u64_mod
      → s.room ≡ none
      → s.sent ≡ []
      → list_request c key s
        ≡ (ok tt, record s { sent = frame (command c (codes "LIST ") key) ++ [] })
  unfolding list_request
  list_request-Sends s small room empty =
      let line = command c (codes "LIST ") key in
      send_frame-ok line s small room
      ∙ ap (λ q. (ok tt, record s { sent = q })) (rw (empty, append-nil (frame line)) refl)

  -- A LIST replies with the keys, and changes nothing.
  pub handle_list_lem :
      (b : Broker)
      → length (c.encode (join_lines (list_keys key b.storage))) < u64_mod
      → b.conn.room ≡ none
      → handle_list c key b ≡ (
        ok tt,
        record b {
          conn = record b.conn {
            sent =
                b.conn.sent
                ++ (frame (codes "OK") ++ frame (c.encode (join_lines (list_keys key b.storage))));
          };
        },
      )
  unfolding handle_list
  handle_list_lem b h e =
      let body = c.encode (join_lines (list_keys key b.storage)) in
      let c1 : Socket = record b.conn { sent = b.conn.sent ++ frame (codes "OK") } in
      ground (
        arith,
        send_frame-ok (codes "OK") b.conn (omega arith) e,
        send_frame-ok body c1 h e,
        append_assoc b.conn.sent (frame (codes "OK")) (frame body),
      )

module _ (c : Codec) (s : Socket) where
  -- The reply to a PUT.
  parse_put-ok : s.pending ≡ frame (codes "OK") → parse_put c s ≡ (ok tt, record s { pending = [] })
  unfolding parse_put
  parse_put-ok e = ground (
    arith,
    recv_frame-ok (codes "OK") [] s (omega arith) (e ∙ sym (append-nil (frame (codes "OK")))),
  )

  -- The reply to a GET.
  parse_get-frames :
      (o : Option Bytes)
      → Fits o
      → s.pending ≡ get_frames o
      → parse_get c s ≡ (ok o, record s { pending = [] })
  unfolding parse_get
  parse_get-frames none h e = ground (
    arith,
    recv_frame-ok (codes "MISSING") [] s (omega arith)
        (e ∙ sym (append-nil (frame (codes "MISSING")))),
  )
  parse_get-frames (some bs) h e =
      let s1 : Socket = record s { pending = frame bs } in
      ground (
        arith,
        recv_frame-ok (codes "OK") (frame bs) s (omega arith) e,
        recv_frame-ok bs [] s1 h (sym (append-nil (frame bs))),
      )

  -- The reply to a LIST.
  parse_list-frames :
      (body : Bytes)
      → length body < u64_mod
      → s.pending ≡ frame (codes "OK") ++ frame body
      → parse_list c s ≡ (ok (lines (c.decode body)), record s { pending = [] })
  unfolding parse_list
  parse_list-frames body h e =
      let s1 : Socket = record s { pending = frame body } in
      ground (
        arith,
        recv_frame-ok (codes "OK") (frame body) s (omega arith) e,
        recv_frame-ok body [] s1 h (sym (append-nil (frame body))),
      )

module _ (c : Codec) (grant grant' : ℕ → Bytes → ℕ) (key : Text) (fs : Storage) where
  -- A PUT over the wire stores the blob, and the client learns it.
  pub put_over_wire :
      (ns name : Text) (bs : Bytes)
      → safe_path key ≡ ok (ns, name)
      → (name =ₜ codes ".") ≡ false
      → c.decode (command c (codes "PUT ") key) ≡ codes "PUT " ++ key
      → length (command c (codes "PUT ") key) < u64_mod
      → length bs < u64_mod
      → call c grant grant' (put_request c key bs) (parse_put c) fs
        ≡ (ok tt, (store_blob ns name bs fs).1)
  put_over_wire ns name bs legal file text small size =
      let line = command c (codes "PUT ") key in
      let replies = frame (codes "OK") in
      let b = record (broker_at grant' fs (frame line ++ frame bs)) {
        conn = peer grant' (frame bs);
      } in
      let parsed =
        parse_put-ok c (record (peer grant replies) { sent = frame line ++ frame bs }) refl in
      call-steps c grant grant' (put_request c key bs) (parse_put c) line (frame bs) replies fs
        (store_blob ns name bs fs).1 _ _ tt small (λ s. put_request-Sends c key bs s small size)
        (handle_command-put c key b text
          ∙ handle_put_lem c key ns name legal bs [] b file size refl refl
              (sym (append-nil (frame bs))))
        refl refl refl refl parsed

  -- A GET over the wire changes nothing and gives what is stored.
  pub get_over_wire :
      c.decode (command c (codes "GET ") key) ≡ codes "GET " ++ key
      → length (command c (codes "GET ") key) < u64_mod
      → Fits (blob key fs)
      → call c grant grant' (get_request c key) (parse_get c) fs ≡ (ok (blob key fs), fs)
  get_over_wire text small size =
      let line = command c (codes "GET ") key in
      let replies = get_frames (blob key fs) in
      let b = record (broker_at grant' fs (frame line ++ [])) { conn = peer grant' [] } in
      let parsed =
        parse_get-frames c (record (peer grant replies) { sent = frame line ++ [] }) (blob key fs)
          size refl in
      call-steps c grant grant' (get_request c key) (parse_get c) line [] replies fs fs _ _
        (blob key fs) small (λ s. get_request-Sends c key s small)
        (handle_command-get c key b text ∙ handle_get_lem key b size refl) refl refl refl refl
        parsed

module _ (c : Codec) (grant grant' : ℕ → Bytes → ℕ) (prefix : Text) (fs : Storage) where
  -- A LIST over the wire changes nothing and gives the keys that are stored.
  pub list_over_wire :
      c.decode (command c (codes "LIST ") prefix) ≡ codes "LIST " ++ prefix
      → length (command c (codes "LIST ") prefix) < u64_mod
      → length (c.encode (join_lines (list_keys prefix fs))) < u64_mod
      → call c grant grant' (list_request c prefix) (parse_list c) fs
        ≡ (ok (lines (c.decode (c.encode (join_lines (list_keys prefix fs))))), fs)
  list_over_wire text small size =
      let line = command c (codes "LIST ") prefix in
      let body = c.encode (join_lines (list_keys prefix fs)) in
      let replies = frame (codes "OK") ++ frame body in
      let b = record (broker_at grant' fs (frame line ++ [])) { conn = peer grant' [] } in
      let parsed =
        parse_list-frames c (record (peer grant replies) { sent = frame line ++ [] }) body size
          refl in
      call-steps c grant grant' (list_request c prefix) (parse_list c) line [] replies fs fs _ _
        (lines (c.decode body)) small (λ s. list_request-Sends c prefix s small)
        (handle_command-list c prefix b text ∙ handle_list_lem c prefix b size refl) refl refl refl
        refl parsed
