-- ===== src/Session/Sequence.antt =====
-- A session of any number of commands ends with the replies and the storage of the step relation.
use cmpe272_finaltest_assesm.Prelude.{
  ℕ, zero, suc, ◌<◌, ◌≡◌, refl, ap, sym, ◌∙◌, none, List, [], ◌++◌, append-nil, append_assoc, arith,
  length,
}
use cmpe272_finaltest_assesm.Result.{Error, ok, err, connection_error}
use cmpe272_finaltest_assesm.Bytes.{Bytes, Text, u64_mod}
use cmpe272_finaltest_assesm.Text.{codes}
use cmpe272_finaltest_assesm.Socket.{Socket, closed}
use cmpe272_finaltest_assesm.Socket.Frame.{frame, recv_frame-ok}
use cmpe272_finaltest_assesm.Broker.Key.{safe_path}
use cmpe272_finaltest_assesm.Broker.Storage.{Storage, store_blob, list_keys}
use cmpe272_finaltest_assesm.Broker.Command.{
  Codec, Broker, disconnected, join_lines, err_line, put_blob, handle_put, handle_stat,
  handle_command, serve_client,
}
use cmpe272_finaltest_assesm.Broker.Blobs.{blob}
use cmpe272_finaltest_assesm.Broker.Replies.{get_frames, reply_lem, handle_get_lem, handle_put_lem}
use cmpe272_finaltest_assesm.Broker.Termination.{serve_client-cut, serve_client-goes}
use cmpe272_finaltest_assesm.Session.Served.{
  recv_frame-end, handle_command-put, handle_command-get, handle_command-list,
}
use cmpe272_finaltest_assesm.Session.Commands.{handle_list_lem}
use cmpe272_finaltest_assesm.Session.Stat.{stat_line, stat_reply_lem, handle_command-stat}
use cmpe272_finaltest_assesm.Session.Requests.{
  Request, line_of, text_of, payload_of, requests, Answers, stores, refuses, gives, measures, lists,
  AnswersAll, done, next,
}

module _ (c : Codec) where
  -- A broker between two commands, on a connection that holds.
  record At (fs : Storage) (bs said : Bytes) (b : Broker) : Type 0 where
    storage_is : b.storage ≡ fs
    pending_is : b.conn.pending ≡ bs
    said_is : b.conn.sent ≡ said
    holds : b.conn.room ≡ none
    closes : b.conn.ending ≡ closed
    endless : b.fail_after_puts ≡ 0

  abbrev After : Request → Storage → Bytes → Bytes → Broker → Type 0
  After r fs bs said b =
      (b2 : Broker) × (handle_command c (line_of c r) b ≡ (ok tt, b2)) × At fs bs said b2

  put_refused :
      (key : Text) (bs rest : Bytes) (e : Error) (b : Broker)
      → safe_path key ≡ err e
      → length bs < u64_mod
      → length (err_line c (codes "illegal blob key: " ++ c.repr key)) < u64_mod
      → b.conn.room ≡ none
      → b.conn.pending ≡ frame bs ++ rest
      → handle_put c key b ≡ (
        ok tt,
        record b {
          conn = record b.conn {
            pending = rest;
            sent = b.conn.sent ++ frame (err_line c (codes "illegal blob key: " ++ c.repr key));
          };
        },
      )
  unfolding handle_put put_blob
  put_refused key bs rest e b bad size small room p =
      let b1 : Broker = record b { conn = record b.conn { pending = rest } } in
      ground (
        arith,
        recv_frame-ok bs rest b.conn size p,
        bad,
        reply_lem (err_line c (codes "illegal blob key: " ++ c.repr key)) b1 small room,
      )

  command_step :
      {fs fs1 : Storage} {r : Request} {reply : Bytes} (rest said : Bytes) (b : Broker)
      → c.decode (line_of c r) ≡ text_of c r
      → Answers c fs r reply fs1
      → At fs (payload_of c r ++ rest) said b
      → After r fs1 rest (said ++ reply) b
  unfolding handle_stat
  command_step rest said b text (stores {fs} {key} {bs} ns name legal file size) a = (
    _,
    handle_command-put c key b text
        ∙ handle_put_lem c key ns name legal bs rest b file size a.holds a.endless a.pending_is,
    record {
      storage_is = ap (λ x. (store_blob ns name bs x).1) a.storage_is;
      pending_is = refl;
      said_is = ap (λ q. q ++ frame (codes "OK")) a.said_is;
      holds = a.holds;
      closes = a.closes;
      endless = a.endless;
    },
  )
  command_step rest said b text (refuses {fs} {key} {bs} e bad size small) a = (
    _,
    handle_command-put c key b text
        ∙ put_refused key bs rest e b bad size small a.holds a.pending_is,
    record {
      storage_is = a.storage_is;
      pending_is = refl;
      said_is =
          ap (λ q. q ++ frame (err_line c (codes "illegal blob key: " ++ c.repr key))) a.said_is;
      holds = a.holds;
      closes = a.closes;
      endless = a.endless;
    },
  )
  command_step rest said b text (gives {fs} {key} fits) a = (
    _,
    handle_command-get c key b text ∙ handle_get_lem key b (rw a.storage_is fits) a.holds,
    record {
      storage_is = a.storage_is;
      pending_is = a.pending_is;
      said_is =
          ap (λ q. q ++ get_frames (blob key b.storage)) a.said_is
          ∙ ap (λ x. said ++ get_frames (blob key x)) a.storage_is;
      holds = a.holds;
      closes = a.closes;
      endless = a.endless;
    },
  )
  command_step rest said b text (measures {fs} {key} small) a = (
    _,
    handle_command-stat c key b text
        ∙ stat_reply_lem c key (blob key b.storage) b (rw a.storage_is small) a.holds,
    record {
      storage_is = a.storage_is;
      pending_is = a.pending_is;
      said_is =
          ap (λ q. q ++ frame (stat_line c (blob key b.storage))) a.said_is
          ∙ ap (λ x. said ++ frame (stat_line c (blob key x))) a.storage_is;
      holds = a.holds;
      closes = a.closes;
      endless = a.endless;
    },
  )
  command_step rest said b text (lists {fs} {prefix} small) a =
      let replied : Storage → Bytes =
        λ x. frame (codes "OK") ++ frame (c.encode (join_lines (list_keys prefix x))) in
      (
        _,
        handle_command-list c prefix b text
            ∙ handle_list_lem c prefix b (rw a.storage_is small) a.holds,
        record {
          storage_is = a.storage_is;
          pending_is = a.pending_is;
          said_is =
              ap (λ q. q ++ replied b.storage) a.said_is ∙ ap (λ x. said ++ replied x) a.storage_is;
          holds = a.holds;
          closes = a.closes;
          endless = a.endless;
        },
      )

  session :
      {fs fs' : Storage} {rs : List Request} {replies : Bytes} (fuel : ℕ) (said : Bytes)
      (b : Broker)
      → length rs < fuel
      → AnswersAll c fs rs replies fs'
      → At fs (requests c rs) said b
      → ((serve_client c fuel b).0 ≡ disconnected)
        × ((serve_client c fuel b).1.storage ≡ fs')
        × ((serve_client c fuel b).1.conn.sent ≡ said ++ replies)
  session zero said b h all a = elim h [ ]
  session (suc fuel) said b h done a =
      let ran =
        serve_client-cut c fuel b (record b.conn { pending = [] }) connection_error
          (recv_frame-end b.conn a.pending_is a.closes) in
      (
        ap (λ o. o.0) ran,
        ap (λ o. o.1.storage) ran ∙ a.storage_is,
        ap (λ o. o.1.conn.sent) ran ∙ a.said_is ∙ sym (append-nil said),
      )
  session (suc fuel) said b h (next {r} {rs} {reply} {replies} (text, small) one all) a =
      let rest = payload_of c r ++ requests c rs in
      let s1 : Socket = record b.conn { pending = rest } in
      let b1 : Broker = record b { conn = s1 } in
      let at1 : At _ rest said b1 = record {
        storage_is = a.storage_is;
        pending_is = refl;
        said_is = a.said_is;
        holds = a.holds;
        closes = a.closes;
        endless = a.endless;
      } in
      let (b2, ran, at2) = command_step (requests c rs) said b1 text one at1 in
      let goes =
        serve_client-goes c fuel b b2 s1 (line_of c r) tt
          (recv_frame-ok (line_of c r) rest b.conn small a.pending_is) ran in
      let (ends, stored, sent) = session fuel (said ++ reply) b2 (omega arith) all at2 in
      (
        ap (λ o. o.0) goes ∙ ends,
        ap (λ o. o.1.storage) goes ∙ stored,
        ap (λ o. o.1.conn.sent) goes ∙ sent ∙ append_assoc said reply replies,
      )

  -- On a connection that holds, and with one round more than there are requests: a session of any
  -- sequence of requests, each of which the relation answers in turn, ends when the client is gone, with
  -- the storage that the relation ends with and exactly the replies of the relation, in order.
  pub serve_client-AnswersAll :
      {fs' : Storage} {rs : List Request} {replies : Bytes} (fuel : ℕ) (b : Broker)
      → length rs < fuel
      → AnswersAll c b.storage rs replies fs'
      → b.conn.pending ≡ requests c rs
      → b.conn.room ≡ none
      → b.conn.ending ≡ closed
      → b.fail_after_puts ≡ 0
      → ((serve_client c fuel b).0 ≡ disconnected)
        × ((serve_client c fuel b).1.storage ≡ fs')
        × ((serve_client c fuel b).1.conn.sent ≡ b.conn.sent ++ replies)
  serve_client-AnswersAll fuel b h all p room ending endless =
      session fuel b.conn.sent b h all (record {
        storage_is = refl;
        pending_is = p;
        said_is = refl;
        holds = room;
        closes = ending;
        endless = endless;
      })
