-- ===== src/Broker/Replies.antt =====
-- What a client sees of PUT and GET.
use cmpe272_finaltest_assesm.Prelude.{
  ◌+◌, ◌<◌, ◌≡◌, refl, ap, ◌∙◌, Bool, true, false, Option, none, some, ◌++◌, append_assoc, arith,
  ◌=ₜ◌, length, inl, inr, if◌then◌else◌,
}
use cmpe272_finaltest_assesm.Result.{Error, ok, err}
use cmpe272_finaltest_assesm.Exec.{outcome-cases}
use cmpe272_finaltest_assesm.Bytes.{Bytes, Text, u64_mod}
use cmpe272_finaltest_assesm.Socket.{Socket, recv_frame}
use cmpe272_finaltest_assesm.Socket.Frame.{frame, send_frame-ok, recv_frame-ok}
use cmpe272_finaltest_assesm.Text.{codes}
use cmpe272_finaltest_assesm.Broker.Key.{safe_path}
use cmpe272_finaltest_assesm.Broker.Storage.{Storage, store_blob}
use cmpe272_finaltest_assesm.Broker.Command.{
  Codec, Broker, reply, count_put, put_blob, handle_put, get_reply, handle_get,
}
use cmpe272_finaltest_assesm.Broker.Blobs.{blob, store_blob-Stores}

-- The reply to a GET, by what is stored.
abbrev pub get_frames : Option Bytes → Bytes
get_frames none = frame (codes "MISSING")
get_frames (some bs) = frame (codes "OK") ++ frame bs

abbrev pub Fits : Option Bytes → Type 0
Fits none = Unit
Fits (some bs) = length bs < u64_mod

Fits-if :
    (a b : Bool) (bs : Bytes) (o : Option Bytes)
    → length bs < u64_mod
    → Fits o
    → Fits (if a then some bs else if b then none else o)
Fits-if true b bs o h h' = h
Fits-if false true bs o h h' = tt
Fits-if false false bs o h h' = h'

pub reply_lem :
    (bs : Bytes) (b : Broker)
    → length bs < u64_mod
    → b.conn.room ≡ none
    → reply bs b ≡ (ok tt, record b { conn = record b.conn { sent = b.conn.sent ++ frame bs } })
reply_lem bs b h e = ground (arith, send_frame-ok bs b.conn h e)

get_reply_lem :
    (o : Option Bytes) (b : Broker)
    → Fits o
    → b.conn.room ≡ none
    → get_reply o b
      ≡ (ok tt, record b { conn = record b.conn { sent = b.conn.sent ++ get_frames o } })
unfolding get_reply
get_reply_lem none b h e = reply_lem (codes "MISSING") b (omega arith) e
get_reply_lem (some bs) b h e =
    let c1 : Socket = record b.conn { sent = b.conn.sent ++ frame (codes "OK") } in
    ground (
      arith,
      send_frame-ok (codes "OK") b.conn (omega arith) e,
      send_frame-ok bs c1 h e,
      append_assoc b.conn.sent (frame (codes "OK")) (frame bs),
    )

-- A GET replies with the blob of the key, or that it is missing, and changes nothing.
pub handle_get_lem :
    (key : Text) (b : Broker)
    → Fits (blob key b.storage)
    → b.conn.room ≡ none
    → handle_get key b ≡ (
      ok tt,
      record b { conn = record b.conn { sent = b.conn.sent ++ get_frames (blob key b.storage) } },
    )
unfolding handle_get
handle_get_lem key b h e = get_reply_lem (blob key b.storage) b h e

module _ (c : Codec) (key ns name : Text) (legal : safe_path key ≡ ok (ns, name)) where
  put_blob_lem :
      (bs : Bytes) (b : Broker) (fs : Storage)
      → b.conn.room ≡ none
      → b.fail_after_puts ≡ 0
      → store_blob ns name bs b.storage ≡ (ok tt, fs)
      → put_blob c key bs (ok (ns, name)) b ≡ (
        ok tt,
        record b {
          storage = fs;
          put_count = b.put_count + 1;
          conn = record b.conn { sent = b.conn.sent ++ frame (codes "OK") };
        },
      )
  unfolding put_blob count_put
  put_blob_lem bs b fs e f stored =
      ground (arith, stored, send_frame-ok (codes "OK") b.conn (omega arith) e)

  -- A PUT of a legal key whose payload comes through replies OK and stores the payload.
  pub handle_put_lem :
      (bs rest : Bytes) (b : Broker)
      → (name =ₜ codes ".") ≡ false
      → length bs < u64_mod
      → b.conn.room ≡ none
      → b.fail_after_puts ≡ 0
      → b.conn.pending ≡ frame bs ++ rest
      → let fs = (store_blob ns name bs b.storage).1 in
        handle_put c key b ≡ (
          ok tt,
          record b {
            storage = fs;
            put_count = b.put_count + 1;
            conn = record b.conn { pending = rest; sent = b.conn.sent ++ frame (codes "OK") };
          },
        )
  unfolding handle_put
  handle_put_lem bs rest b h size e f p =
      let fs = (store_blob ns name bs b.storage).1 in
      let stored = (store_blob-Stores key ns name legal bs b.storage h).0 in
      let b1 : Broker = record b { conn = record b.conn { pending = rest } } in
      ground (
        arith,
        recv_frame-ok bs rest b.conn size p,
        legal,
        put_blob_lem bs b1 fs e f (ap (λ r. (r, fs)) stored),
      )

  -- A PUT of a legal key whose payload comes through replies OK and takes just its payload from the
  -- connection. After it, a GET of any key replies with what the PUT stored if the key is the same, MISSING
  -- if it is the same with `.tmp` behind it, and what it would have replied before otherwise.
  pub get-put :
      (bs rest : Bytes) (b : Broker) (other : Text)
      → (name =ₜ codes ".") ≡ false
      → length bs < u64_mod
      → b.conn.room ≡ none
      → b.fail_after_puts ≡ 0
      → b.conn.pending ≡ frame bs ++ rest
      → Fits (blob other b.storage)
      → let b' = (handle_put c key b).1 in
        let expected =
          if key =ₜ other
          then some bs
          else if (key ++ codes ".tmp") =ₜ other
          then none
          else blob other b.storage in
        ((handle_put c key b).0 ≡ ok tt)
        × (b'.conn.sent ≡ b.conn.sent ++ frame (codes "OK"))
        × (b'.conn.pending ≡ rest)
        × (handle_get other b' ≡ (
          ok tt,
          record b' { conn = record b'.conn { sent = b'.conn.sent ++ get_frames expected } },
        ))
  get-put bs rest b other h size e f p small =
      let fs = (store_blob ns name bs b.storage).1 in
      let put = handle_put_lem bs rest b h size e f p in
      let at = (store_blob-Stores key ns name legal bs b.storage h).1 other in
      let b' : Broker = record b {
        storage = fs;
        put_count = b.put_count + 1;
        conn = record b.conn { pending = rest; sent = b.conn.sent ++ frame (codes "OK") };
      } in
      rw put (
        refl,
        refl,
        refl,
        handle_get_lem other b'
              (rw at (Fits-if (key =ₜ other) ((key ++ codes ".tmp") =ₜ other) bs _ size small)) e
            ∙ rw at,
      )

-- A PUT of an illegal key stores nothing and counts nothing, whatever comes on the connection.
put_illegal :
    (c : Codec) (key : Text) (e : Error) (b : Broker)
    → safe_path key ≡ err e
    → ((handle_put c key b).1.storage ≡ b.storage)
      × ((handle_put c key b).1.put_count ≡ b.put_count)
unfolding handle_put put_blob
put_illegal c key e b bad = elim (outcome-cases (recv_frame b.conn)) [
  | inl (bs, s1, got) ↦ ground (arith, got, bad)
  | inr (e', s1, got) ↦ ground (arith, got)
]
