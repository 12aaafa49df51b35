-- ===== src/Session/Requests.antt =====
-- Requests of a client as bytes, and what a broker answers: a relation on the storage, one step for
-- each request.
use cmpe272_finaltest_assesm.Prelude.{◌<◌, ◌≡◌, false, List, [], ◌∷◌, ◌++◌, ◌=ₜ◌, length}
use cmpe272_finaltest_assesm.Result.{Error, ok, err}
use cmpe272_finaltest_assesm.Bytes.{Bytes, Text, u64_mod}
use cmpe272_finaltest_assesm.Text.{codes}
use cmpe272_finaltest_assesm.Socket.Frame.{frame}
use cmpe272_finaltest_assesm.Broker.Key.{safe_path}
use cmpe272_finaltest_assesm.Broker.Storage.{Storage, store_blob, list_keys}
use cmpe272_finaltest_assesm.Broker.Command.{Codec, join_lines, err_line}
use cmpe272_finaltest_assesm.Broker.Blobs.{blob}
use cmpe272_finaltest_assesm.Broker.Replies.{Fits, get_frames}
use cmpe272_finaltest_assesm.Client.{command}
use cmpe272_finaltest_assesm.Session.Stat.{stat_line}

-- A request of the client.
pub data Request : Type 0 where
  put : Text → Bytes → Request
  get stat list : Text → Request

module _ (c : Codec) where
  abbrev pub line_of : Request → Bytes
  line_of (put key bs) = command c (codes "PUT ") key
  line_of (get key) = command c (codes "GET ") key
  line_of (stat key) = command c (codes "STAT ") key
  line_of (list prefix) = command c (codes "LIST ") prefix

  abbrev pub text_of : Request → Text
  text_of (put key bs) = codes "PUT " ++ key
  text_of (get key) = codes "GET " ++ key
  text_of (stat key) = codes "STAT " ++ key
  text_of (list prefix) = codes "LIST " ++ prefix

  -- What follows the line.
  abbrev pub payload_of : Request → Bytes
  payload_of (put key bs) = frame bs
  payload_of (get key) = []
  payload_of (stat key) = []
  payload_of (list prefix) = []

  abbrev pub requests : List Request → Bytes
  requests [] = []
  requests (r ∷ rs) = frame (line_of r) ++ (payload_of r ++ requests rs)

  -- One request: the storage before, the reply, and the storage after.
  pub data Answers : Storage → Request → Bytes → Storage → Type 0 where
    stores :
        {fs : Storage} {key : Text} {bs : Bytes} (ns name : Text)
        → safe_path key ≡ ok (ns, name)
        → (name =ₜ codes ".") ≡ false
        → length bs < u64_mod
        → Answers fs (put key bs) (frame (codes "OK")) (store_blob ns name bs fs).1
    refuses :
        {fs : Storage} {key : Text} {bs : Bytes} (e : Error)
        → safe_path key ≡ err e
        → length bs < u64_mod
        → length (err_line c (codes "illegal blob key: " ++ c.repr key)) < u64_mod
        → Answers fs (put key bs) (frame (err_line c (codes "illegal blob key: " ++ c.repr key))) fs
    gives :
        {fs : Storage} {key : Text}
        → Fits (blob key fs)
        → Answers fs (get key) (get_frames (blob key fs)) fs
    measures :
        {fs : Storage} {key : Text}
        → length (stat_line c (blob key fs)) < u64_mod
        → Answers fs (stat key) (frame (stat_line c (blob key fs))) fs
    lists :
        {fs : Storage} {prefix : Text}
        → length (c.encode (join_lines (list_keys prefix fs))) < u64_mod
        → Answers fs
            (list prefix)
            (frame (codes "OK") ++ frame (c.encode (join_lines (list_keys prefix fs))))
            fs

  -- A line that comes through.
  abbrev pub IsReadable : Request → Type 0
  IsReadable r = (c.decode (line_of r) ≡ text_of r) × (length (line_of r) < u64_mod)

  -- A session, request by request.
  pub data AnswersAll : Storage → List Request → Bytes → Storage → Type 0 where
    done : {fs : Storage} → AnswersAll fs [] [] fs
    next :
        {fs fs1 fs2 : Storage} {r : Request} {rs : List Request} {reply replies : Bytes}
        → IsReadable r
        → Answers fs r reply fs1
        → AnswersAll fs1 rs replies fs2
        → AnswersAll fs (r ∷ rs) (reply ++ replies) fs2
