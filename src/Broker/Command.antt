-- ===== src/Broker/Command.antt =====
-- `_handle_command` and `_serve_client` of approach-b-broker-envelope/broker.py.
use cmpe272_finaltest_assesm.Prelude.{
  ℕ, zero, suc, ◌+◌, not, ◌&&◌, Option, none, some, List, [], ◌∷◌, ◌++◌, leb, ◌==◌, ◌=ₜ◌, length,
  if◌then◌else◌,
}
use cmpe272_finaltest_assesm.Result.{Error, Result, ok, err, connection_error, exited, diverged}
use cmpe272_finaltest_assesm.Exec.{Exec, gets, ◌>>=◌, ◌>>◌}
use cmpe272_finaltest_assesm.Bytes.{Bytes, Text}
use cmpe272_finaltest_assesm.Socket.{Socket, recv_frame, send_frame}
use cmpe272_finaltest_assesm.Text.{codes, str, split1}
use cmpe272_finaltest_assesm.Broker.Key.{safe_path}
use cmpe272_finaltest_assesm.Broker.Storage.{Storage, read_file, store_blob, list_keys}

-- Python's conversions between bytes and strings: UTF-8, and `repr`.
pub record Codec : Type 0 where
  -- `bs.decode("utf-8", "replace")`
  pub decode : Bytes → Text
  -- `s.encode()`
  pub encode : Text → Bytes
  pub repr : Text → Text

pub record Broker : Type 0 where
  pub storage : Storage
  pub put_count : ℕ
  pub fail_after_puts : ℕ
  pub conn : Socket

abbrev pub on_conn : {A : Type 0} → Exec Socket A → Exec Broker A
on_conn m b = let (r, conn') = m b.conn in (r, record b { conn = conn' })

abbrev pub on_storage : {A : Type 0} → Exec Storage A → Exec Broker A
on_storage m b = let (r, fs) = m b.storage in (r, record b { storage = fs })

-- The count of the PUTs, and the exit after the last of them that is allowed.
unfoldable pub count_put : Exec Broker Unit
count_put b =
    let b' = record b { put_count = b.put_count + 1 } in
    if not (b.fail_after_puts == 0) && leb b.fail_after_puts b'.put_count
    then (err exited, b')
    else (ok tt, b')

-- `"\n".join(keys)`
abbrev pub join_lines : List Text → Text
join_lines [] = []
join_lines (k ∷ []) = k
join_lines (k ∷ j ∷ l) = k ++ b'\n' ∷ join_lines (j ∷ l)

abbrev pub reply : Bytes → Exec Broker Unit
reply bs = on_conn (send_frame bs)

-- The file that a key names, if the key is legal and the file is there.
unfoldable pub find_blob : Result (Text × Text) → Storage → Option Bytes
find_blob (err e) fs = none
find_blob (ok (namespace, name)) fs = read_file namespace name fs

unfoldable pub get_reply : Option Bytes → Exec Broker Unit
get_reply none = reply (codes "MISSING")
get_reply (some bs) = do reply (codes "OK"); reply bs

unfoldable pub handle_get : Text → Exec Broker Unit
handle_get key = do found ← gets (λ b. find_blob (safe_path key) b.storage); get_reply found

-- How a session ends: on a `ConnectionError` between two commands it just ends, and any exception
-- inside a command is printed; the process itself exits only by `os._exit`. A loop of the model that
-- is out of fuel, of the session or of a read, shows as `out_of_fuel`.
pub data SessionEnd : Type 0 where
  disconnected failed process_exit out_of_fuel : SessionEnd

abbrev pub ended_by : Error → SessionEnd
ended_by exited = process_exit
ended_by diverged = out_of_fuel
ended_by _ = failed

abbrev pub ended_between : Error → SessionEnd
ended_between connection_error = disconnected
ended_between diverged = out_of_fuel
ended_between _ = failed

module _ (c : Codec) where
  abbrev pub err_line : Text → Bytes
  err_line message = c.encode (codes "ERR " ++ message)

  unfoldable pub put_blob : Text → Bytes → Result (Text × Text) → Exec Broker Unit
  put_blob key bs (err e) = reply (err_line (codes "illegal blob key: " ++ c.repr key))
  put_blob key bs (ok (namespace, name)) = do
    on_storage (store_blob namespace name bs)
    count_put
    reply (codes "OK")

  unfoldable pub handle_put : Text → Exec Broker Unit
  handle_put key = do bs ← on_conn recv_frame; put_blob key bs (safe_path key)

  unfoldable pub stat_reply : Option Bytes → Exec Broker Unit
  stat_reply none = reply (codes "MISSING")
  stat_reply (some bs) = reply (c.encode (codes "OK " ++ str (length bs)))

  unfoldable pub handle_stat : Text → Exec Broker Unit
  handle_stat key = do found ← gets (λ b. find_blob (safe_path key) b.storage); stat_reply found

  unfoldable pub handle_list : Text → Exec Broker Unit
  handle_list prefix = do
    names ← gets (λ b. list_keys prefix b.storage)
    reply (codes "OK")
    reply (c.encode (join_lines names))

  abbrev pub arg_or_empty : Option Text → Text
  arg_or_empty none = []
  arg_or_empty (some arg) = arg

  unfoldable pub dispatch : Text → Text → Exec Broker Unit
  dispatch op arg =
      if op =ₜ codes "PUT"
      then handle_put arg
      else if op =ₜ codes "GET"
      then handle_get arg
      else if op =ₜ codes "STAT"
      then handle_stat arg
      else if op =ₜ codes "LIST"
      then handle_list arg
      else reply (err_line (codes "unknown op " ++ c.repr op))

  unfoldable pub handle_command : Bytes → Exec Broker Unit
  handle_command line =
      let (op, arg) = split1 b' ' (c.decode line) in dispatch op (arg_or_empty arg)

  unfoldable pub serve_client : ℕ → Broker → SessionEnd × Broker
  serve_client zero b = (out_of_fuel, b)
  serve_client (suc fuel) b =
      let (r, b1) = on_conn recv_frame b in
      elim r [
        | err e ↦ (ended_between e, b1)
        | ok line ↦
            let (r', b2) = handle_command line b1 in
            elim r' [ err e ↦ (ended_by e, b2) | ok u ↦ serve_client fuel b2 ]
      ]
