-- ===== src/Client.antt =====
-- approach-b-broker-envelope/broker_client.py: the connection, the retry loop, and the commands.
pub mod Bounded
use cmpe272_finaltest_assesm.Prelude.{
  ℕ, zero, suc, ◌+◌, ◌-◌, ◌*◌, ◌^◌, Bool, true, false, Option, none, some, List, [], ◌∷◌, ◌++◌, leb,
  drop, ◌==◌, ◌=ₜ◌, if◌then◌else◌,
}
use cmpe272_finaltest_assesm.Result.{
  Error, Result, ok, err, connection_error, os_error, io_error, broker_error,
}
use cmpe272_finaltest_assesm.Exec.{Exec, pure, raise, lift, ◌>>=◌, ◌>>◌}
use cmpe272_finaltest_assesm.Bytes.{Bytes, Text}
use cmpe272_finaltest_assesm.Socket.{Socket, send_frame, recv_frame}
use cmpe272_finaltest_assesm.Text.{starts_with, codes, split1}
use cmpe272_finaltest_assesm.Broker.Command.{Codec}
use cmpe272_finaltest_assesm.Sender.Chunks.{Client}

abbrev pub max_attempts : ℕ
max_attempts = 5

-- The client: its connection, if there is one, what the attempts to connect will give, how many were
-- made, and how long it has slept, in quarters of a second.
pub record Link : Type 0 where
  pub sock : Option Socket
  pub dial : ℕ → Result Socket
  pub dialled : ℕ
  pub slept : ℕ

-- `_connect`
unfoldable pub connect : Exec Link Socket
connect w = elim w.sock [
  | some s ↦ (ok s, w)
  | none ↦ elim (w.dial w.dialled) [
    | ok s ↦ (ok s, record w { sock = some s; dialled = w.dialled + 1 })
    | err e ↦ (err e, record w { dialled = w.dialled + 1 })
  ]
]

-- `_drop`
abbrev pub drop_link : Link → Link
drop_link w = record w { sock = none }

-- The exceptions that are tried again: all are `OSError`s.
abbrev pub is_retried : Error → Bool
is_retried connection_error = true
is_retried os_error = true
is_retried io_error = true
is_retried _ = false

-- `time.sleep(BASE_BACKOFF_S * 2 ** attempt)`, unless this was the last attempt
abbrev pub back_off : ℕ → ℕ → Link → Link
back_off zero attempt w = w
back_off (suc left) attempt w = record w { slept = w.slept + 2 ^ attempt }

module _ {A : Type 0} (exchange : Exec Socket A) where
  -- `send_fn` and `parse_fn` on the connection.
  abbrev pub on_sock : Socket → Exec Link A
  on_sock s w = let (r, s') = exchange s in (r, record w { sock = some s' })

  unfoldable pub attempt_once : Exec Link A
  attempt_once = do s ← connect; on_sock s

  -- The loop of `_run`, with `left` attempts left.
  unfoldable pub run_loop : ℕ → ℕ → Exec Link A
  run_loop zero attempt w = (err broker_error, w)
  run_loop (suc left) attempt w =
      let (r, w') = attempt_once w in
      elim r [
        | ok a ↦ (ok a, w')
        | err e ↦
            let again = run_loop left (attempt + 1) (back_off left attempt (drop_link w')) in
            if is_retried e then again else (err e, w')
      ]

  unfoldable pub run : Exec Link A
  run = run_loop max_attempts 0

abbrev pub cons_line : Text → List Text → List Text
cons_line [] ls = ls
cons_line (x ∷ xs) ls = (x ∷ xs) ∷ ls

-- `[k for k in body.split("\n") if k]`, with the line so far
unfoldable pub lines_from : Text → Text → List Text
lines_from line [] = cons_line line []
lines_from line (x ∷ xs) =
    let more = lines_from (line ++ x ∷ []) xs in
    let next = lines_from [] xs in if x == b'\n' then cons_line line next else more

abbrev pub lines : Text → List Text
lines body = lines_from [] body

module _ (c : Codec) where
  abbrev pub command : Text → Text → Bytes
  command op arg = c.encode (op ++ arg)

  abbrev pub expect_ok : Bytes → Exec Socket Unit
  expect_ok reply = if reply =ₜ codes "OK" then pure tt else raise broker_error

  -- `send` and `parse` of `put`
  unfoldable pub put_request : Text → Bytes → Exec Socket Unit
  put_request key bs = do send_frame (command (codes "PUT ") key); send_frame bs

  unfoldable pub parse_put : Exec Socket Unit
  parse_put = do reply ← recv_frame; expect_ok reply

  unfoldable pub put : Text → Bytes → Exec Link Unit
  put key bs = run (put_request key bs >> parse_put)

  abbrev pub get_body : Bytes → Exec Socket (Option Bytes)
  get_body status =
      if status =ₜ codes "MISSING"
      then pure none
      else (do expect_ok status; bs ← recv_frame; pure (some bs))

  unfoldable pub get_request : Text → Exec Socket Unit
  get_request key = send_frame (command (codes "GET ") key)

  unfoldable pub parse_get : Exec Socket (Option Bytes)
  parse_get = do status ← recv_frame; get_body status

  unfoldable pub get : Text → Exec Link (Option Bytes)
  get key = run (get_request key >> parse_get)

  abbrev pub get_lines : Bytes → Exec Socket (List Text)
  get_lines status =
      if status =ₜ codes "OK"
      then (do body ← recv_frame; pure (lines (c.decode body)))
      else raise broker_error

  unfoldable pub list_request : Text → Exec Socket Unit
  list_request prefix = send_frame (command (codes "LIST ") prefix)

  unfoldable pub parse_list : Exec Socket (List Text)
  parse_list = do status ← recv_frame; get_lines status

  unfoldable pub list : Text → Exec Link (List Text)
  list prefix = run (list_request prefix >> parse_list)

  -- What the sender uses of it.
  abbrev pub link_client : Client Link
  link_client = record { put = put; list = list }

  -- `stat`, with Python's `int` of a string
  module _ (to_int : Text → Result ℕ) where
    abbrev pub stat_size : Text → Exec Socket (Option ℕ)
    stat_size digits = do n ← lift (to_int digits); pure (some n)

    abbrev pub stat_body : Text → Exec Socket (Option ℕ)
    stat_body reply =
        if reply =ₜ codes "MISSING"
        then pure none
        else if starts_with reply (codes "OK ")
        then stat_size (drop 3 reply)
        else raise broker_error

    unfoldable pub parse_stat : Exec Socket (Option ℕ)
    parse_stat = do reply ← recv_frame; stat_body (c.decode reply)

  unfoldable pub stat_request : Text → Exec Socket Unit
  stat_request key = send_frame (command (codes "STAT ") key)

  unfoldable pub stat : (Text → Result ℕ) → Text → Exec Link (Option ℕ)
  stat to_int key = run (stat_request key >> parse_stat to_int)
