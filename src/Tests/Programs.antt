-- ===== src/Tests/Programs.antt =====
-- The programs of approach A, the tampering relay and a session, at concrete inputs.
use cmpe272_finaltest_assesm.Prelude.{
  ◌++◌, List, ◌≡◌, refl, [], ◌∷◌, none, some, true, false, arith,
}
use cmpe272_finaltest_assesm.Result.{ok, err, os_error, value_error}
use cmpe272_finaltest_assesm.Bytes.{Bytes}
use cmpe272_finaltest_assesm.Text.{codes}
use cmpe272_finaltest_assesm.Broker.Key.{span, has_dotdot, key_re_match, safe_path}
use cmpe272_finaltest_assesm.Text.{split1}
use cmpe272_finaltest_assesm.Broker.Storage.{Storage, store_blob}
use cmpe272_finaltest_assesm.Broker.Command.{Broker, disconnected, serve_client}
use cmpe272_finaltest_assesm.Socket.Frame.{frame}
use cmpe272_finaltest_assesm.Session.Requests.{
  Request, put, requests, stores, refuses, AnswersAll, done, next,
}
use cmpe272_finaltest_assesm.Session.Sequence.{serve_client-AnswersAll}
use cmpe272_finaltest_assesm.Tls.Main.{accepted, Disk, receiver_main}
use cmpe272_finaltest_assesm.Tls.Main.Exits.{MainFailsClosed, main_fail_closed}
use cmpe272_finaltest_assesm.Proxy.{flip, Pair, flip_at, relay}
use cmpe272_finaltest_assesm.Proxy.Stream.{relay_lem}
use cmpe272_finaltest_assesm.Proxy.Tampered.{delivered}
use cmpe272_finaltest_assesm.Tests.Channel.{toy_hash, idle}
use cmpe272_finaltest_assesm.Tests.Wire.{codec, remote}

abbrev pub one_byte : Disk
one_byte = record { part = some (1 ∷ []); out = none }

main_fail_closed_example :
    MainFailsClosed toy_hash
      (accepted (err os_error))
      one_byte
      (receiver_main toy_hash (accepted (err os_error)) one_byte)
main_fail_closed_example = main_fail_closed toy_hash (accepted (err os_error)) one_byte

-- A relay of five bytes.
abbrev five_bytes : Pair
five_bytes = record {
  src = record idle { pending = 1 ∷ 2 ∷ 3 ∷ 4 ∷ 5 ∷ [] };
  dst = idle;
  is_open = true;
}

relay_lem_example :
    ((relay true flip 3 five_bytes).0 ≡ ok tt)
    × ((relay true flip 3 five_bytes).1.dst.sent ≡ delivered true flip 3 (1 ∷ 2 ∷ 3 ∷ 4 ∷ 5 ∷ []))
    × ((relay true flip 3 five_bytes).1.is_open ≡ false)
relay_lem_example = relay_lem true flip 3 five_bytes refl

flipped : delivered true flip 3 (1 ∷ 2 ∷ 3 ∷ 4 ∷ 5 ∷ []) ≡ 1 ∷ 2 ∷ 3 ∷ 251 ∷ 5 ∷ []
unfolding flip_at
flipped = refl

-- A session of a PUT, and of a PUT of a key without a slash.
abbrev two_puts : List Request
two_puts = put (codes "00ff/manifest") (4 ∷ []) ∷ put (codes "k") (5 ∷ []) ∷ []

abbrev refusal : Bytes
refusal = codes "ERR illegal blob key: k"

abbrev stored : Storage
stored = (store_blob (codes "00ff") (codes "manifest") (4 ∷ []) remote).1

two_answers : AnswersAll codec remote two_puts (frame (codes "OK") ++ (frame refusal ++ [])) stored
unfolding safe_path key_re_match span has_dotdot split1
two_answers =
    next (refl, omega arith) (stores (codes "00ff") (codes "manifest") refl refl (omega arith))
      (next (refl, omega arith) (refuses value_error refl (omega arith) (omega arith)) done)

abbrev busy : Broker
busy = record {
  storage = remote;
  put_count = 0;
  fail_after_puts = 0;
  conn = record idle { pending = requests codec two_puts };
}

serve_client-AnswersAll_example :
    ((serve_client codec 3 busy).0 ≡ disconnected)
    × ((serve_client codec 3 busy).1.storage ≡ stored)
    × ((serve_client codec 3 busy).1.conn.sent
        ≡ [] ++ (frame (codes "OK") ++ (frame refusal ++ [])))
serve_client-AnswersAll_example =
    serve_client-AnswersAll codec 3 busy (omega arith) two_answers refl refl refl refl
