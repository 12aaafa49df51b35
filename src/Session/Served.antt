-- ===== src/Session/Served.antt =====
-- A command and its reply over the wire: what the client gets is what the storage says.
use cmpe272_finaltest_assesm.Prelude.{
  ℕ, zero, suc, ◌<◌, ◌≡◌, refl, ap, ◌∙◌, [], ◌++◌, arith, length, length-append, none,
}
use cmpe272_finaltest_assesm.Result.{ok, err, connection_error}
use cmpe272_finaltest_assesm.Exec.{Exec, ◌>>◌}
use cmpe272_finaltest_assesm.Bytes.{Bytes, Text, u64_mod}
use cmpe272_finaltest_assesm.Text.{codes, split1}
use cmpe272_finaltest_assesm.Socket.{Socket, closed, recv_frame}
use cmpe272_finaltest_assesm.Socket.Exact.{cut}
use cmpe272_finaltest_assesm.Socket.Frame.{frame, recv_frame-ok, recv_frame-cut, length-frame}
use cmpe272_finaltest_assesm.Broker.Storage.{Storage}
use cmpe272_finaltest_assesm.Broker.Command.{
  Codec, Broker, disconnected, dispatch, handle_put, handle_get, handle_list, handle_command,
  serve_client,
}
use cmpe272_finaltest_assesm.Client.{connect, attempt_once, run_loop, run, command}
use cmpe272_finaltest_assesm.Session.{peer, broker_at, unconnected, call}

-- Nothing more comes: the read raises, as at the end of every session.
pub recv_frame-end :
    (s : Socket)
    → s.pending ≡ []
    → s.ending ≡ closed
    → recv_frame s ≡ (err connection_error, record s { pending = [] })
recv_frame-end s none_left e =
    recv_frame-cut [] [] s (omega arith) 0 (omega arith) none_left
    ∙ ap (λ x. (cut x, record s { pending = [] })) e

module _ (c : Codec) (line rest : Bytes) (b b2 : Broker) where
  -- A session of one command.
  serve_client-one :
      (fuel : ℕ)
      → 0 < fuel
      → length line < u64_mod
      → b.conn.pending ≡ frame line ++ rest
      → handle_command c line (record b { conn = record b.conn { pending = rest } }) ≡ (ok tt, b2)
      → b2.conn.pending ≡ []
      → b2.conn.ending ≡ closed
      → serve_client c (suc fuel) b
        ≡ (disconnected, record b2 { conn = record b2.conn { pending = [] } })
  unfolding serve_client
  serve_client-one zero pos small p ran left ended = elim pos [ ]
  serve_client-one (suc fuel) pos small p ran left ended =
      ground (arith, recv_frame-ok line rest b.conn small p, ran, recv_frame-end b2.conn left ended)

module _ {A : Type 0} (request : Exec Socket Unit) (parse : Exec Socket A)
    (grant : ℕ → Bytes → ℕ) where
  -- The first attempt succeeds.
  run-first :
      (replies : Bytes) (s s' : Socket) (a : A)
      → request (peer grant replies) ≡ (ok tt, s)
      → parse s ≡ (ok a, s')
      → (run (request >> parse) (unconnected grant replies)).0 ≡ ok a
  unfolding run run_loop attempt_once connect
  run-first replies s s' a sent parsed = ground (arith, sent, parsed)

module _ (c : Codec) (grant grant' : ℕ → Bytes → ℕ) {A : Type 0} (request : Exec Socket Unit)
    (parse : Exec Socket A) where
  -- A call, from what each side makes of the bytes of the other.
  pub call-steps :
      (line rest replies : Bytes) (fs fs' : Storage) (b2 : Broker) (s' : Socket) (a : A)
      → length line < u64_mod
      → ((s : Socket)
          → s.room ≡ none
          → s.sent ≡ []
          → request s ≡ (ok tt, record s { sent = frame line ++ rest }))
      → handle_command c line
          (record (broker_at grant' fs (frame line ++ rest)) { conn = peer grant' rest })
        ≡ (ok tt, b2)
      → b2.conn.pending ≡ []
      → b2.conn.ending ≡ closed
      → b2.conn.sent ≡ replies
      → b2.storage ≡ fs'
      → parse (record (peer grant replies) { sent = frame line ++ rest }) ≡ (ok a, s')
      → call c grant grant' request parse fs ≡ (ok a, fs')
  unfolding call
  call-steps line rest replies fs fs' b2 s' a small sends ran left ended said stored parsed =
      let asked = sends (peer grant []) refl refl in
      let size = length-frame line in
      let total = length-append (frame line) rest in
      rw
        (
          asked,
          serve_client-one c line rest (broker_at grant' fs (frame line ++ rest)) b2
              (length (frame line ++ rest)) (omega arith) small refl ran left ended,
          said,
          stored,
          run-first request parse grant replies _ s' a (sends (peer grant replies) refl refl)
              parsed,
        )
        refl

module _ (c : Codec) (key : Text) where
  -- The name of an operation, and its argument behind the space.
  pub handle_command-put :
      (b : Broker)
      → c.decode (command c (codes "PUT ") key) ≡ codes "PUT " ++ key
      → handle_command c (command c (codes "PUT ") key) b ≡ handle_put c key b
  unfolding handle_command dispatch split1
  handle_command-put b e = rw e refl

  pub handle_command-get :
      (b : Broker)
      → c.decode (command c (codes "GET ") key) ≡ codes "GET " ++ key
      → handle_command c (command c (codes "GET ") key) b ≡ handle_get key b
  unfolding handle_command dispatch split1
  handle_command-get b e = rw e refl

  pub handle_command-list :
      (b : Broker)
      → c.decode (command c (codes "LIST ") key) ≡ codes "LIST " ++ key
      → handle_command c (command c (codes "LIST ") key) b ≡ handle_list c key b
  unfolding handle_command dispatch split1
  handle_command-list b e = rw e refl
