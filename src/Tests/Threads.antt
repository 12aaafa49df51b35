-- ===== src/Tests/Threads.antt =====
-- The two threads of the tampering proxy, in one order of their steps: the client's three bytes are relayed
-- with the second one flipped, then the client's thread closes both connections.
use cmpe272_finaltest_assesm.Prelude.{
  ℕ, ◌*◌, ◌+◌, ◌≤◌, ◌≡◌, ◌⊎◌, refl, true, false, [], ◌∷◌, ◌++◌, arith, length,
}
use cmpe272_finaltest_assesm.Result.{Result, ok}
use cmpe272_finaltest_assesm.Bytes.{Bytes, Text}
use cmpe272_finaltest_assesm.Text.{codes, str, decimal}
use cmpe272_finaltest_assesm.Text.Decimal.{value}
use cmpe272_finaltest_assesm.Proxy.Main.{timed_out, rsplit1, hostport, main, hostport-join}
use cmpe272_finaltest_assesm.Proxy.{flip, flip_at}
use cmpe272_finaltest_assesm.Proxy.Tampered.{delivered}
use cmpe272_finaltest_assesm.Proxy.Link.{
  finished, Link, receive, hang_up, pass_on, shut_client, shut_upstream, client_moves,
  client_closes, Reach, start, later,
}
use cmpe272_finaltest_assesm.Proxy.Link.Order.{Begins, relayed_in_order}
use cmpe272_finaltest_assesm.Proxy.Link.Bounded.{IsSilent, link_ends}

abbrev stream : Bytes
stream = 1 ∷ 2 ∷ 3 ∷ []

abbrev reply : Bytes
reply = 9 ∷ []

record Run (n : ℕ) : Type 0 where
  last : Link
  reach : Reach true flip 1 stream reply n last

relayed_all : Run 5
relayed_all = record {
  last = _;
  reach =
      later
        (later
          (later
            (later
              (later start
                (client_moves (receive 3 refl (omega arith) (omega arith) (omega arith))))
              (client_moves (pass_on refl refl)))
            (client_moves hang_up))
          (client_closes shut_client))
        (client_closes shut_upstream);
}

relayed_in_order_example :
    Begins (delivered true flip 1 stream) relayed_all.last.upstream.got
    × Begins (delivered false flip 1 reply) relayed_all.last.client.got
relayed_in_order_example = relayed_in_order true flip 1 stream reply relayed_all.reach

link_ends_example :
    (5 ≤ 2 * (length stream + length reply) + 8)
    × ((relayed_all.last.client_thread ≡ finished) ⊎ (relayed_all.last.upstream_thread ≡ finished)
        → IsSilent true flip 1 relayed_all.last)
link_ends_example = link_ends true flip 1 stream reply relayed_all.reach

flipped_second : relayed_all.last.upstream.got ≡ 1 ∷ 253 ∷ 3 ∷ []
unfolding relayed_all flip_at
flipped_second = refl

abbrev to_int : Text → Result ℕ
to_int s = ok (value 0 s)

listen_address : hostport to_int (codes "::1" ++ 58 ∷ str 8500) ≡ ok (codes "::1", 8500)
unfolding decimal value
listen_address = hostport-join to_int (codes "::1") 8500 refl

no_client : main to_int (codes "a:1") (codes "b:2") (ok tt) timed_out (ok tt) ≡ ok 1
unfolding main hostport rsplit1
no_client = refl
