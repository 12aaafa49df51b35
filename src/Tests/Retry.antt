-- ===== src/Tests/Retry.antt =====
-- The client at concrete inputs: one attempt to connect that fails, and one that works.
use cmpe272_finaltest_assesm.Prelude.{ℕ, zero, suc, ◌≡◌, refl, [], ◌∷◌, none}
use cmpe272_finaltest_assesm.Result.{Result, ok, err, os_error}
use cmpe272_finaltest_assesm.Bytes.{be, from_be, unpack_q}
use cmpe272_finaltest_assesm.Socket.{Socket, closed, recv, recv_exact, recv_frame}
use cmpe272_finaltest_assesm.Socket.Frame.{frame}
use cmpe272_finaltest_assesm.Text.{codes}
use cmpe272_finaltest_assesm.Client.{
  Link, max_attempts, connect, attempt_once, run_loop, run, lines_from, lines,
}
use cmpe272_finaltest_assesm.Client.Bounded.{IsBounded, run-IsBounded}

abbrev answering : Socket
answering = record {
  pending = frame (codes "OK");
  grant = λ n p. 3;
  ending = closed;
  sent = [];
  room = none;
}

abbrev dial : ℕ → Result Socket
dial zero = err os_error
dial (suc n) = ok answering

abbrev link : Link
link = record { sock = none; dial = dial; dialled = 0; slept = 0 }

run-IsBounded_example : IsBounded link max_attempts 15 (run recv_frame link)
run-IsBounded_example = run-IsBounded recv_frame link

second_attempt : (run recv_frame link).0 ≡ ok (codes "OK")
unfolding run run_loop attempt_once connect recv_frame recv_exact recv unpack_q from_be be
second_attempt = refl

three_lines : lines (codes "a\n\nb\n") ≡ codes "a" ∷ codes "b" ∷ []
unfolding lines_from
three_lines = refl
