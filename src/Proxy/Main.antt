-- ===== src/Proxy/Main.antt =====
-- `_hostport` and `main` of scripts/tamper_proxy.py. The operating system's part is a parameter; what the
-- two threads do between the connection and the exit is the model of Proxy/Link.
use cmpe272_finaltest_assesm.Prelude.{
  ℕ, ◌≡◌, refl, arith, Option, none, some, [], ◌∷◌, ◌++◌, ◌==◌, if◌then◌else◌,
}
use cmpe272_finaltest_assesm.Result.{Error, Result, ok, err, value_error, ◌>>=◌, ◌>>◌}
use cmpe272_finaltest_assesm.Bytes.{Text}
use cmpe272_finaltest_assesm.Text.{str}
use cmpe272_finaltest_assesm.Text.Digits.{Digits, nil, cons, str-Digits}

-- `s.rsplit(sep, 1)`, if the separator is there
abbrev behind : ℕ → ℕ → Text → Option (Text × Text) → Option (Text × Text)
behind sep c s (some (front, back)) = some (c ∷ front, back)
behind sep c s none = if c == sep then some ([], s) else none

unfoldable pub rsplit1 : ℕ → Text → Option (Text × Text)
rsplit1 sep [] = none
rsplit1 sep (c ∷ s) = behind sep c s (rsplit1 sep s)

-- What `srv.accept()` gives.
pub data Arrival : Type 0 where
  timed_out : Arrival
  failed : Error → Arrival
  client : Arrival

module _ (to_int : Text → Result ℕ) where
  abbrev with_port : Option (Text × Text) → Result (Text × ℕ)
  with_port none = err value_error
  with_port (some (host, port)) = do n ← to_int port; ok (host, n)

  -- `_hostport`, with `int` as a parameter
  unfoldable pub hostport : Text → Result (Text × ℕ)
  unfolding rsplit1
  hostport s = with_port (rsplit1 58 s)

  abbrev served : Arrival → Result (Unit {0}) → Result ℕ
  served timed_out upstream = ok 1
  served (failed e) upstream = err e
  served client upstream = do upstream; ok 0

  -- `main`: listening, accepting one client, connecting to the target, and then the two threads.
  unfoldable pub main : Text → Text → Result (Unit {0}) → Arrival → Result (Unit {0}) → Result ℕ
  main listen target listening arrival upstream = do
    hostport listen
    hostport target
    listening
    served arrival upstream

  rsplit1-Digits : (s : Text) → Digits s → rsplit1 58 s ≡ none
  unfolding rsplit1
  rsplit1-Digits [] nil = refl
  rsplit1-Digits (c ∷ s) (cons d ds) = ground (arith, rsplit1-Digits s ds)

  rsplit1-join : (host s : Text) → Digits s → rsplit1 58 (host ++ 58 ∷ s) ≡ some (host, s)
  unfolding rsplit1
  rsplit1-join [] s ds = rw (rsplit1-Digits s ds) refl
  rsplit1-join (c ∷ host) s ds = rw (rsplit1-join host s ds) refl

  -- A host, even one with colons in it, and a port that are written with a colon between them are read
  -- back, if `int` reads what `str` printed.
  pub hostport-join :
      (host : Text) (port : ℕ)
      → to_int (str port) ≡ ok port
      → hostport (host ++ 58 ∷ str port) ≡ ok (host, port)
  unfolding hostport
  hostport-join host port e = rw (rsplit1-join host (str port) (str-Digits port)) (rw e refl)
