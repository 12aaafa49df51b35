-- ===== src/Client/Bounded.antt =====
-- How often the client tries, and for how long.
use cmpe272_finaltest_assesm.Prelude.{
  ℕ, zero, suc, ◌+◌, ◌^◌, ◌≤◌, ◌≡◌, refl, true, false, inl, inr, arith, Bool-cases, Option-cases,
}
use cmpe272_finaltest_assesm.Result.{Error, Result, ok, err, Result-cases}
use cmpe272_finaltest_assesm.Exec.{Exec, outcome-cases}
use cmpe272_finaltest_assesm.Socket.{Socket}
use cmpe272_finaltest_assesm.Client.{
  Link, max_attempts, connect, drop_link, is_retried, back_off, attempt_once, run_loop, run,
}

-- What `left` attempts sleep at most, from the one with this number.
abbrev pub wait : ℕ → ℕ → ℕ
wait zero attempt = 0
wait (suc zero) attempt = 0
wait (suc (suc left)) attempt = 2 ^ attempt + wait (suc left) (attempt + 1)

module _ {A : Type 0} where
  -- At most so many connections and so much sleep, and no error of a connection as the result.
  pub record IsBounded (w : Link) (dials sleep : ℕ) (o : Result A × Link) : Type 0 where
    pub few : o.1.dialled ≤ w.dialled + dials
    pub short : o.1.slept ≤ w.slept + sleep
    pub settled : (e : Error) → o.0 ≡ err e → is_retried e ≡ false

  module _ (exchange : Exec Socket A) where
    attempt_once-dials :
        (w : Link)
        → ((attempt_once exchange w).1.dialled ≤ w.dialled + 1)
          × ((attempt_once exchange w).1.slept ≡ w.slept)
    unfolding attempt_once connect
    attempt_once-dials w = elim (Option-cases w.sock) [
      | inr (s, e) ↦ (ground (arith, e), ground (arith, e))
      | inl e ↦ elim (Result-cases (w.dial w.dialled)) [
        | inl (s, d) ↦ (ground (arith, e, d), ground (arith, e, d))
        | inr (x, d) ↦ (ground (arith, e, d), ground (arith, e, d))
      ]
    ]

    module _ (left attempt : ℕ) (w w' : Link) where
      run_loop-ok :
          (a : A)
          → attempt_once exchange w ≡ (ok a, w')
          → run_loop exchange (suc left) attempt w ≡ (ok a, w')
      unfolding run_loop
      run_loop-ok a e = ground (arith, e)

      run_loop-raised :
          (x : Error)
          → attempt_once exchange w ≡ (err x, w')
          → is_retried x ≡ false
          → run_loop exchange (suc left) attempt w ≡ (err x, w')
      unfolding run_loop
      run_loop-raised x e final = ground (arith, e, final)

      run_loop-again :
          (x : Error)
          → attempt_once exchange w ≡ (err x, w')
          → is_retried x ≡ true
          → run_loop exchange (suc left) attempt w
            ≡ run_loop exchange left (attempt + 1) (back_off left attempt (drop_link w'))
      unfolding run_loop
      run_loop-again x e again = ground (arith, e, again)

    back_off-wait :
        (left attempt : ℕ) (w : Link)
        → ((back_off left attempt w).dialled ≡ w.dialled)
          × ((back_off left attempt w).slept + wait left (attempt + 1)
              ≡ w.slept + wait (suc left) attempt)
    back_off-wait zero attempt w = (refl, refl)
    back_off-wait (suc left) attempt w = (refl, omega arith)

    run_loop-IsBounded :
        (left attempt : ℕ) (w : Link)
        → IsBounded w left (wait left attempt) (run_loop exchange left attempt w)
    unfolding run_loop
    run_loop-IsBounded zero attempt w = record {
      few = omega arith;
      short = omega arith;
      settled = λ e h. ground (arith, h);
    }
    run_loop-IsBounded (suc left) attempt w =
        let (dials, slept) = attempt_once-dials w in
        elim (outcome-cases (attempt_once exchange w)) [
          | inl (a, w', e) ↦
              let dials' = rw e at dials in
              let slept' = rw e at slept in
              rw (run_loop-ok left attempt w w' a e)
                (record { few = omega arith; short = omega arith; settled = λ x h. absurd (cc h) })
          | inr (x, w', e) ↦
              let dials' = rw e at dials in
              let slept' = rw e at slept in
              elim (Bool-cases (is_retried x)) [
                | inl again ↦
                    let (same, more) = back_off-wait left attempt (drop_link w') in
                    let rest =
                      run_loop-IsBounded left (attempt + 1)
                        (back_off left attempt (drop_link w')) in
                    let few' = rest.few in
                    let short' = rest.short in
                    rw (run_loop-again left attempt w w' x e again)
                      (record { few = omega arith; short = omega arith; settled = rest.settled })
                | inr final ↦ rw (run_loop-raised left attempt w w' x e final) (record {
                  few = omega arith;
                  short = omega arith;
                  settled = λ y h. cc (final, h);
                })
              ]
        ]

    -- Whatever the broker does, a command makes at most five attempts to connect, sleeps at most 15
    -- quarters of a second, and does not end in an error of the connection: it has a result, or one of
    -- the other exceptions, such as `BrokerError`.
    pub run-IsBounded : (w : Link) → IsBounded w max_attempts 15 (run exchange w)
    unfolding run
    run-IsBounded w = run_loop-IsBounded max_attempts 0 w
