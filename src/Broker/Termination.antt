-- ===== src/Broker/Termination.antt =====
-- A session ends: every command takes at least its prefix from the stream.
use cmpe272_finaltest_assesm.Prelude.{
  ℕ, zero, suc, ◌≤◌, ◌<◌, ◌≡◌, ◌≢◌, ap, sym, ◌∙◌, true, false, Option, none, some, ◌++◌, arith,
  ◌=ₜ◌, length, length-append, inl, inr, Bool, if◌then◌else◌,
}
use cmpe272_finaltest_assesm.Result.{Error, Result, ok, err, diverged}
use cmpe272_finaltest_assesm.Exec.{Exec, ◌>>=◌, ◌>>◌, bind-ok, bind-err, outcome-cases}
use cmpe272_finaltest_assesm.Bytes.{Bytes, Text}
use cmpe272_finaltest_assesm.Text.{codes}
use cmpe272_finaltest_assesm.Socket.{Socket, recv_frame, send_frame}
use cmpe272_finaltest_assesm.Socket.Consume.{
  ReadsFrame, recv_frame-ReadsFrame, Sends, send_frame-Sends,
}
use cmpe272_finaltest_assesm.Broker.Key.{safe_path}
use cmpe272_finaltest_assesm.Broker.Storage.{store_blob}
use cmpe272_finaltest_assesm.Broker.Command.{
  Codec, Broker, out_of_fuel, ended_by, ended_between, on_conn, on_storage, reply, count_put,
  find_blob, get_reply, handle_get, put_blob, handle_put, stat_reply, handle_stat, handle_list,
  dispatch, handle_command, serve_client,
}

-- What a step leaves of the stream: no more than there was. It does not run out of fuel.
abbrev Ends : {A : Type 0} → Broker → Result A × Broker → Type 0
Ends b (ok a, b') = length b'.conn.pending ≤ length b.conn.pending
Ends b (err e, b') = e ≢ diverged

bind-Ends :
    {A B : Type 0} (m : Exec Broker A) (f : A → Exec Broker B) (b : Broker)
    → Ends b (m b)
    → ((a : A) (b' : Broker) → Ends b' (f a b'))
    → Ends b ((m >>= f) b)
bind-Ends m f b first next = elim (outcome-cases (m b)) [
  | inl (a, b1, e) ↦
      let le : length b1.conn.pending ≤ length b.conn.pending = rw e at first in
      rw (bind-ok m f e) (shorter b b1 (f a b1) le (next a b1))
  | inr (x, b1, e) ↦ rw (bind-err m f e) (rw e at first)
]
  where
    shorter :
        {B : Type 0} (b b1 : Broker) (o : Result B × Broker)
        → length b1.conn.pending ≤ length b.conn.pending
        → Ends b1 o
        → Ends b o
    shorter b b1 (ok a, b2) le h = omega arith
    shorter b b1 (err e, b2) le h = h

-- Of the branches of a test.
if-Ends :
    {A : Type 0} (t : Bool) (m n : Exec Broker A) (b : Broker)
    → Ends b (m b)
    → Ends b (n b)
    → Ends b ((if t then m else n) b)
if-Ends true m n b h k = h
if-Ends false m n b h k = k

reply-Ends : (bs : Bytes) (b : Broker) → Ends b (reply bs b)
reply-Ends bs b = of (send_frame bs b.conn) (send_frame-Sends bs b.conn)
  where
    of : (o : Result Unit × Socket) → Sends b.conn o → Ends b (o.0, record b { conn = o.1 })
    of (ok u, s) h = omega (arith, ap length h)
    of (err e, s) h = h

-- What a read takes from the stream.
recv_frame-Ends : (b : Broker) → Ends b (on_conn recv_frame b)
recv_frame-Ends b = of (recv_frame b.conn) (recv_frame-ReadsFrame b.conn)
  where
    of : (o : Result Bytes × Socket) → ReadsFrame b.conn o → Ends b (o.0, record b { conn = o.1 })
    of (ok bs, s) (prefix, e, size) = omega (
      arith,
      ap length e,
      length-append {0} prefix (bs ++ s.pending),
      length-append {0} bs s.pending,
    )
    of (err e, s) h = h

-- A frame takes at least its prefix.
frame_taken :
    (s s1 : Socket) (bs : Bytes) → recv_frame s ≡ (ok bs, s1) → length s1.pending < length s.pending
frame_taken s s1 bs e =
    let (prefix, whole, size) : ReadsFrame s (ok bs, s1) = rw e at (recv_frame-ReadsFrame s) in
    omega (
      arith,
      ap length whole,
      length-append {0} prefix (bs ++ s1.pending),
      length-append {0} bs s1.pending,
    )

store_blob-Ends :
    (ns name : Text) (bs : Bytes) (b : Broker) → Ends b (on_storage (store_blob ns name bs) b)
unfolding store_blob
store_blob-Ends ns name bs b = ground arith

count_put-Ends : (b : Broker) → Ends b (count_put b)
unfolding count_put
count_put-Ends b = ground arith

get_reply-Ends : (o : Option Bytes) (b : Broker) → Ends b (get_reply o b)
unfolding get_reply
get_reply-Ends none b = reply-Ends (codes "MISSING") b
get_reply-Ends (some bs) b =
    bind-Ends (reply (codes "OK")) (λ u. reply bs) b (reply-Ends (codes "OK") b)
      (λ u. reply-Ends bs)

module _ (c : Codec) where
  put_blob-Ends :
      (key : Text) (bs : Bytes) (p : Result (Text × Text)) (b : Broker)
      → Ends b (put_blob c key bs p b)
  unfolding put_blob
  put_blob-Ends key bs (err e) b = reply-Ends _ b
  put_blob-Ends key bs (ok (ns, name)) b =
      bind-Ends (on_storage (store_blob ns name bs)) (λ u. count_put >> reply (codes "OK")) b
        (store_blob-Ends ns name bs b)
        (λ u b1.
          bind-Ends count_put (λ v. reply (codes "OK")) b1 (count_put-Ends b1)
            (λ v. reply-Ends (codes "OK")))

  handle_put-Ends : (key : Text) (b : Broker) → Ends b (handle_put c key b)
  unfolding handle_put
  handle_put-Ends key b =
      bind-Ends (on_conn recv_frame) (λ bs. put_blob c key bs (safe_path key)) b (recv_frame-Ends b)
        (λ bs. put_blob-Ends key bs (safe_path key))

  stat_reply-Ends : (o : Option Bytes) (b : Broker) → Ends b (stat_reply c o b)
  unfolding stat_reply
  stat_reply-Ends none b = reply-Ends _ b
  stat_reply-Ends (some bs) b = reply-Ends _ b

  handle_list-Ends : (prefix : Text) (b : Broker) → Ends b (handle_list c prefix b)
  unfolding handle_list
  handle_list-Ends prefix b =
      bind-Ends (reply (codes "OK")) _ b (reply-Ends (codes "OK") b) (λ u. reply-Ends _)

  dispatch-Ends : (op arg : Text) (b : Broker) → Ends b (dispatch c op arg b)
  unfolding dispatch handle_get handle_stat
  dispatch-Ends op arg b = if-Ends (op =ₜ codes "PUT") _ _ b (handle_put-Ends arg b) (
      if-Ends (op =ₜ codes "GET") _ _ b (get_reply-Ends (find_blob (safe_path arg) b.storage) b) (
        if-Ends (op =ₜ codes "STAT") _ _ b (stat_reply-Ends (find_blob (safe_path arg) b.storage) b)
          (if-Ends (op =ₜ codes "LIST") _ _ b (handle_list-Ends arg b) (reply-Ends _ b))))

  handle_command-Ends : (line : Bytes) (b : Broker) → Ends b (handle_command c line b)
  unfolding handle_command
  handle_command-Ends line b = dispatch-Ends _ _ b

  ended_by-ends : (e : Error) → e ≢ diverged → ended_by e ≢ out_of_fuel
  ended_by-ends e h = λ d. ground arith

  ended_between-ends : (e : Error) → e ≢ diverged → ended_between e ≢ out_of_fuel
  ended_between-ends e h = λ d. ground arith

  -- One round, by how it ends.
  pub serve_client-cut :
      (fuel : ℕ) (b : Broker) (s1 : Socket) (x : Error)
      → recv_frame b.conn ≡ (err x, s1)
      → serve_client c (suc fuel) b ≡ (ended_between x, record b { conn = s1 })
  unfolding serve_client
  serve_client-cut fuel b s1 x e = ground (arith, e)

  serve_client-stops :
      (fuel : ℕ) (b b2 : Broker) (s1 : Socket) (line : Bytes) (x : Error)
      → recv_frame b.conn ≡ (ok line, s1)
      → handle_command c line (record b { conn = s1 }) ≡ (err x, b2)
      → serve_client c (suc fuel) b ≡ (ended_by x, b2)
  unfolding serve_client
  serve_client-stops fuel b b2 s1 line x e e' = ground (arith, e, e')

  pub serve_client-goes :
      (fuel : ℕ) (b b2 : Broker) (s1 : Socket) (line : Bytes) (u : Unit {0})
      → recv_frame b.conn ≡ (ok line, s1)
      → handle_command c line (record b { conn = s1 }) ≡ (ok u, b2)
      → serve_client c (suc fuel) b ≡ serve_client c fuel b2
  unfolding serve_client
  serve_client-goes fuel b b2 s1 line u e e' = ground (arith, e, e')

  -- However many bytes a peer sends, and whatever they are, its session comes to an end: it never runs
  -- out of fuel, nor does a read in it, if there is one round more than there are bytes.
  pub serve_client-ends :
      (fuel : ℕ) (b : Broker)
      → length b.conn.pending < fuel
      → (serve_client c fuel b).0 ≢ out_of_fuel
  unfolding serve_client
  serve_client-ends zero b h = elim h [ ]
  serve_client-ends (suc fuel) b h = elim (outcome-cases (recv_frame b.conn)) [
    | inr (x, s1, e) ↦
        let ends : x ≢ diverged = rw e at (recv_frame-ReadsFrame b.conn) in
        λ d. ended_between-ends x ends (ap (λ o. o.0) (sym (serve_client-cut fuel b s1 x e)) ∙ d)
    | inl (line, s1, e) ↦
        let b1 : Broker = record b { conn = s1 } in
        let less : length s1.pending < length b.conn.pending = frame_taken b.conn s1 line e in
        elim (outcome-cases (handle_command c line b1)) [
          | inr (x, b2, e') ↦
              let ends : x ≢ diverged = rw e' at (handle_command-Ends line b1) in
              λ d.
                ended_by-ends x ends
                  (ap (λ o. o.0) (sym (serve_client-stops fuel b b2 s1 line x e e')) ∙ d)
          | inl (u, b2, e') ↦
              let le : length b2.conn.pending ≤ length s1.pending =
                rw e' at (handle_command-Ends line b1) in
              λ d.
                serve_client-ends fuel b2 (omega arith)
                  (ap (λ o. o.0) (sym (serve_client-goes fuel b b2 s1 line u e e')) ∙ d)
        ]
  ]
